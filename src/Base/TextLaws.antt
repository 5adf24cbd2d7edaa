-- ===== src/Base/TextLaws.antt =====
-- Laws of the text functions.
use Prim.Native.Nat.{ℕ, suc, ◌+◌, ◌<◌}
use mathlib.Core.Path.{◌≡◌, refl, ap}
use mathlib.Core.Logic.{◌≢◌, ◌↔◌, ◌⊎◌, inl, inr}
use mathlib.Core.Bool.{true}
use mathlib.Core.List.{List, [], ◌∷◌, ◌++◌}
use mathlib.Core.Option.{none, some}
use native.Mathlib.Omega.{arith}
use native.Mathlib.Decide.{ℕ_discrete}
use native.Mathlib.Numerals.{add-one}
use pfortainer.Base.Lists.{length, drop, take, All}
use pfortainer.Base.Strings.{Text, text_eq, last_index, cut, hex}

pub text_eq_iff : (a b : Text) → (text_eq a b ≡ true) ↔ (a ≡ b)
unfolding text_eq
text_eq_iff (x ∷ a) (y ∷ b) = ground (arith, text_eq_iff a b)
text_eq_iff _ _ = ground arith

pub text_eq_refl : (a : Text) → text_eq a a ≡ true
text_eq_refl a = (text_eq_iff a a).1 refl

-- The text has no byte c.
abbrev pub Lacks : ℕ → Text → Type 0
Lacks c = All (λ x. x ≢ c)

pub Lacks-append : (c : ℕ) (a b : Text) → Lacks c a → Lacks c b → Lacks c (a ++ b)
Lacks-append c [] b ha hb = hb
Lacks-append c (x ∷ a) b ha hb = (ha.0, Lacks-append c a b ha.1 hb)

pub last_index-Lacks : (c : ℕ) (s : Text) → Lacks c s → last_index s c ≡ none
unfolding last_index
last_index-Lacks c [] h = refl
last_index-Lacks c (x ∷ s) h = ground (arith, last_index-Lacks c s h.1, h.0)

pub last_index-append :
    (c : ℕ) (a b : Text) → Lacks c b → last_index (a ++ c ∷ b) c ≡ some (length a)
unfolding last_index
last_index-append c [] b h = ground (arith, last_index-Lacks c b h)
last_index-append c (x ∷ a) b h = ground (arith, last_index-append c a b h)

pub take-length : (a b : Text) → take (length a) (a ++ b) ≡ a
take-length [] b = refl
take-length (x ∷ a) b = ap (λ t. x ∷ t) (take-length a b)

pub drop-length : (c : ℕ) (a b : Text) → drop (suc (length a)) (a ++ c ∷ b) ≡ b
drop-length c [] b = refl
drop-length c (x ∷ a) b = drop-length c a b

-- Every text is a part before the last byte c and a part that lacks it, or lacks it all.
pub split_last :
    (c : ℕ) (s : Text) → Lacks c s ⊎ ((a : Text) × (b : Text) × (s ≡ a ++ c ∷ b) × Lacks c b)
split_last c [] = inl tt
split_last c (x ∷ s) = elim (split_last c s) [
  | inr (a, b, e, h) ↦ inr (x ∷ a, b, ap (λ t. x ∷ t) e, h)
  | inl h ↦ elim (ℕ_discrete x c) [
    | yes e ↦ inr ([], s, ap (λ t. t ∷ s) e, h)
    | no ne ↦ inl (ne, h)
  ]
]

module _ (c : ℕ) (a b : Text) where
  pub take-before : take (length a) (a ++ c ∷ b) ≡ a
  take-before = take-length a (c ∷ b)

  pub drop-after : drop (length a + 1) (a ++ c ∷ b) ≡ b
  drop-after = rw add-one (drop-length c a b)

-- strings.Cut at the first byte c, or the lack of it.
pub cut-append : (c : ℕ) (a b : Text) → Lacks c a → cut (a ++ c ∷ b) c ≡ some (a, b)
unfolding cut
cut-append c [] b h = ground arith
cut-append c (x ∷ a) b h = ground (arith, cut-append c a b h.1)

pub cut-Lacks : (c : ℕ) (s : Text) → Lacks c s → cut s c ≡ none
unfolding cut
cut-Lacks c [] h = refl
cut-Lacks c (x ∷ s) h = ground (arith, cut-Lacks c s h.1, h.0)

-- The same at the first byte c.
pub split_first :
    (c : ℕ) (s : Text) → Lacks c s ⊎ ((a : Text) × (b : Text) × (s ≡ a ++ c ∷ b) × Lacks c a)
split_first c [] = inl tt
split_first c (x ∷ s) = elim (ℕ_discrete x c) [
  | yes e ↦ inr ([], s, ap (λ t. t ∷ s) e, tt)
  | no ne ↦ elim (split_first c s) [
    | inl h ↦ inl (ne, h)
    | inr (a, b, e, h) ↦ inr (x ∷ a, b, ap (λ t. x ∷ t) e, (ne, h))
  ]
]

-- No hexadecimal digit is the byte c, where c is no digit and no lower-case letter.
pub hex-Lacks : (c : ℕ) (bs : List ℕ) → c < 48 → Lacks c (hex bs)
unfolding hex
hex-Lacks c [] h = tt
hex-Lacks c (b ∷ bs) h = (ground arith, (ground arith, hex-Lacks c bs h))
