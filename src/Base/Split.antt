-- ===== src/Base/Split.antt =====
-- Laws of strings.Split at one byte.
use Prim.Native.Nat.{ℕ}
use mathlib.Core.Path.{◌≡◌, refl}
use mathlib.Core.Logic.{inl, inr}
use mathlib.Core.Bool.{false}
use mathlib.Core.List.{List, [], ◌∷◌, ◌++◌}
use native.Mathlib.Omega.{arith}
use pfortainer.Base.Tests.{◌==◌, Bool-cases}
use pfortainer.Base.Lists.{All}
use pfortainer.Base.Strings.{Text, split, push_head}
use pfortainer.Base.TextLaws.{Lacks}

-- There is always a first part.
split_cons : (c : ℕ) (a : Text) → (w : Text) × (ws : List Text) × (split a c ≡ w ∷ ws)
unfolding split
split_cons c [] = ([], [], refl)
split_cons c (x ∷ a) = elim (Bool-cases (x == c)) [
  | inl e ↦ ([], split a c, rw e)
  | inr e ↦ let (w, ws, h) = split_cons c a in (x ∷ w, ws, ground (arith, h))
]

push_head-append :
    (x : ℕ) (ws vs : List Text) {w : Text} {us : List Text}
    → ws ≡ w ∷ us
    → push_head x (ws ++ vs) ≡ push_head x ws ++ vs
push_head-append x [] vs h = cc
push_head-append x (w ∷ ws) vs h = refl

pub split-append : (c : ℕ) (a b : Text) → split (a ++ c ∷ b) c ≡ split a c ++ split b c
unfolding split
split-append c [] b = ground arith
split-append c (x ∷ a) b =
    let (w, ws, h) = split_cons c a in
    ground (arith, split-append c a b, push_head-append x (split a c) (split b c) h)

pub split_one : (c : ℕ) (a : Text) → Lacks c a → split a c ≡ a ∷ []
unfolding split
split_one c [] h = refl
split_one c (x ∷ a) h = ground (arith, split_one c a h.1, h.0)

push_head-Lacks :
    (c x : ℕ) (ws : List Text)
    → (x == c) ≡ false
    → All (Lacks c) ws
    → All (Lacks c) (push_head x ws)
push_head-Lacks c x [] e h = ((ground arith, tt), tt)
push_head-Lacks c x (w ∷ ws) e h = ((ground arith, h.0), h.1)

-- No part has the byte.
pub split-Lacks : (c : ℕ) (a : Text) → All (Lacks c) (split a c)
unfolding split
split-Lacks c [] = (tt, tt)
split-Lacks c (x ∷ a) = elim (Bool-cases (x == c)) [
  | inl e ↦ rw e (tt, split-Lacks c a)
  | inr e ↦ rw e (push_head-Lacks c x (split a c) e (split-Lacks c a))
]
