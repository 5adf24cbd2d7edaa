-- ===== src/Base/Search.antt =====
-- Laws of strings.HasPrefix and strings.Contains.
use Prim.Native.Nat.{ℕ}
use mathlib.Core.Path.{◌≡◌, refl}
use mathlib.Core.Bool.{◌||◌}
use mathlib.Core.List.{[], ◌∷◌, ◌++◌}
use native.Mathlib.Omega.{arith}
use pfortainer.Base.Strings.{Text, has_prefix, contains}
use pfortainer.Base.TextLaws.{Lacks}

-- A prefix that lacks the byte c is found before it or not at all.
has_prefix-break : (c : ℕ) (p a b : Text) → Lacks c p → has_prefix (a ++ c ∷ b) p ≡ has_prefix a p
unfolding has_prefix
has_prefix-break c [] [] b h = refl
has_prefix-break c [] (x ∷ a) b h = refl
has_prefix-break c (q ∷ p) [] b h = ground (arith, h.0)
has_prefix-break c (q ∷ p) (x ∷ a) b h = ground (arith, has_prefix-break c p a b h.1)

-- A text that lacks the byte c is never found across it.
pub contains-break :
    (c x : ℕ) (p a b : Text)
    → Lacks c (x ∷ p)
    → contains (a ++ c ∷ b) (x ∷ p) ≡ (contains a (x ∷ p) || contains b (x ∷ p))
unfolding contains has_prefix
contains-break c x p [] b h = ground (arith, h.0)
contains-break c x p (y ∷ a) b h =
    ground (arith, has_prefix-break c (x ∷ p) (y ∷ a) b h, contains-break c x p a b h)
