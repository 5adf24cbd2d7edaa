-- ===== src/Hostd/Shares/Trim.antt =====
-- strings.TrimSpace on texts that begin or end with no space (hostd.go, parseSMBConf).
use mathlib.Core.List.{reverse, reverse-append, reverse-reverse}
use pfortainer.Base.{
  ℕ, ◌≡◌, refl, ap, ◌∙◌, Bool, true, false, not, [], ◌∷◌, ◌++◌, arith, Text, trim, trim_left,
  is_space,
}

-- The text begins, and ends, with a byte that is no space.
unfoldable pub starts_well : Text → Bool
starts_well [] = false
starts_well (x ∷ xs) = not (is_space x)

unfoldable pub ends_well : Text → Bool
ends_well [] = false
ends_well (x ∷ []) = not (is_space x)
ends_well (x ∷ y ∷ s) = ends_well (y ∷ s)

ends_snoc :
    (v : Text)
    → ends_well v ≡ true
    → (w : Text) × (x : ℕ) × (v ≡ w ++ x ∷ []) × (is_space x ≡ false)
unfolding ends_well
ends_snoc [] h = absurd (cc)
ends_snoc (x ∷ []) h = ([], x, refl, ground arith)
ends_snoc (x ∷ y ∷ s) h = let (w, z, e, k) = ends_snoc (y ∷ s) h in (x ∷ w, z, ap (λ t. x ∷ t) e, k)

pub ends_well-append : (a b : Text) → ends_well b ≡ true → ends_well (a ++ b) ≡ true
unfolding ends_well
ends_well-append [] b h = h
ends_well-append (x ∷ []) [] h = absurd (cc)
ends_well-append (x ∷ []) (y ∷ b) h = h
ends_well-append (x ∷ z ∷ a) b h = ends_well-append (z ∷ a) b h

-- trim_left passes the spaces before the end, from the right.
trim_right : (v : Text) → ends_well v ≡ true → trim_left (reverse v) ≡ reverse v
unfolding trim_left
trim_right v h =
    let (w, x, e, k) = ends_snoc v h in
    let r : reverse v ≡ x ∷ reverse w = ap reverse e ∙ reverse-append w (x ∷ []) in
    rw r (ground (arith, k))

trim_left_solid : (v : Text) → starts_well v ≡ true → trim_left v ≡ v
unfolding trim_left starts_well
trim_left_solid [] h = absurd (cc)
trim_left_solid (x ∷ v) h = ground arith

pub trim_solid : (v : Text) → starts_well v ≡ true → ends_well v ≡ true → trim v ≡ v
unfolding trim
trim_solid v s e =
    ap (λ t. reverse (trim_left (reverse t))) (trim_left_solid v s)
    ∙ (ap reverse (trim_right v e) ∙ reverse-reverse v)

pub trim_lead : (x : ℕ) (v : Text) → is_space x ≡ true → trim (x ∷ v) ≡ trim v
unfolding trim trim_left
trim_lead x v h = ground (arith, h)

pub starts_well-append : (a b : Text) → starts_well a ≡ true → starts_well (a ++ b) ≡ true
unfolding starts_well
starts_well-append [] b h = absurd (cc)
starts_well-append (x ∷ a) b h = h

pub trim_trail : (v : Text) → starts_well v ≡ true → ends_well v ≡ true → trim (v ++ 32 ∷ []) ≡ v
unfolding trim trim_left
trim_trail v s e =
    ap (λ t. reverse (trim_left (reverse t)))
      (trim_left_solid (v ++ 32 ∷ []) (starts_well-append v (32 ∷ []) s))
    ∙ (ap (λ t. reverse (trim_left t)) (reverse-append v (32 ∷ []))
        ∙ (ap reverse (trim_right v e) ∙ reverse-reverse v))
