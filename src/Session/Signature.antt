-- ===== src/Session/Signature.antt =====
-- Signing and verifying (session.go), the payload `username:role`, and bytes that cookies carry.
use pfortainer.Base.{
  ℕ, true, some, List, [], ◌∷◌, ◌++◌, ◌≡◌, ◌≢◌, inl, inr, refl, ap, arith, Text, text_eq,
  text_eq_iff, text_eq_refl, hex, keep, All, All-append, Lacks, last_index-append, last_index-Lacks,
  split_last, split_first, take-before, drop-after, cut-append, cut-Lacks, hex-Lacks, Bool-cases,
}
use pfortainer.Http.{valid_cookie_byte}
use pfortainer.Session.{
  SessionUser, role_viewer, role_operator, role_admin, role_rank, sign, verify, read_payload,
}

-- Every byte may stand in a cookie.
abbrev pub IsCookieSafe : Text → Type 0
IsCookieSafe = All (λ b. valid_cookie_byte b ≡ true)

pub keep-IsCookieSafe : (s : Text) → IsCookieSafe s → keep valid_cookie_byte s ≡ s
keep-IsCookieSafe [] h = refl
keep-IsCookieSafe (b ∷ s) h = rw (h.0) (ap (λ t. b ∷ t) (keep-IsCookieSafe s h.1))

pub hex-IsCookieSafe : (bs : List ℕ) → IsCookieSafe (hex bs)
unfolding hex valid_cookie_byte
hex-IsCookieSafe [] = tt
hex-IsCookieSafe (b ∷ bs) = (ground arith, (ground arith, hex-IsCookieSafe bs))

-- A role with a rank is one of the three.
pub role-ind {ℓ} :
    (P : Text → Type ℓ)
    → P role_viewer
    → P role_operator
    → P role_admin
    → (role : Text) → role_rank role ≢ 0
    → P role
unfolding role_rank
role-ind P v o a role h = elim (Bool-cases (text_eq role role_viewer)) [
  | inl e ↦ rw ((text_eq_iff role role_viewer).0 e) v
  | inr n ↦ elim (Bool-cases (text_eq role role_operator)) [
    | inl e ↦ rw ((text_eq_iff role role_operator).0 e) o
    | inr m ↦ elim (Bool-cases (text_eq role role_admin)) [
      | inl e ↦ rw ((text_eq_iff role role_admin).0 e) a
      | inr l ↦ absurd (ground arith)
    ]
  ]
]

pub role_rank-IsCookieSafe : (role : Text) → role_rank role ≢ 0 → IsCookieSafe role
unfolding valid_cookie_byte
role_rank-IsCookieSafe = role-ind IsCookieSafe (ground arith) (ground arith) (ground arith)

pub role_rank-Lacks_colon : (role : Text) → role_rank role ≢ 0 → Lacks b':' role
role_rank-Lacks_colon = role-ind (Lacks b':') (ground arith) (ground arith) (ground arith)

module _ (mac : Text → Text → List ℕ) (secret : Text) where
  pub sign-IsCookieSafe : (val : Text) → IsCookieSafe val → IsCookieSafe (sign mac secret val)
  unfolding sign valid_cookie_byte
  sign-IsCookieSafe val h =
      All-append (λ b. valid_cookie_byte b ≡ true) val (b'.' ∷ hex (mac secret val)) h
        (refl, hex-IsCookieSafe (mac secret val))

  verify-append :
      (val sig : Text)
      → Lacks b'.' sig
      → verify mac secret (val ++ b'.' ∷ sig) ≡ (val, text_eq sig (hex (mac secret val)))
  unfolding verify
  verify-append val sig h =
      rw (verify, last_index-append b'.' val sig h) (rw (take-before, drop-after))

  pub verify-sign : (val : Text) → verify mac secret (sign mac secret val) ≡ (val, true)
  unfolding sign
  verify-sign val =
      rw (verify-append val (hex (mac secret val)) (hex-Lacks b'.' _ (omega arith)), text_eq_refl)

  verify_made :
      (a b val : Text) {s : Text}
      → Lacks b'.' b
      → verify mac secret (a ++ b'.' ∷ b) ≡ (val, true)
      → s ≡ a ++ b'.' ∷ b
      → s ≡ sign mac secret val
  unfolding sign
  verify_made a b val l h e =
      ground (arith, verify-append a b l, text_eq_iff b (hex (mac secret a)))

  -- Only what `sign` makes is verified.
  pub verify_only : (s val : Text) → verify mac secret s ≡ (val, true) → s ≡ sign mac secret val
  unfolding sign
  verify_only s val h = elim (split_last b'.' s) [
    | inl none_left ↦ unfold verify in ground (arith, last_index-Lacks b'.' s none_left)
    | inr (a, b, e, l) ↦
        let g : verify mac secret (a ++ b'.' ∷ b) ≡ (val, true) = rw e at h in
        verify_made a b val l g e
  ]

pub read_payload-colon :
    (username role : Text)
    → Lacks b':' username
    → username ≢ []
    → role_rank role ≢ 0
    → read_payload (username ++ b':' ∷ role) ≡ some (record { username = username; role = role })
unfolding read_payload
read_payload-colon username role l n r =
    ground (arith, cut-append b':' username role l, text_eq_iff username [])

pub read_payload-some :
    (payload : Text) (u : SessionUser)
    → read_payload payload ≡ some u
    → (payload ≡ u.username ++ b':' ∷ u.role) × (u.username ≢ []) × (role_rank u.role ≢ 0)
unfolding read_payload
read_payload-some payload u h = elim (split_first b':' payload) [
  | inl l ↦ ground (arith, cut-Lacks b':' payload l)
  | inr (a, b, e, l) ↦ rw e (ground (arith, cut-append b':' a b l, e, text_eq_iff a []))
]
