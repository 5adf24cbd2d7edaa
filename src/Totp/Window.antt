-- ===== src/Totp/Window.antt =====
-- Which inputs verifyTOTP accepts.
use pfortainer.Base.{
  ℕ, ◌+◌, ◌-◌, ◌/◌, ◌≤◌, ◌≡◌, refl, ◌↔◌, ◌⊎◌, true, ◌||◌, List, arith, Text, trim, text_eq_iff,
  Result, ok, err,
}
use pfortainer.Store.{Time, unix}
use pfortainer.Totp.{code_at, totp_code, is_code, verify_totp}

is_code_iff : (r : Result Text) (input : Text) → (is_code r input ≡ true) ↔ (r ≡ ok (trim input))
is_code_iff (ok expected) input = ground (arith, text_eq_iff expected (trim input))
is_code_iff (err e) input = ground arith

steps :
    (now : Time)
    → 30 ≤ unix now
    → (unix (now - 30000000000) / 30 ≡ unix now / 30 - 1)
      × (unix (now + 30000000000) / 30 ≡ unix now / 30 + 1)
unfolding unix
steps now h = (omega arith, omega arith)

module _ (sha1 : List ℕ → List ℕ → List ℕ) (base32 : Text → Result (List ℕ)) where
  verify_steps :
      (now : Time) (secret input : Text)
      → verify_totp sha1 base32 now secret input ≡ (
          is_code (code_at sha1 base32 secret (unix now / 30)) input
          || is_code (code_at sha1 base32 secret (unix (now - 30000000000) / 30)) input
          || is_code (code_at sha1 base32 secret (unix (now + 30000000000) / 30)) input)
  unfolding verify_totp totp_code
  verify_steps now secret input = refl

  -- From 30 seconds after 1970 on, verifyTOTP accepts an input exactly if, without the spaces
  -- around it, it is the code of the current step of 30 seconds, of the step before or of the step
  -- after.
  pub accepted_iff_in_window :
      (now : Time) (secret input : Text)
      → 30 ≤ unix now
      → (verify_totp sha1 base32 now secret input ≡ true) ↔ (
          (code_at sha1 base32 secret (unix now / 30) ≡ ok (trim input))
          ⊎ ((code_at sha1 base32 secret (unix now / 30 - 1) ≡ ok (trim input))
              ⊎ (code_at sha1 base32 secret (unix now / 30 + 1) ≡ ok (trim input))))
  accepted_iff_in_window now secret input h =
      let (before, after) = steps now h in
      rw (verify_steps now secret input, before, after)
        (ground (
          arith,
          is_code_iff (code_at sha1 base32 secret (unix now / 30)) input,
          is_code_iff (code_at sha1 base32 secret (unix now / 30 - 1)) input,
          is_code_iff (code_at sha1 base32 secret (unix now / 30 + 1)) input,
        ))
