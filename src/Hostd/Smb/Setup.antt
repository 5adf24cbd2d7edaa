-- ===== src/Hostd/Smb/Setup.antt =====
-- What repeated setups do to smb4.conf.
use pfortainer.Base.{
  ℕ, zero, suc, ◌≡◌, refl, sym, ◌∙◌, true, false, none, [], ◌∷◌, ◌++◌, append-nil, append_assoc,
  arith, Text, codes, has_prefix, contains, Lacks, contains-break,
}
use pfortainer.Hostd.Smb.{include_line, setup_ok, smb_setup}

-- The file after n setups that meet no error.
pub setups : ℕ → Text → Text
setups zero conf = conf
setups (suc n) conf =
    setups n
      (smb_setup (record { read_error = none; open_error = none; write_error = none }) true conf).0

-- n times the line that a setup adds.
pub lines : ℕ → Text
lines zero = []
lines (suc n) = (b'\n' ∷ (include_line ++ b'\n' ∷ [])) ++ lines n

line_undetected : contains (include_line ++ b'\n' ∷ []) (codes "shares.d") ≡ false
unfolding contains has_prefix
line_undetected = refl

shares-Lacks : Lacks b'\n' (codes "shares.d")
shares-Lacks = ground arith

still_undetected :
    (conf : Text)
    → setup_ok conf ≡ false
    → setup_ok (conf ++ b'\n' ∷ (include_line ++ b'\n' ∷ [])) ≡ false
unfolding setup_ok
still_undetected conf h =
    contains-break b'\n' b's' (codes "hares.d") conf (include_line ++ b'\n' ∷ []) shares-Lacks
    ∙ rw (h, line_undetected) refl

one_setup :
    (conf : Text)
    → setup_ok conf ≡ false
    → (smb_setup (record { read_error = none; open_error = none; write_error = none }) true conf).0
      ≡ conf ++ b'\n' ∷ (include_line ++ b'\n' ∷ [])
unfolding smb_setup
one_setup conf h = rw (smb_setup, h) refl

-- Where the test for the setup fails on smb4.conf, n setups without errors add their line n times,
-- and the test still fails after them.
pub setup_never_detected :
    (n : ℕ) (conf : Text)
    → setup_ok conf ≡ false
    → (setups n conf ≡ conf ++ lines n) × (setup_ok (setups n conf) ≡ false)
unfolding setups lines
setup_never_detected zero conf h = (sym (append-nil conf), h)
setup_never_detected (suc n) conf h =
    let (added, undetected) = setup_never_detected n _ (still_undetected conf h) in
    rw (one_setup conf h)
      (added ∙ append_assoc conf (b'\n' ∷ (include_line ++ b'\n' ∷ [])) (lines n), undetected)
