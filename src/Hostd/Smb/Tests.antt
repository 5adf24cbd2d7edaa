-- ===== src/Hostd/Smb/Tests.antt =====
-- Setups of a concrete smb4.conf.
use pfortainer.Base.{◌≡◌, refl, false, ◌++◌, Text, codes, has_prefix, contains}
use pfortainer.Hostd.Smb.{setup_ok}
use pfortainer.Hostd.Smb.Setup.{setups, lines, setup_never_detected}

abbrev plain_conf : Text
plain_conf = codes "[global]\n"

plain_undetected : setup_ok plain_conf ≡ false
unfolding setup_ok contains has_prefix
plain_undetected = refl

setup_never_detected_example :
    (setups 2 plain_conf ≡ plain_conf ++ lines 2) × (setup_ok (setups 2 plain_conf) ≡ false)
setup_never_detected_example = setup_never_detected 2 plain_conf plain_undetected
