-- ===== src/Files/Modes.antt =====
-- filemanager.go: the mode that a listing prints (modeOctal) and that fileChmod reads back.
use pfortainer.Base.{
  ℕ, zero, suc, ◌%◌, ◌<◌, ◌≡◌, refl, Bool, true, false, ◌&&◌, none, some, arith, text_eq, ◌==◌,
}
use pfortainer.Files.Change.{octal, parse_octal}
use pfortainer.Files.Listing.{octal_digits, mode_octal}

-- The printed mode is read as the mode.
reads_back : ℕ → Bool
reads_back m = elim (parse_octal (octal_digits 22 m)) [ none ↦ false | some k ↦ k == m ]

every_mode : ℕ → Bool
every_mode zero = true
every_mode (suc n) = reads_back n && every_mode n

one_mode : (m n : ℕ) → m < n → every_mode n ≡ true → reads_back m ≡ true
unfolding every_mode
one_mode m zero below h = absurd (omega arith)
one_mode m (suc n) below h = ground (arith, one_mode m n)

nine_bits : every_mode 512 ≡ true
unfolding every_mode reads_back parse_octal octal octal_digits text_eq
nine_bits = refl

reads_back_as : (m : ℕ) → reads_back m ≡ true → parse_octal (octal_digits 22 m) ≡ some m
unfolding reads_back
reads_back_as m h = ground arith

-- fileChmod reads a printed mode as its permission bits.
pub parse_octal-mode_octal : (m : ℕ) → parse_octal (mode_octal m) ≡ some (m % 512)
unfolding mode_octal
parse_octal-mode_octal m = reads_back_as (m % 512) (one_mode (m % 512) 512 (omega arith) nine_bits)
