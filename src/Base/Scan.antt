-- ===== src/Base/Scan.antt =====
-- strings.Fields, strings.TrimPrefix and the lines of a bufio.Scanner.
use mathlib.Core.List.{List, [], ◌∷◌, ◌++◌}
use Prim.Native.Nat.{ℕ}
use pfortainer.Base.Tests.{◌==◌, ltb, if◌then◌else◌}
use pfortainer.Base.Lists.{length}
use pfortainer.Base.Strings.{Text, is_space, has_prefix, split}

abbrev close_word : Text → List Text → List Text
close_word [] ws = ws
close_word (c ∷ w) ws = (c ∷ w) ∷ ws

unfoldable pub words_from : Text → Text → List Text
words_from w [] = close_word w []
words_from w (x ∷ xs) =
    let apart = close_word w (words_from [] xs) in
    let inside = words_from (w ++ x ∷ []) xs in if is_space x then apart else inside

-- strings.Fields.
abbrev pub fields : Text → List Text
fields s = words_from [] s

abbrev drop_prefix : Text → Text → Text
drop_prefix xs [] = xs
drop_prefix [] (p ∷ ps) = []
drop_prefix (x ∷ xs) (p ∷ ps) = drop_prefix xs ps

-- strings.TrimPrefix, the text first.
unfoldable pub trim_prefix : Text → Text → Text
unfolding has_prefix
trim_prefix s p = if has_prefix s p then drop_prefix s p else s

abbrev chop_cr : Text → Text
chop_cr [] = []
chop_cr (x ∷ []) = if x == 13 then [] else x ∷ []
chop_cr (x ∷ y ∷ xs) = x ∷ chop_cr (y ∷ xs)

-- bufio.MaxScanTokenSize.
abbrev max_token : ℕ
max_token = 65536

-- The lines without their ends; a last line that is empty is none. A line that fills the buffer stops
-- the scanner: it and what follows are lost.
unfoldable pub chop_lines : List Text → List Text
chop_lines [] = []
chop_lines ([] ∷ []) = []
chop_lines (l ∷ ls) =
    let rest = chop_lines ls in if ltb (length l) max_token then chop_cr l ∷ rest else []

-- The lines that a bufio.Scanner returns.
abbrev pub scan_lines : Text → List Text
scan_lines out = chop_lines (split out 10)
