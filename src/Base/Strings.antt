-- ===== src/Base/Strings.antt =====
-- Go strings as lists of bytes, with the functions of package strings that the program calls.
use Prim.Native.Nat.{ℕ, zero, suc, ◌+◌, ◌/◌, ◌%◌}
use Prim.Native.Char.{code}
use Prim.Native.String.{String}
use mathlib.Core.Bool.{Bool, true, false, ◌&&◌, ◌||◌}
use mathlib.Core.List.{List, [], ◌∷◌, ◌++◌, reverse}
use mathlib.Core.Option.{Option, none, some}
use pfortainer.Base.Tests.{leb, ltb, ◌==◌, if◌then◌else◌}

abbrev pub Text : Type 0
Text = List ℕ

-- The code points of a literal: its bytes, where it is ASCII.
abbrev pub codes : String → Text
codes String.[] = []
codes (String.◌∷◌ c s) = code c ∷ codes s

unfoldable pub text_eq : Text → Text → Bool
text_eq [] [] = true
text_eq (x ∷ xs) (y ∷ ys) = x == y && text_eq xs ys
text_eq _ _ = false

-- strings.HasPrefix, the text first.
unfoldable pub has_prefix : Text → Text → Bool
has_prefix xs [] = true
has_prefix [] (p ∷ ps) = false
has_prefix (x ∷ xs) (p ∷ ps) = x == p && has_prefix xs ps

-- strings.Contains.
unfoldable pub contains : Text → Text → Bool
unfolding has_prefix
contains [] p = has_prefix [] p
contains (x ∷ xs) p = has_prefix (x ∷ xs) p || contains xs p

unfoldable pub last_index : Text → ℕ → Option ℕ
last_index [] c = none
last_index (x ∷ xs) c = elim (last_index xs c) [
  | some i ↦ some (suc i)
  | none ↦ if x == c then some 0 else none
]

-- strings.Cut at one byte: before, after.
unfoldable pub cut : Text → ℕ → Option (Text × Text)
cut [] c = none
cut (x ∷ xs) c =
    if x == c
    then some ([], xs)
    else elim (cut xs c) [ none ↦ none | some (a, b) ↦ some (x ∷ a, b) ]

abbrev pub push_head : ℕ → List Text → List Text
push_head c [] = (c ∷ []) ∷ []
push_head c (w ∷ ws) = (c ∷ w) ∷ ws

-- strings.Split at one byte.
unfoldable pub split : Text → ℕ → List Text
split [] c = [] ∷ []
split (x ∷ xs) c = let rest = split xs c in if x == c then [] ∷ rest else push_head x rest

-- unicode.IsSpace, for bytes below 128.
abbrev pub is_space : ℕ → Bool
is_space c = c == 32 || (leb 9 c && leb c 13)

unfoldable pub trim_left : Text → Text
trim_left [] = []
trim_left (x ∷ xs) = let rest = trim_left xs in if is_space x then rest else x ∷ xs

-- strings.TrimSpace.
unfoldable pub trim : Text → Text
unfolding trim_left
trim xs = reverse (trim_left (reverse (trim_left xs)))

unfoldable pub elem_text : Text → List Text → Bool
unfolding text_eq
elem_text x [] = false
elem_text x (y ∷ ys) = text_eq x y || elem_text x ys

abbrev hex_digit : ℕ → ℕ
hex_digit n = if ltb n 10 then 48 + n else 87 + n

-- hex.EncodeToString.
unfoldable pub hex : List ℕ → Text
hex [] = []
hex (b ∷ bs) = hex_digit (b / 16 % 16) ∷ hex_digit (b % 16) ∷ hex bs

-- The letter behind the backslash, for a character that has one.
abbrev escape_letter : ℕ → Option ℕ
escape_letter c =
    if c == b'"' || c == b'\\'
    then some c
    else if c == 7
    then some b'a'
    else if c == 8
    then some b'b'
    else if c == 12
    then some b'f'
    else if c == 10
    then some b'n'
    else if c == 13
    then some b'r'
    else if c == 9
    then some b't'
    else if c == 11
    then some b'v'
    else none

abbrev escaped : ℕ → Text
escaped c = elim (escape_letter c) [
  | some l ↦ b'\\' ∷ l ∷ []
  | none ↦
      (if ltb c 32 || c == 127
        then b'\\' ∷ b'x' ∷ hex_digit (c / 16 % 16) ∷ hex_digit (c % 16) ∷ []
        else c ∷ [])
]

unfoldable escape : Text → Text
escape [] = []
escape (c ∷ s) = escaped c ++ escape s

-- The verb %q, for a text whose characters beyond ASCII are printable.
unfoldable pub quote : Text → Text
unfolding escape
quote s = b'"' ∷ escape s ++ b'"' ∷ []

unfoldable pub digits : ℕ → ℕ → Text
digits zero n = []
digits (suc fuel) n =
    let more = digits fuel (n / 10) in (if ltb n 10 then [] else more) ++ (48 + n % 10) ∷ []

-- The verb %d: n + 1 steps are enough for the digits of n.
unfoldable pub decimal : ℕ → Text
unfolding digits
decimal n = digits (suc n) n
