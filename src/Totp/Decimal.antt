-- ===== src/Totp/Decimal.antt =====
-- Decimal numbers are read back as they were written.
use pfortainer.Base.{
  ℕ, zero, suc, ◌+◌, ◌-◌, ◌*◌, ◌/◌, ◌%◌, ◌^◌, ◌<◌, ◌≡◌, refl, ap, ◌∙◌, inl, inr, true, false, some,
  [], ◌∷◌, ◌++◌, arith, Text, text_eq, decimal, Lacks, All, All-append, ltb, if◌then◌else◌,
  Bool-cases,
}
use pfortainer.Base.{digits}
use pfortainer.Http.{valid_cookie_byte}
use pfortainer.Session.Signature.{IsCookieSafe}
use pfortainer.Totp.{is_digit, parse_digits, strip_plus, parse_int}

parse-append :
    (acc : ℕ) (a : Text) (c v : ℕ)
    → parse_digits acc a ≡ some v
    → is_digit c ≡ true
    → parse_digits acc (a ++ c ∷ []) ≡ some (v * 10 + (c - 48))
unfolding parse_digits
parse-append acc [] c v h d = ground arith
parse-append acc (x ∷ a) c v h d = ground (arith, parse-append (acc * 10 + (x - 48)) a c v)

parse_digits-digits : (fuel n : ℕ) → n < fuel → parse_digits 0 (digits fuel n) ≡ some n
unfolding digits parse_digits
parse_digits-digits zero n h = absurd (omega arith)
parse_digits-digits (suc fuel) n h = elim (Bool-cases (ltb n 10)) [
  | inl e ↦ rw e (single n (ground arith))
  | inr e ↦ rw e (
      parse-append 0 (digits fuel (n / 10)) (48 + n % 10) (n / 10)
        (parse_digits-digits fuel (n / 10) (smaller n fuel h (ground arith))) (last_digit n)
      ∙ ap some (rebuilt n))
]
  where
    single : (n : ℕ) → n < 10 → parse_digits 0 ((48 + n % 10) ∷ []) ≡ some n
    single n h = ground arith

    smaller : (n fuel : ℕ) → n < suc fuel → ¬ (n < 10) → n / 10 < fuel
    smaller n fuel h k = omega arith

    last_digit : (n : ℕ) → is_digit (48 + n % 10) ≡ true
    last_digit n = ground arith

    rebuilt : (n : ℕ) → n / 10 * 10 + (48 + n % 10 - 48) ≡ n
    rebuilt n = omega arith

digits-AllDigits : (fuel n : ℕ) → All (λ c. is_digit c ≡ true) (digits fuel n)
unfolding digits
digits-AllDigits zero n = tt
digits-AllDigits (suc fuel) n = elim (Bool-cases (ltb n 10)) [
  | inl e ↦ rw e (ground arith, tt)
  | inr e ↦ rw e (
      All-append (λ c. is_digit c ≡ true) (digits fuel (n / 10)) ((48 + n % 10) ∷ [])
        (digits-AllDigits fuel (n / 10)) (ground arith, tt))
]

strip_plus-digits : (s : Text) → All (λ c. is_digit c ≡ true) s → strip_plus s ≡ s
strip_plus-digits [] h = refl
strip_plus-digits (c ∷ s) h = ground (arith, h.0)

append-nonempty : (a : Text) (c : ℕ) → text_eq (a ++ c ∷ []) [] ≡ false
unfolding text_eq
append-nonempty [] c = refl
append-nonempty (x ∷ a) c = refl

decimal-nonempty : (n : ℕ) → text_eq (decimal n) [] ≡ false
unfolding decimal digits
decimal-nonempty n = append-nonempty (if ltb n 10 then [] else digits n (n / 10)) (48 + n % 10)

parse_decimal : (n : ℕ) → parse_digits 0 (decimal n) ≡ some n
unfolding decimal
parse_decimal n = parse_digits-digits (suc n) n (omega arith)

decimal-AllDigits : (n : ℕ) → All (λ c. is_digit c ≡ true) (decimal n)
unfolding decimal
decimal-AllDigits n = digits-AllDigits (suc n) n

-- Every number below 2^63 that %d writes is what ParseInt reads.
pub parse_int-decimal : (n : ℕ) → n < 2 ^ 63 → parse_int (decimal n) ≡ some n
unfolding parse_int
parse_int-decimal n h =
    rw
      (
        parse_int,
        strip_plus-digits (decimal n) (decimal-AllDigits n),
        decimal-nonempty n,
        parse_decimal n,
      )
      (ground arith)

digits-Lacks : (c : ℕ) (s : Text) → 57 < c → All (λ b. is_digit b ≡ true) s → Lacks c s
digits-Lacks c [] h k = tt
digits-Lacks c (b ∷ s) h k = (ground (arith, k.0), digits-Lacks c s h k.1)

pub decimal-Lacks : (c n : ℕ) → 57 < c → Lacks c (decimal n)
decimal-Lacks c n h = digits-Lacks c (decimal n) h (decimal-AllDigits n)

digits-safe : (s : Text) → All (λ b. is_digit b ≡ true) s → IsCookieSafe s
unfolding valid_cookie_byte
digits-safe [] h = tt
digits-safe (b ∷ s) h = (ground (arith, h.0), digits-safe s h.1)

pub decimal-IsCookieSafe : (n : ℕ) → IsCookieSafe (decimal n)
decimal-IsCookieSafe n = digits-safe (decimal n) (decimal-AllDigits n)
