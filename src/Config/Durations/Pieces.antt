-- ===== src/Config/Durations/Pieces.antt =====
-- The numbers and the units of a duration that is read as internal/config/config.go reads it.
use glsync.Base.{
  ℕ, ◌+◌, ◌-◌, ◌*◌, ◌/◌, ◌^◌, ◌≤◌, ◌<◌, pos, Text, text, [], ◌∷◌, ◌++◌, Bool, true, false, ◌&&◌,
  some, ltb, eqb, is_digit, in_range, length, ◌==◌, ◌≡◌, ◌≢◌, refl, arith, digits_value, IsDigits,
}
use glsync.Config.Durations.{second, minute, unit_of, leading_int, span_unit}

pub data TimeUnit : Type 0 where
  nanoseconds microseconds milliseconds seconds minutes hours : TimeUnit

abbrev pub size : TimeUnit → ℕ
size nanoseconds = 1
size microseconds = 1000
size milliseconds = 1000000
size seconds = second
size minutes = minute
size hours = 60 * minute

abbrev pub name : TimeUnit → Text
name nanoseconds = text "ns"
name microseconds = text "us"
name milliseconds = text "ms"
name seconds = text "s"
name minutes = text "m"
name hours = text "h"

-- What follows a number is empty or starts with something else than a digit.
unfoldable pub IsEnd : Text → Type 0
IsEnd [] = Unit
IsEnd (c ∷ s) = is_digit c ≡ false

pub digits_value-le : (x n : ℕ) (ds : Text) → digits_value x ds ≡ some n → x ≤ n
unfolding digits_value
digits_value-le x n [] h = ground arith
digits_value-le x n (c ∷ ds) h =
    let later = digits_value-le (x * 10 + (c - b'0')) n ds (ground arith) in omega (arith, later)

pub leading_int-end : (x : ℕ) (rest : Text) → IsEnd rest → leading_int x rest ≡ some (x, rest)
unfolding leading_int IsEnd
leading_int-end x [] h = refl
leading_int-end x (c ∷ s) h = rw h refl

pub not-less : (a b : ℕ) → b ≤ a → ltb a b ≡ false
not-less a b h = ground arith

pub leading_int-digits :
    (x n : ℕ) (ds rest : Text)
    → IsDigits ds
    → digits_value x ds ≡ some n
    → n ≤ 2 ^ 63
    → IsEnd rest
    → leading_int x (ds ++ rest) ≡ some (n, rest)
unfolding leading_int digits_value
leading_int-digits x n [] rest d v small e =
    let same : x ≡ n = ground arith in rw same (leading_int-end n rest e)
leading_int-digits x n (c ∷ ds) rest (d, hs) v small e =
    let later : digits_value (x * 10 + (c - b'0')) ds ≡ some n = ground (arith, d) in
    let le = digits_value-le (x * 10 + (c - b'0')) n ds later in
    let fits = not-less (2 ^ 63 / 10) x (omega (arith, le, small)) in
    let fits_next = not-less (2 ^ 63) (x * 10 + (c - b'0')) (omega (arith, le, small)) in
    rw (d, fits, fits_next) (leading_int-digits (x * 10 + (c - b'0')) n ds rest hs later small e)

-- What follows a unit is empty or starts with a digit.
unfoldable pub IsStart : Text → Type 0
IsStart [] = Unit
IsStart (c ∷ s) = is_digit c ≡ true

pub span_unit-start : (rest : Text) → IsStart rest → span_unit rest ≡ ([], rest)
unfolding span_unit IsStart
span_unit-start [] h = refl
span_unit-start (c ∷ s) h = ground arith

pub span_unit-name :
    (u : TimeUnit) (rest : Text) → IsStart rest → span_unit (name u ++ rest) ≡ (name u, rest)
unfolding span_unit is_digit
span_unit-name nanoseconds rest h = rw (span_unit-start rest h) refl
span_unit-name microseconds rest h = rw (span_unit-start rest h) refl
span_unit-name milliseconds rest h = rw (span_unit-start rest h) refl
span_unit-name seconds rest h = rw (span_unit-start rest h) refl
span_unit-name minutes rest h = rw (span_unit-start rest h) refl
span_unit-name hours rest h = rw (span_unit-start rest h) refl

pub unit_of-name : (u : TimeUnit) → unit_of (name u) ≡ some (size u)
unfolding unit_of ◌==◌
unit_of-name nanoseconds = refl
unit_of-name microseconds = refl
unit_of-name milliseconds = refl
unit_of-name seconds = refl
unit_of-name minutes = refl
unit_of-name hours = refl

-- No number of units overflows that fits in nanoseconds.
pub fits_unit : (u : TimeUnit) (n : ℕ) → n * size u ≤ 2 ^ 63 → n ≤ 2 ^ 63 / size u
fits_unit nanoseconds n h = omega (arith, h)
fits_unit microseconds n h = omega (arith, h)
fits_unit milliseconds n h = omega (arith, h)
fits_unit seconds n h = omega (arith, h)
fits_unit minutes n h = omega (arith, h)
fits_unit hours n h = omega (arith, h)

pub whole_below : (u : TimeUnit) (n : ℕ) → n * size u ≤ 2 ^ 63 → n ≤ 2 ^ 63
whole_below nanoseconds n h = omega (arith, h)
whole_below microseconds n h = omega (arith, h)
whole_below milliseconds n h = omega (arith, h)
whole_below seconds n h = omega (arith, h)
whole_below minutes n h = omega (arith, h)
whole_below hours n h = omega (arith, h)

pub digits-IsStart : (s rest : Text) → IsDigits s → s ≢ [] → IsStart (s ++ rest)
unfolding IsStart
digits-IsStart [] rest d h = absurd (h refl)
digits-IsStart (c ∷ s) rest d h = d.0

pub name-IsEnd : (u : TimeUnit) (rest : Text) → IsEnd (name u ++ rest)
unfolding IsEnd is_digit
name-IsEnd nanoseconds rest = refl
name-IsEnd microseconds rest = refl
name-IsEnd milliseconds rest = refl
name-IsEnd seconds rest = refl
name-IsEnd minutes rest = refl
name-IsEnd hours rest = refl

pub eqb_longer : (a b c : ℕ) → c ≡ a + b → a ≢ 0 → eqb b c ≡ false
eqb_longer a b c e h = ground arith

pub eqb-ne : (a b : ℕ) → a ≢ b → eqb a b ≡ false
eqb-ne a b h = ground arith

pub and-false : (b : Bool) → (b && false) ≡ false
and-false true = refl
and-false false = refl

pub in_range-small : (n : ℕ) → n < 2 ^ 63 → in_range false (some n) ≡ some (pos n)
unfolding in_range
in_range-small n h = ground (arith, h)

pub length-ne-zero : (s : Text) → s ≢ [] → length s ≢ 0
length-ne-zero [] h = absurd (h refl)
length-ne-zero (c ∷ s) h = λ e. omega (arith, e)
