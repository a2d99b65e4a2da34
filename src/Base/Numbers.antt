-- ===== src/Base/Numbers.antt =====
-- Signed integers (Go's `int`), and the decimal print of the verb `%d`.
use Prim.Native.Nat.{ℕ, zero, suc, ◌+◌, ◌-◌, ◌*◌, ◌/◌, ◌%◌, ◌^◌, ◌≤◌}
use Prim.Native.Nat.pow
use mathlib.Core.Path.{◌≡◌}
use native.Mathlib.Omega.{arith}
use mathlib.Core.Bool.{Bool, true, false, ◌&&◌}
use mathlib.Core.Option.{Option, none, some}
use mathlib.Core.List.{[], ◌∷◌}
use glsync.Base.Tests.{ltb, leb, eqb, if◌then◌else◌}
use glsync.Base.Texts.{Text}

-- `negsuc n` is -(n + 1).
pub data ℤ : Type 0 where
  pos : ℕ → ℤ
  negsuc : ℕ → ℤ

-- The digits of `n` in front of `out`, on fuel that `n` itself bounds.
unfoldable pub digits : ℕ → ℕ → Text → Text
digits zero n out = out
digits (suc fuel) n out =
    let more = digits fuel (n / 10) ((b'0' + n % 10) ∷ out) in
    if ltb n 10 then (b'0' + n) ∷ out else more

unfoldable pub decimal : ℕ → Text
unfolding digits
decimal n = digits (suc n) n []

-- `fmt.Sprintf("%d", i)`
unfoldable pub print_int : ℤ → Text
unfolding decimal
print_int (pos n) = decimal n
print_int (negsuc n) = b'-' ∷ decimal (suc n)

unfoldable pub is_digit : ℕ → Bool
is_digit c = leb b'0' c && leb c b'9'

-- The number that a text of digits stands for, after `n`; `none` if another character stands there.
unfoldable pub digits_value : ℕ → Text → Option ℕ
unfolding is_digit
digits_value n [] = some n
digits_value n (c ∷ s) =
    let rest = digits_value (n * 10 + (c - b'0')) s in if is_digit c then rest else none

-- The range of Go's `int`
unfoldable pub in_range : Bool → Option ℕ → Option ℤ
in_range negative none = none
in_range false (some n) = if ltb n (2 ^ 63) then some (pos n) else none
in_range true (some zero) = some (pos zero)
in_range true (some (suc n)) = if ltb n (2 ^ 63) then some (negsuc n) else none

-- `strconv.Atoi`; `none` is an error.
unfoldable pub atoi : Text → Option ℤ
unfolding digits_value in_range
atoi [] = none
atoi (c ∷ []) = in_range false (digits_value 0 (c ∷ []))
atoi (c ∷ d ∷ s) =
    if eqb c b'+'
    then in_range false (digits_value 0 (d ∷ s))
    else if eqb c b'-'
    then in_range true (digits_value 0 (d ∷ s))
    else in_range false (digits_value 0 (c ∷ d ∷ s))

-- A finite float64: a mantissa times a power of two, with its sign.
pub record Float64 : Type 0 where
  pub negative : Bool
  pub mantissa : ℕ
  pub shift_up : ℕ
  pub shift_down : ℕ

abbrev pub one : Float64
one = record { negative = false; mantissa = 1; shift_up = 0; shift_down = 0 }

-- A whole number as a float64, up to 2^53.
unfoldable pub to_float : ℤ → Float64
to_float (pos n) = record { negative = false; mantissa = n; shift_up = 0; shift_down = 0 }
to_float (negsuc n) = record { negative = true; mantissa = suc n; shift_up = 0; shift_down = 0 }

-- `t.Add(d)`, for times in nanoseconds since January 1 of year 1; earlier times do not occur.
abbrev pub add_duration : ℕ → ℤ → ℕ
add_duration t (pos d) = t + d
add_duration t (negsuc d) = t - suc d

-- `-d` for an int64: the least one is its own negative.
abbrev pub negate : ℤ → ℤ
negate (pos zero) = pos zero
negate (pos (suc n)) = negsuc n
negate (negsuc n) = if eqb n (2 ^ 63 - 1) then negsuc n else pos (suc n)

pub pow-step : (n : ℕ) → 2 ^ suc n ≡ 2 * 2 ^ n
pow-step n = omega (arith, pow.suc 2 n)

pub pow_pos : (n : ℕ) → 1 ≤ 2 ^ n
pow_pos zero = omega arith
pow_pos (suc n) = omega (arith, pow-step n, pow_pos n)
