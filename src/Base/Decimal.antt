-- ===== src/Base/Decimal.antt =====
-- What `%d` prints: the digits of a number, their value, and the characters that do not occur.
use Prim.Native.Nat.{ℕ, zero, suc, ◌+◌, ◌-◌, ◌*◌, ◌/◌, ◌%◌, ◌^◌, ◌<◌}
use mathlib.Core.Path.{◌≡◌, refl, ap, ◌∙◌}
use mathlib.Core.Logic.{◌≢◌, inl, inr}
use mathlib.Core.Bool.{true, false}
use mathlib.Core.Option.{some}
use mathlib.Core.List.{[], ◌∷◌}
use native.Mathlib.Omega.{arith}
use glsync.Base.Tests.{ltb, Bool-cases}
use glsync.Base.Lists.{All}
use glsync.Base.Texts.{Text}
use glsync.Base.Numbers.{
  ℤ, pos, negsuc, digits, decimal, print_int, is_digit, digits_value, in_range, atoi,
}

abbrev pub IsDigits : Text → Type 0
IsDigits = All (λ c. is_digit c ≡ true)

digit-IsDigit : (d : ℕ) → d < 10 → is_digit (b'0' + d) ≡ true
unfolding is_digit
digit-IsDigit d h = ground arith

digits_value-digit :
    (n d : ℕ) (out : Text)
    → d < 10
    → digits_value n ((b'0' + d) ∷ out) ≡ digits_value (n * 10 + d) out
unfolding digits_value
digits_value-digit n d out h =
    let shift : n * 10 + (b'0' + d - b'0') ≡ n * 10 + d = omega arith in
    rw (digit-IsDigit d h, shift) refl

-- With fuel above the number, its value is read back in front of what follows.
digits_value-digits :
    (fuel n : ℕ) (out : Text) → n < fuel → digits_value 0 (digits fuel n out) ≡ digits_value n out
unfolding digits
digits_value-digits zero n out h = absurd (omega arith)
digits_value-digits (suc fuel) n out h = elim (Bool-cases (ltb n 10)) [
  | inl small ↦ rw small (
      digits_value-digit 0 n out (ground arith)
      ∙ ap (λ m. digits_value m out) (let z : 0 * 10 + n ≡ n = omega arith in z))
  | inr large ↦
      let whole : n / 10 * 10 + n % 10 ≡ n = omega arith in
      rw large (
        digits_value-digits fuel (n / 10) ((b'0' + n % 10) ∷ out) (ground arith)
        ∙ digits_value-digit (n / 10) (n % 10) out (omega arith)
        ∙ ap (λ m. digits_value m out) whole)
]

digits-IsDigits : (fuel n : ℕ) (out : Text) → IsDigits out → IsDigits (digits fuel n out)
unfolding digits
digits-IsDigits zero n out h = h
digits-IsDigits (suc fuel) n out h = elim (Bool-cases (ltb n 10)) [
  | inl small ↦ rw small (digit-IsDigit n (ground arith), h)
  | inr large ↦ rw large (digits-IsDigits fuel (n / 10) _ (digit-IsDigit (n % 10) (omega arith), h))
]

pub decimal-IsDigits : (n : ℕ) → IsDigits (decimal n)
unfolding decimal
decimal-IsDigits n = digits-IsDigits (suc n) n [] tt

pub digits_value-decimal : (n : ℕ) → digits_value 0 (decimal n) ≡ some n
unfolding decimal digits_value
digits_value-decimal n = digits_value-digits (suc n) n [] (omega arith)

-- No digit is a sign or a colon.
pub digit-ne : (c : ℕ) → is_digit c ≡ true → (c ≢ b'-') × (c ≢ b'+') × (c ≢ b':')
unfolding is_digit
digit-ne c h = (λ e. ground arith, λ e. ground arith, λ e. ground arith)

atoi-digits :
    (s : Text) (n : ℕ)
    → IsDigits s
    → s ≢ []
    → digits_value 0 s ≡ some n
    → atoi s ≡ in_range false (some n)
unfolding atoi
atoi-digits [] n h some_digit v = absurd (some_digit refl)
atoi-digits (c ∷ []) n h some_digit v = ap (in_range false) v
atoi-digits (c ∷ d ∷ s) n (h, hs) some_digit v = ground (arith, digit-ne c h, v)

digits-ne-nil : (fuel n c : ℕ) (out : Text) → digits fuel n (c ∷ out) ≢ []
unfolding digits
digits-ne-nil zero n c out = λ e. cc
digits-ne-nil (suc fuel) n c out = elim (Bool-cases (ltb n 10)) [
  | inl small ↦ rw small (λ e. cc)
  | inr large ↦ rw large (digits-ne-nil fuel (n / 10) (b'0' + n % 10) (c ∷ out))
]

pub decimal-ne-nil : (n : ℕ) → decimal n ≢ []
unfolding decimal digits
decimal-ne-nil n = elim (Bool-cases (ltb n 10)) [
  | inl small ↦ rw small (λ e. cc)
  | inr large ↦ rw large (digits-ne-nil n (n / 10) (b'0' + n % 10) [])
]

atoi-minus :
    (s : Text) (n : ℕ)
    → s ≢ []
    → digits_value 0 s ≡ some n
    → atoi (b'-' ∷ s) ≡ in_range true (some n)
unfolding atoi
atoi-minus [] n some_digit v = absurd (some_digit refl)
atoi-minus (d ∷ s) n some_digit v = ap (in_range true) v

-- The integers that Go's `int` holds.
abbrev pub IsInt : ℤ → Type 0
IsInt (pos n) = n < 2 ^ 63
IsInt (negsuc n) = n < 2 ^ 63

-- What `Sprintf("%d", i)` prints, `Atoi` reads back.
pub atoi-print_int : (i : ℤ) → IsInt i → atoi (print_int i) ≡ some i
unfolding print_int in_range
atoi-print_int (pos n) h =
    atoi-digits (decimal n) n (decimal-IsDigits n) (decimal-ne-nil n) (digits_value-decimal n)
    ∙ ground arith
atoi-print_int (negsuc n) h =
    atoi-minus (decimal (suc n)) (suc n) (decimal-ne-nil (suc n)) (digits_value-decimal (suc n))
    ∙ ground arith
