-- ===== src/Config/Durations/Printed.antt =====
-- Durations that are written as numbers with units, under `time.ParseDuration` as
-- internal/config/config.go uses it.
use glsync.Base.{
  ℕ, zero, suc, ◌+◌, ◌*◌, ◌/◌, ◌^◌, ◌≤◌, ◌<◌, pos, Text, List, [], ◌∷◌, ◌++◌, true, false, some,
  eqb, in_range, length, length-append, ◌==◌, ◌≡◌, ◌≢◌, refl, ap, ◌∙◌, arith, decimal, IsDigits,
  decimal-IsDigits, digits_value-decimal, decimal-ne-nil, digit-ne,
}
use glsync.Config.Durations.{
  after_int, with_unit, measured, leading_int, span_unit, component, components, parse_duration,
  without_sign, unmarshal_yaml,
}
use glsync.Config.Durations.Pieces.{
  TimeUnit, nanoseconds, microseconds, milliseconds, seconds, minutes, hours, size, name, not-less,
  leading_int-digits, IsStart, span_unit-name, unit_of-name, fits_unit, whole_below, digits-IsStart,
  name-IsEnd, eqb_longer, eqb-ne, and-false, in_range-small, length-ne-zero,
}

abbrev pub total : List (ℕ × TimeUnit) → ℕ
total [] = 0
total ((n, u) ∷ cs) = n * size u + total cs

-- Such as 1h30m.
abbrev pub written : List (ℕ × TimeUnit) → Text
written [] = []
written ((n, u) ∷ cs) = decimal n ++ (name u ++ written cs)

written-IsStart : (cs : List (ℕ × TimeUnit)) → IsStart (written cs)
unfolding IsStart
written-IsStart [] = tt
written-IsStart ((n, u) ∷ cs) =
    digits-IsStart (decimal n) (name u ++ written cs) (decimal-IsDigits n) (decimal-ne-nil n)

module _ (scaled : ℕ → ℕ → ℕ → ℕ) where
  after_int-name :
      (u : TimeUnit) (n : ℕ) (rest : Text)
      → after_int scaled true n (name u ++ rest)
        ≡ with_unit scaled n (0, 1) (span_unit (name u ++ rest))
  unfolding after_int
  after_int-name nanoseconds n rest = refl
  after_int-name microseconds n rest = refl
  after_int-name milliseconds n rest = refl
  after_int-name seconds n rest = refl
  after_int-name minutes n rest = refl
  after_int-name hours n rest = refl

  measured-size :
      (u : TimeUnit) (n : ℕ) (rest : Text)
      → n * size u ≤ 2 ^ 63
      → measured scaled n (0, 1) (some (size u)) rest ≡ some (n * size u, rest)
  unfolding measured
  measured-size u n rest h =
      let whole : n * size u + 0 ≡ n * size u = omega arith in
      rw (not-less (2 ^ 63 / size u) n (fits_unit u n h), whole, not-less (2 ^ 63) (n * size u) h)
        refl

  with_unit-name :
      (u : TimeUnit) (n : ℕ) (rest : Text)
      → n * size u ≤ 2 ^ 63
      → IsStart rest
      → with_unit scaled n (0, 1) (span_unit (name u ++ rest)) ≡ some (n * size u, rest)
  unfolding with_unit
  with_unit-name u n rest h start =
      rw (span_unit-name u rest start, unit_of-name u) (measured-size u n rest h)

  component_lem :
      (s more : Text) (n : ℕ) (u : TimeUnit) (rest : Text)
      → IsDigits s
      → s ≢ []
      → leading_int 0 (s ++ more) ≡ some (n, more)
      → component scaled (s ++ more) ≡ after_int scaled true n more
  unfolding component
  component_lem [] more n u rest d some_digit e = absurd (some_digit refl)
  component_lem (c ∷ s) more n u rest (d, ds) some_digit e =
      let longer =
        eqb_longer (suc (length s)) (length more) (length (c ∷ (s ++ more)))
          (omega (arith, length-append s more)) (λ z. omega (arith, z)) in
      rw (e, longer) (ground (arith, d))

  component-written :
      (n : ℕ) (u : TimeUnit) (rest : Text)
      → n * size u ≤ 2 ^ 63
      → IsStart rest
      → component scaled (decimal n ++ (name u ++ rest)) ≡ some (n * size u, rest)
  component-written n u rest h start =
      let small = fits_unit u n h in
      component_lem (decimal n) (name u ++ rest) n u rest (decimal-IsDigits n) (decimal-ne-nil n) (
        leading_int-digits 0 n (decimal n) (name u ++ rest) (decimal-IsDigits n)
          (digits_value-decimal n) (whole_below u n h) (name-IsEnd u rest))
      ∙ after_int-name u n rest
      ∙ with_unit-name u n rest h start

  components-component :
      (fuel d v : ℕ) (s rest : Text)
      → s ≢ []
      → component scaled s ≡ some (v, rest)
      → d + v ≤ 2 ^ 63
      → components scaled (suc fuel) d s ≡ components scaled fuel (d + v) rest
  unfolding components
  components-component fuel d v [] rest some_char e h = absurd (some_char refl)
  components-component fuel d v (c ∷ s) rest some_char e h =
      ground (arith, e, not-less (2 ^ 63) (d + v) h)

  components-written :
      (fuel d : ℕ) (cs : List (ℕ × TimeUnit))
      → length (written cs) ≤ fuel
      → d + total cs ≤ 2 ^ 63
      → components scaled fuel d (written cs) ≡ some (d + total cs)
  unfolding components
  components-written fuel d [] enough h = let same : d ≡ d + 0 = omega arith in ap some same
  components-written zero d ((n, u) ∷ cs) enough h = absurd (
      length-ne-zero (decimal n) (decimal-ne-nil n)
        (omega (arith, enough, length-append (decimal n) (name u ++ written cs))))
  components-written (suc fuel) d ((n, u) ∷ cs) enough h =
      let rest = written cs in
      let some_char = length-ne-zero (decimal n) (decimal-ne-nil n) in
      let longer = length-append (decimal n) (name u ++ rest) in
      let longer_rest = length-append (name u) rest in
      let same : d + n * size u + total cs ≡ d + (n * size u + total cs) = omega arith in
      components-component fuel d (n * size u) (decimal n ++ (name u ++ rest)) rest
        (λ e. some_char (omega (arith, longer, ap length e)))
        (component-written n u rest (omega (arith, h)) (written-IsStart cs)) (omega (arith, h))
      ∙ components-written fuel (d + n * size u) cs
          (omega (arith, enough, longer, longer_rest, some_char)) (omega (arith, h))
      ∙ ap some same

  parse_unsigned :
      (s : Text)
      → IsStart s
      → 2 ≤ length s
      → parse_duration scaled s ≡ in_range false (components scaled (length s) 0 s)
  unfolding parse_duration without_sign IsStart ◌==◌
  parse_unsigned [] d h = absurd (omega (arith, h))
  parse_unsigned (c ∷ []) d h = absurd (omega (arith, h))
  parse_unsigned (c ∷ e ∷ s) d h =
      let (minus, plus, _) = digit-ne c d in
      rw (eqb-ne c b'-' minus, eqb-ne c b'+' plus, and-false (eqb c b'0')) refl

  length-name : (u : TimeUnit) → 1 ≤ length (name u)
  length-name nanoseconds = omega arith
  length-name microseconds = omega arith
  length-name milliseconds = omega arith
  length-name seconds = omega arith
  length-name minutes = omega arith
  length-name hours = omega arith

  written-long :
      (n : ℕ) (u : TimeUnit) (cs : List (ℕ × TimeUnit)) → 2 ≤ length (written ((n, u) ∷ cs))
  written-long n u cs =
      let some_char = length-ne-zero (decimal n) (decimal-ne-nil n) in
      omega (
        arith,
        some_char,
        length-name u,
        length-append (decimal n) (name u ++ written cs),
        length-append (name u) (written cs),
      )

  -- A duration that is written as one number with a unit or several, such as 1h30m, is read as their sum,
  -- if an int64 of nanoseconds holds the sum, whatever the arithmetic of fractions is.
  pub unmarshal_yaml-written :
      (n : ℕ) (u : TimeUnit) (cs : List (ℕ × TimeUnit))
      → total ((n, u) ∷ cs) < 2 ^ 63
      → unmarshal_yaml scaled (written ((n, u) ∷ cs)) ≡ some (pos (total ((n, u) ∷ cs)))
  unfolding unmarshal_yaml
  unmarshal_yaml-written n u cs h =
      let all = (n, u) ∷ cs in
      let whole : 0 + total all ≡ total all = omega arith in
      let sum = components-written (length (written all)) 0 all (omega arith) (omega (arith, h)) in
      parse_unsigned (written all) (written-IsStart all) (written-long n u cs)
      ∙ ap (in_range false) (sum ∙ ap some whole)
      ∙ in_range-small (total all) h
