-- ===== src/Config/Durations.antt =====
-- `Duration.UnmarshalYAML` of internal/config/config.go, and what it uses of package time. The arithmetic
-- of float64 that places a fraction of a unit is the parameter `scaled`.
pub mod Pieces
pub mod Printed
pub mod Fuel
use glsync.Base.{
  ℕ, zero, suc, ◌+◌, ◌-◌, ◌*◌, ◌/◌, ◌^◌, ℤ, pos, Text, text, List, [], ◌∷◌, Bool, true, false, ◌&&◌,
  ◌||◌, not, Option, none, some, ltb, eqb, is_digit, in_range, length, ◌==◌, if◌then◌else◌,
}

-- Durations are numbers of nanoseconds.
abbrev pub second : ℕ
second = 1000000000

abbrev pub minute : ℕ
minute = 60 * second

-- `unitMap`
unfoldable pub unit_of : Text → Option ℕ
unit_of u =
    if u == text "ns"
    then some 1
    else if u == text "us" || u == text "µs" || u == text "μs"
    then some 1000
    else if u == text "ms"
    then some 1000000
    else if u == text "s"
    then some second
    else if u == text "m"
    then some minute
    else if u == text "h"
    then some (60 * minute)
    else none

-- `leadingInt`: the number in front and what follows it; `none` is an overflow.
unfoldable pub leading_int : ℕ → Text → Option (ℕ × Text)
unfolding is_digit
leading_int x [] = some (x, [])
leading_int x (c ∷ s) =
    let next = x * 10 + (c - b'0') in
    let rest = leading_int next s in
    if not (is_digit c)
    then some (x, c ∷ s)
    else if ltb (2 ^ 63 / 10) x || ltb (2 ^ 63) next
    then none
    else rest

-- One more digit of a fraction, unless the number before overflowed.
advance : ℕ → Bool × (ℕ × ℕ) → Bool × (ℕ × ℕ)
advance d (true, (x, scale)) = (true, (x, scale))
advance d (false, (x, scale)) =
    if ltb ((2 ^ 63 - 1) / 10) x || ltb (2 ^ 63) (x * 10 + d)
    then (true, (x, scale))
    else (false, (x * 10 + d, scale * 10))

-- `leadingFraction`
leading_fraction : Bool × (ℕ × ℕ) → Text → (ℕ × ℕ) × Text
unfolding advance is_digit
leading_fraction (_, read) [] = (read, [])
leading_fraction (overflow, read) (c ∷ s) =
    let rest = leading_fraction (advance (c - b'0') (overflow, read)) s in
    if is_digit c then rest else (read, c ∷ s)

-- The unit ends in front of a digit or a point.
unfoldable pub span_unit : Text → Text × Text
unfolding is_digit
span_unit [] = ([], [])
span_unit (c ∷ s) =
    let (u, rest) = span_unit s in if eqb c b'.' || is_digit c then ([], c ∷ s) else (c ∷ u, rest)

module _ (scaled : ℕ → ℕ → ℕ → ℕ) where
  -- `v` whole units and the fraction `f / scale` of one.
  measured : ℕ → ℕ × ℕ → Option ℕ → Text → Option (ℕ × Text)
  measured v (f, scale) none rest = none
  measured v (f, scale) (some unit) rest =
      let total = v * unit + (if ltb 0 f then scaled f unit scale else 0) in
      if ltb (2 ^ 63 / unit) v || ltb (2 ^ 63) total then none else some (total, rest)

  with_unit : ℕ → ℕ × ℕ → Text × Text → Option (ℕ × Text)
  unfolding measured unit_of
  with_unit v fraction (u, rest) = measured v fraction (unit_of u) rest

  after_point : Bool → ℕ → Text → Option (ℕ × Text)
  unfolding leading_fraction with_unit span_unit
  after_point pre v s =
      let (fraction, rest) = leading_fraction (false, (0, 1)) s in
      let post = not (eqb (length rest) (length s)) in
      if not pre && not post then none else with_unit v fraction (span_unit rest)

  after_int : Bool → ℕ → Text → Option (ℕ × Text)
  unfolding after_point with_unit span_unit
  after_int pre v [] = if not pre then none else with_unit v (0, 1) (span_unit [])
  after_int pre v (c ∷ s) =
      if eqb c b'.'
      then after_point pre v s
      else if not pre
      then none
      else with_unit v (0, 1) (span_unit (c ∷ s))

  -- One round of the loop of `time.ParseDuration`: nanoseconds, and what follows.
  unfoldable pub component : Text → Option (ℕ × Text)
  unfolding leading_int after_int is_digit
  component [] = none
  component (c ∷ s) =
      if not (eqb c b'.' || is_digit c) then none else elim (leading_int 0 (c ∷ s)) [
        | none ↦ none
        | some (v, rest) ↦ after_int (not (eqb (length rest) (length (c ∷ s)))) v rest
      ]

  -- The rounds; each takes a character or more, so that the length of the text is fuel enough.
  unfoldable pub components : ℕ → ℕ → Text → Option ℕ
  unfolding component
  components fuel d [] = some d
  components zero d (c ∷ s) = none
  components (suc fuel) d (c ∷ s) = elim (component (c ∷ s)) [
    | none ↦ none
    | some (v, rest) ↦
        let sum = components fuel (d + v) rest in if ltb (2 ^ 63) (d + v) then none else sum
  ]

  unfoldable pub without_sign : Bool → Text → Option ℤ
  unfolding components in_range
  without_sign negative s =
      if s == text "0"
      then some (pos 0)
      else if s == text ""
      then none
      else in_range negative (components (length s) 0 s)

  -- `time.ParseDuration`; `none` is an error.
  unfoldable pub parse_duration : Text → Option ℤ
  unfolding without_sign
  parse_duration [] = none
  parse_duration (c ∷ s) =
      if eqb c b'-'
      then without_sign true s
      else if eqb c b'+'
      then without_sign false s
      else without_sign false (c ∷ s)

  -- The scalar of a YAML node as a duration.
  unfoldable pub unmarshal_yaml : Text → Option ℤ
  unfolding parse_duration
  unmarshal_yaml value = parse_duration value
