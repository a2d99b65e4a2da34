-- ===== src/Config/Durations/Fuel.antt =====
-- The length of a text is fuel enough for the loop of `time.ParseDuration`.
use glsync.Base.{
  ℕ, zero, suc, ◌+◌, ◌-◌, ◌*◌, ◌/◌, ◌^◌, ◌≤◌, ◌<◌, Text, [], ◌∷◌, Bool, true, false, not, ◌||◌,
  if◌then◌else◌, Option, none, some, ltb, eqb, is_digit, length, ◌≡◌, refl, ap, arith, Option-cases,
  ◌==◌, ◌⊎◌, inl, inr,
}
use glsync.Config.Durations.{
  unit_of, leading_int, leading_fraction, advance, span_unit, measured, with_unit, after_point,
  after_int, component, components,
}

leading_int-shorter :
    (x v : ℕ) (s rest : Text) → leading_int x s ≡ some (v, rest) → length rest ≤ length s
unfolding leading_int is_digit
leading_int-shorter x v [] rest h = ground arith
leading_int-shorter x v (c ∷ s) rest h =
    ground (arith, leading_int-shorter (x * 10 + (c - b'0')) v s rest)

leading_fraction-shorter :
    (st : Bool × (ℕ × ℕ)) (s : Text) → length (leading_fraction st s).1 ≤ length s
unfolding leading_fraction is_digit
leading_fraction-shorter st [] = omega arith
leading_fraction-shorter st (c ∷ s) =
    ground (arith, leading_fraction-shorter (advance (c - b'0') st) s)

span_unit-length : (s : Text) → length (span_unit s).0 + length (span_unit s).1 ≡ length s
unfolding span_unit is_digit
span_unit-length [] = omega arith
span_unit-length (c ∷ s) = ground (arith, span_unit-length s)

no_unit : (u : Text) (n : ℕ) → unit_of u ≡ some n → 1 ≤ length u
unfolding unit_of ◌==◌
no_unit [] n h = cc
no_unit (c ∷ u) n h = omega arith

unless_none {ℓ} :
    {A : Type ℓ} (b : Bool) (o : Option A) {a : A} → (if b then none else o) ≡ some a → o ≡ some a
unless_none true o h = absurd (cc h)
unless_none false o h = h

if_cases {ℓ} :
    {A : Type ℓ} (b : Bool) (x y : A) {z : A} → (if b then x else y) ≡ z → (x ≡ z) ⊎ (y ≡ z)
if_cases true x y h = inl h
if_cases false x y h = inr h

module _ (scaled : ℕ → ℕ → ℕ → ℕ) where
  measured_rest :
      (v : ℕ) (fraction : ℕ × ℕ) (unit : ℕ) (rest : Text) (n : ℕ) (r : Text)
      → measured scaled v fraction (some unit) rest ≡ some (n, r)
      → r ≡ rest
  unfolding measured
  measured_rest v (f, scale) unit rest n r h =
      let amount = v * unit + (if ltb 0 f then scaled f unit scale else 0) in
      let e = unless_none (ltb (2 ^ 63 / unit) v || ltb (2 ^ 63) amount) (some (amount, rest)) h in
      cc e

  with_unit-shorter :
      (v : ℕ) (fraction : ℕ × ℕ) (s : Text) (n : ℕ) (r : Text)
      → with_unit scaled v fraction (span_unit s) ≡ some (n, r)
      → length r < length s
  unfolding with_unit measured
  with_unit-shorter v fraction s n r h = elim (Option-cases (unit_of (span_unit s).0)) [
    | inl e ↦ absurd (let bad = rw e at h in cc bad)
    | inr (unit, e) ↦
        let same = measured_rest v fraction unit (span_unit s).1 n r (rw e at h) in
        omega (arith, ap length same, span_unit-length s, no_unit _ unit e)
  ]

  after_point-shorter :
      (pre : Bool) (v : ℕ) (s : Text) (n : ℕ) (r : Text)
      → after_point scaled pre v s ≡ some (n, r)
      → length r < length s
  unfolding after_point
  after_point-shorter pre v s n r h =
      let (fraction, rest) = leading_fraction (false, (0, 1)) s in
      let e = unless_none _ (with_unit scaled v fraction (span_unit rest)) h in
      omega
        (arith, with_unit-shorter v fraction rest n r e, leading_fraction-shorter (false, (0, 1)) s)

  after_int-shorter :
      (pre : Bool) (v : ℕ) (s : Text) (n : ℕ) (r : Text)
      → after_int scaled pre v s ≡ some (n, r)
      → length r < length s
  unfolding after_int
  after_int-shorter pre v [] n r h = with_unit-shorter v (0, 1) [] n r (unless_none _ _ h)
  after_int-shorter pre v (c ∷ s) n r h =
      let whole = with_unit scaled v (0, 1) (span_unit (c ∷ s)) in
      elim (if_cases (eqb c b'.') (after_point scaled pre v s) (if not pre then none else whole)
        h) [
          | inl e ↦ let less = after_point-shorter pre v s n r e in omega (arith, less)
          | inr e ↦ with_unit-shorter v (0, 1) (c ∷ s) n r (unless_none (not pre) whole e)
        ]

  component-shorter :
      (s : Text) (n : ℕ) (r : Text) → component scaled s ≡ some (n, r) → length r < length s
  unfolding component
  component-shorter [] n r h = absurd (cc h)
  component-shorter (c ∷ s) n r h =
      let ended = λ (p : ℕ × Text). not (eqb (length p.1) (length (c ∷ s))) in
      let h' =
        unless_none (not (eqb c b'.' || is_digit c))
          (elim (leading_int 0 (c ∷ s)) [
            | none ↦ none
            | some p ↦ after_int scaled (ended p) p.0 p.1
          ])
          h in
      elim (Option-cases (leading_int 0 (c ∷ s))) [
        | inl e ↦ absurd (let bad = rw e at h' in cc bad)
        | inr ((v, rest), e) ↦
            let less = after_int-shorter _ v rest n r (rw e at h') in
            omega (arith, less, leading_int-shorter 0 v (c ∷ s) rest e)
      ]

  -- More fuel than the length of the text changes nothing.
  components_enough :
      (fuel more d : ℕ) (s : Text)
      → length s ≤ fuel
      → length s ≤ more
      → components scaled fuel d s ≡ components scaled more d s
  unfolding components
  components_enough fuel more d [] h k = refl
  components_enough zero more d (c ∷ s) h k = absurd (omega (arith, h))
  components_enough (suc fuel) zero d (c ∷ s) h k = absurd (omega (arith, k))
  components_enough (suc fuel) (suc more) d (c ∷ s) h k =
      elim (Option-cases (component scaled (c ∷ s))) [
        | inl e ↦ ground (arith, e)
        | inr ((v, rest), e) ↦
            let less = component-shorter (c ∷ s) v rest e in
            let same =
              components_enough fuel more (d + v) rest (omega (arith, less, h))
                (omega (arith, less, k)) in
            ground (arith, e, same)
      ]
