-- ===== src/Workflow/DueDate/Strategy.antt =====
-- The strategies of `CalculateDueDate` of internal/workflow/duedate.go.
use native.Mathlib.Nat.{div-mul-le_self, div-lt_iff_lt-mul}
use glsync.Base.{
  pow_pos, zero, suc, false, true, leb, ◌^◌, ◌/◌, Float64, ℕ, ◌+◌, ◌*◌, ◌<◌, ◌≤◌, ◌≡◌, ◌≢◌, ◌↔◌,
  ◌⊎◌, refl, Text, text, arith, Bool-cases, inl, inr, ◌==◌, ==_iff, pos,
}
use glsync.Errors.{DueDateError, unknown_strategy}
use glsync.Workflow.DueDate.{
  Zone, utc, day, day_of, Result, ok, err, ◌>>=◌, normal, weekday_of, to_int, negate, at_least_one,
  add_days, next_weekday, parse_weekday, calculate_due_date,
}
use glsync.Workflow.DueDate.Sprint.{IsNext, next_weekday-utc-IsNext}

weekday_of-lt : (s name : Text) (wd : ℕ) → weekday_of s name ≡ ok wd → wd < 7
unfolding weekday_of
weekday_of-lt s name wd h = ground arith

parse_weekday-lt : (s : Text) (wd : ℕ) → parse_weekday s ≡ ok wd → wd < 7
parse_weekday-lt s wd h = weekday_of-lt s (normal s) wd (unfold parse_weekday in h)

-- The whole part of a float64's absolute value.
abbrev pub IsWhole : Float64 → ℕ → Type 0
IsWhole f n =
    (n * 2 ^ f.shift_down ≤ f.mantissa * 2 ^ f.shift_up)
    × (f.mantissa * 2 ^ f.shift_up < (n + 1) * 2 ^ f.shift_down)

-- The days that story points stand for: the whole ones, and one day for less than one point.
pub data IsDays (points : Float64) (days : ℕ) : Type 0 where
  whole_points : points.negative ≡ false → IsWhole points days → 1 ≤ days → IsDays points days
  no_whole_point : IsWhole points 0 → days ≡ 1 → IsDays points days
  negative_points : points.negative ≡ true → days ≡ 1 → IsDays points days

-- What each strategy promises of a due date `t`, in UTC.
pub data IsDue (strategy weekday_name : Text) (points : Float64) (now t : ℕ) : Type 0 where
  sprint_end :
      (wd : ℕ)
      → strategy ≡ text "sprint_end"
      → parse_weekday weekday_name ≡ ok wd
      → IsNext utc now wd t
      → IsDue strategy weekday_name points now t
  story_points :
      (days : ℕ)
      → strategy ≡ text "story_points"
      → IsDays points days
      → day_of utc t ≡ day_of utc now + days
      → IsDue strategy weekday_name points now t

div-IsWhole : (f : Float64) → IsWhole f (f.mantissa * 2 ^ f.shift_up / 2 ^ f.shift_down)
div-IsWhole f =
    let top = f.mantissa * 2 ^ f.shift_up in
    let bottom = 2 ^ f.shift_down in
    (div-mul-le_self top bottom, (div-lt_iff_lt-mul (pow_pos f.shift_down)).0 (omega arith))

at_least_one-IsDays :
    (f : Float64) (n : ℕ) → f.negative ≡ false → IsWhole f n → IsDays f (at_least_one (pos n))
unfolding at_least_one
at_least_one-IsDays f zero positive w = no_whole_point w refl
at_least_one-IsDays f (suc n) positive w = ground (arith, whole_points positive w (omega arith))

at_least_one-negate : (n : ℕ) → at_least_one (negate n) ≡ 1
unfolding at_least_one negate
at_least_one-negate zero = refl
at_least_one-negate (suc n) = refl

-- Points that an int64 holds.
abbrev pub IsSmall : Float64 → Type 0
IsSmall f = f.mantissa * 2 ^ f.shift_up < 2 ^ 40 * 2 ^ f.shift_down

to_int-IsDays : (f : Float64) → IsSmall f → IsDays f (at_least_one (to_int f))
unfolding to_int
to_int-IsDays f small =
    let n = f.mantissa * 2 ^ f.shift_up / 2 ^ f.shift_down in
    let below : n < 2 ^ 40 = (div-lt_iff_lt-mul (pow_pos f.shift_down)).1 small in
    let fits : leb (2 ^ 63) n ≡ false = ground arith in
    elim (Bool-cases f.negative) [
      | inl e ↦ simp (fits, e) (negative_points e (at_least_one-negate n))
      | inr e ↦ simp (fits, e) (at_least_one-IsDays f n e (div-IsWhole f))
    ]

day_of-add_days : (t n : ℕ) → day_of utc (add_days t n) ≡ day_of utc t + n
unfolding day_of add_days
day_of-add_days t n = omega arith

module _ (strategy name : Text) (points : Float64) (now t : ℕ) (late : 2 * day ≤ now)
    (small : IsSmall points) where
  sprint_case :
      (r : Result ℕ)
      → parse_weekday name ≡ r
      → strategy ≡ text "sprint_end"
      → (r >>= λ wd. ok (next_weekday utc now wd)) ≡ ok t
      → IsDue strategy name points now t
  sprint_case (ok wd) p s e = sprint_end wd s p (
      let n = next_weekday-utc-IsNext now wd late (parse_weekday-lt name wd p) in
      let same : next_weekday utc now wd ≡ t = cc in rw (← same) n)
  sprint_case (err x) p s e = cc

  points_case :
      strategy ≡ text "story_points"
      → ok (add_days now (at_least_one (to_int points))) ≡ ok t
      → IsDue strategy name points now t
  points_case s e =
      let same : add_days now (at_least_one (to_int points)) ≡ t = cc in
      story_points _ s (to_int-IsDays points small) (rw (← same) (day_of-add_days now _))

  -- In UTC, from the third day of year 1 on and for less than 2^40 story points, every due date that is
  -- returned is the one of its strategy: the sprint's next weekday, or as many days ahead as there are
  -- whole story points, and one day ahead for less than one point.
  pub calculate_due_date-IsDue :
      calculate_due_date utc strategy name points now ≡ ok t → IsDue strategy name points now t
  unfolding calculate_due_date
  calculate_due_date-IsDue h = elim (Bool-cases (strategy == text "sprint_end")) [
    | inl s ↦ sprint_case (parse_weekday name) refl ((==_iff _ _).0 s) (rw s at h)
    | inr n ↦ elim (Bool-cases (strategy == text "story_points")) [
      | inl p ↦ points_case ((==_iff _ _).0 p) (rw p at (rw n at h))
      | inr q ↦ absurd (cc (rw q at (rw n at h)))
    ]
  ]

-- In UTC no due date lies before today, and one by story points lies after it.
pub IsDue-not_before :
    {strategy name : Text} {points : Float64} {now t : ℕ}
    → IsDue strategy name points now t
    → day_of utc now ≤ day_of utc t
IsDue-not_before (sprint_end wd s p n) = n.not_before
IsDue-not_before (story_points k s p e) = omega arith

-- An error is returned exactly for an unknown strategy, or under `sprint_end` for an unknown weekday.
calculate_due_date_fails :
    (z : Zone) (strategy name : Text) (points : Float64) (now : ℕ) (e : DueDateError)
    → (calculate_due_date z strategy name points now ≡ err e) ↔ (
        ((strategy ≡ text "sprint_end") × (parse_weekday name ≡ err e))
        ⊎ ((strategy ≢ text "sprint_end")
            × (strategy ≢ text "story_points")
            × (e ≡ unknown_strategy strategy)))
unfolding calculate_due_date
calculate_due_date_fails z strategy name points now e = (
  λ h. ground (arith, ==_iff strategy (text "sprint_end"), ==_iff strategy (text "story_points")),
  λ h. ground (arith, ==_iff strategy (text "sprint_end"), ==_iff strategy (text "story_points")),
)
