-- ===== src/Workflow/DueDate.antt =====
-- internal/workflow/duedate.go, with the parts of package time that it uses. A time is a number of
-- nanoseconds since Monday, January 1 of year 1, UTC, and its location is a fixed offset from UTC.
pub mod Sprint
pub mod Strategy
use glsync.Base.{
  Float64, ℕ, zero, suc, ◌+◌, ◌-◌, ◌*◌, ◌/◌, ◌%◌, ◌^◌, ℤ, pos, negsuc, Text, text, List, [], ◌∷◌,
  Bool, true, false, ◌&&◌, ◌||◌, not, Option, none, some, ltb, leb, eqb, ◌==◌, map, if◌then◌else◌,
}
use glsync.Errors.{DueDateError, unknown_weekday, unknown_strategy}

-- `24 * time.Hour`
abbrev pub day : ℕ
day = 86400000000000

-- The nanoseconds that a location is ahead of UTC (`east`) or behind it (`west`).
pub record Zone : Type 0 where
  pub east : ℕ
  pub west : ℕ

abbrev pub utc : Zone
utc = record { east = 0; west = 0 }

-- The number of a time's calendar day in its location.
unfoldable pub day_of : Zone → ℕ → ℕ
day_of z t = (t + z.east - z.west) / day

-- `t.Weekday()`, with Sunday as 0
unfoldable pub weekday : Zone → ℕ → ℕ
unfolding day_of
weekday z t = (day_of z t + 1) % 7

-- `t.Truncate(24 * time.Hour)` rounds the time since year 1 in UTC, whatever the location.
unfoldable pub truncate_day : ℕ → ℕ
truncate_day t = t - t % day

-- `t.AddDate(0, 0, n)`: in a location of fixed offset each day has 24 hours. The seconds that package time
-- counts in 64 bits have no bound here, so this is AddDate for times below 2^63 seconds, 10^14 days.
unfoldable pub add_days : ℕ → ℕ → ℕ
add_days t n = t + n * day

-- `int(weekday) - int(from.Weekday())`, raised by 7 if it is negative
unfoldable pub days_until : ℕ → ℕ → ℕ
days_until wd today = if ltb wd today then wd + 7 - today else wd - today

unfoldable pub next_weekday : Zone → ℕ → ℕ → ℕ
unfolding truncate_day weekday add_days days_until
next_weekday z from wd =
    let start = truncate_day from in add_days start (days_until wd (weekday z start))

-- `unicode.ToLower` where its result is an ASCII letter; other code points are left, which changes
-- no comparison with an ASCII text.
to_lower : ℕ → ℕ
to_lower c =
    if leb b'A' c && leb c b'Z'
    then c + 32
    else if eqb c 0x212a
    then b'k'
    else if eqb c 0x130
    then b'i'
    else c

-- `unicode.IsSpace`
is_space : ℕ → Bool
is_space c =
    (leb 9 c && leb c 13)
    || eqb c 32
    || eqb c 0x85
    || eqb c 0xa0
    || eqb c 0x1680
    || (leb 0x2000 c && leb c 0x200a)
    || eqb c 0x2028
    || eqb c 0x2029
    || eqb c 0x202f
    || eqb c 0x205f
    || eqb c 0x3000

trim_left : Text → Text
trim_left [] = []
trim_left (c ∷ s) = let rest = trim_left s in if is_space c then rest else c ∷ s

cons_unless_blank : ℕ → Text → Text
cons_unless_blank c [] = if is_space c then [] else c ∷ []
cons_unless_blank c (d ∷ s) = c ∷ d ∷ s

trim_right : Text → Text
unfolding cons_unless_blank
trim_right [] = []
trim_right (c ∷ s) = cons_unless_blank c (trim_right s)

-- `strings.ToLower(strings.TrimSpace(s))`
unfoldable pub normal : Text → Text
unfolding to_lower is_space trim_left trim_right
normal s = map to_lower (trim_right (trim_left s))

pub data Result {ℓ} (A : Type ℓ) : Type ℓ where
  ok : A → Result A
  err : DueDateError → Result A

infixl 5 ◌>>=◌
abbrev pub ◌>>=◌ {ℓ κ} : {A : Type ℓ} {B : Type κ} → Result A → (A → Result B) → Result B
ok a >>= f = f a
err e >>= f = err e

-- The `switch` of `ParseWeekday` on the normal form of `s`.
weekday_of : Text → Text → Result ℕ
weekday_of s name =
    if name == text "sunday"
    then ok 0
    else if name == text "monday"
    then ok 1
    else if name == text "tuesday"
    then ok 2
    else if name == text "wednesday"
    then ok 3
    else if name == text "thursday"
    then ok 4
    else if name == text "friday"
    then ok 5
    else if name == text "saturday"
    then ok 6
    else err (unknown_weekday s)

unfoldable pub parse_weekday : Text → Result ℕ
unfolding weekday_of normal
parse_weekday s = weekday_of s (normal s)

negate : ℕ → ℤ
negate zero = pos zero
negate (suc n) = negsuc n

-- `int(f)` drops the fraction. A value that an int64 cannot hold becomes the least one, as on amd64.
unfoldable pub to_int : Float64 → ℤ
unfolding negate
to_int f =
    let whole = f.mantissa * 2 ^ f.shift_up / 2 ^ f.shift_down in
    if leb (2 ^ 63) whole
    then negsuc (2 ^ 63 - 1)
    else if f.negative
    then negate whole
    else pos whole

-- `if days < 1 { days = 1 }`
unfoldable pub at_least_one : ℤ → ℕ
at_least_one (pos n) = if ltb n 1 then 1 else n
at_least_one (negsuc n) = 1

unfoldable pub calculate_due_date : Zone → Text → Text → Float64 → ℕ → Result ℕ
calculate_due_date z strategy sprint_end_weekday story_points now =
    if strategy == text "sprint_end"
    then (do wd ← parse_weekday sprint_end_weekday; ok (next_weekday z now wd))
    else if strategy == text "story_points"
    then ok (add_days now (at_least_one (to_int story_points)))
    else err (unknown_strategy strategy)
