-- ===== src/Workflow/DueDate/Sprint.antt =====
-- The days on which `NextWeekday` of internal/workflow/duedate.go lands.
use glsync.Base.{ℕ, ◌+◌, ◌*◌, ◌%◌, ◌≤◌, ◌<◌, ◌≡◌, arith}
use glsync.Workflow.DueDate.{
  Zone, utc, day, day_of, weekday, truncate_day, add_days, days_until, next_weekday,
}

-- Offsets stay under a day, and times lie after the first day of year 1.
pub record IsUsual (z : Zone) (t : ℕ) : Type 0 where
  pub east_small : z.east < day
  pub west_small : z.west < day
  pub one_sided : z.east * z.west ≡ 0
  pub late : 2 * day ≤ t

days_until_lt : (wd today : ℕ) → wd < 7 → today < 7 → days_until wd today < 7
unfolding days_until
days_until_lt wd today h k = ground arith

days_until_sum : (wd d : ℕ) → wd < 7 → (d + days_until wd ((d + 1) % 7) + 1) % 7 ≡ wd
unfolding days_until
days_until_sum wd d h = ground arith

day_of-add_days : (z : Zone) (t n : ℕ) → z.west ≤ t → day_of z (add_days t n) ≡ day_of z t + n
unfolding day_of add_days
day_of-add_days z t n h = omega arith

truncate_late : (t : ℕ) → 2 * day ≤ t → 2 * day ≤ truncate_day t
unfolding truncate_day
truncate_late t h = omega arith

-- `t` lies on the first day with the weekday `wd` at or after the day of `from`.
pub record IsNext (z : Zone) (from wd t : ℕ) : Type 0 where
  pub on_weekday : weekday z t ≡ wd
  pub not_before : day_of z from ≤ day_of z t
  pub first : (d : ℕ) → day_of z from ≤ d → (d + 1) % 7 ≡ wd → day_of z t ≤ d

days_until_first :
    (wd d0 d : ℕ) → wd < 7 → d0 ≤ d → (d + 1) % 7 ≡ wd → d0 + days_until wd ((d0 + 1) % 7) ≤ d
unfolding days_until
days_until_first wd d0 d h le e = ground arith

days_until_self : (wd today : ℕ) → today ≡ wd → days_until wd today ≡ 0
unfolding days_until
days_until_self wd today e = ground arith

module _ (z : Zone) (now wd : ℕ) (usual : IsUsual z now) (valid : wd < 7) where
  day_of-next_weekday :
      day_of z (next_weekday z now wd)
      ≡ day_of z (truncate_day now) + days_until wd (weekday z (truncate_day now))
  unfolding next_weekday
  day_of-next_weekday =
      day_of-add_days z (truncate_day now) _
        (omega (arith, truncate_late now usual.late, usual.west_small))

  weekday-next_weekday : weekday z (next_weekday z now wd) ≡ wd
  unfolding weekday
  weekday-next_weekday = rw day_of-next_weekday (unfold weekday in days_until_sum wd _ valid)

  -- In every location, `NextWeekday` returns a time on the first day with the weekday that was asked
  -- for, counted from the day on which UTC's last midnight fell in that location.
  pub next_weekday-IsNext : IsNext z (truncate_day now) wd (next_weekday z now wd)
  next_weekday-IsNext = record {
    on_weekday = weekday-next_weekday;
    not_before = omega (arith, day_of-next_weekday);
    first = λ d le e.
        rw day_of-next_weekday
          (unfold weekday in days_until_first wd (day_of z (truncate_day now)) d valid le e);
  }

  -- Where the day of UTC's last midnight is already over, a due date asked for that day's weekday
  -- lies before today.
  pub next_weekday_past :
      day_of z (truncate_day now) < day_of z now
      → weekday z (truncate_day now) ≡ wd
      → day_of z (next_weekday z now wd) < day_of z now
  next_weekday_past over e =
      omega (arith, day_of-next_weekday, days_until_self wd (weekday z (truncate_day now)) e)

day_of-truncate_day : (t : ℕ) → day_of utc (truncate_day t) ≡ day_of utc t
unfolding day_of truncate_day
day_of-truncate_day t = omega arith

-- In UTC, `NextWeekday` returns a time on the first day with that weekday at or after today.
pub next_weekday-utc-IsNext :
    (now wd : ℕ) → 2 * day ≤ now → wd < 7 → IsNext utc now wd (next_weekday utc now wd)
next_weekday-utc-IsNext now wd late valid =
    let same = day_of-truncate_day now in
    let n = next_weekday-IsNext utc now wd (omega arith) valid in
    record {
      on_weekday = n.on_weekday;
      not_before = omega (arith, same, n.not_before);
      first = λ d le e. n.first d (omega (arith, same)) e;
    }
