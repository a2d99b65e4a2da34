-- ===== src/Tests/Workflow.antt =====
-- The rules, the resolver and the due dates.
use glsync.Base.{ℕ, ◌+◌, ◌*◌, ◌<◌, one, text, [], ◌∷◌, ◌≡◌, ◌↔◌, refl, some, arith, ◌==◌}
use glsync.Domain.{NormalizedEvent, mr_merged}
use glsync.Domain.States.{done}
use glsync.Json.{malformed}
use glsync.Gitlab.Parser.{bare}
use glsync.Workflow.Rules.{RuleConfig, classify}
use glsync.Workflow.Rules.Table.{Moves, classify_iff}
use glsync.Workflow.Transition.{Resolver}
use glsync.Workflow.DueDate.{
  Zone, utc, day, day_of, weekday, truncate_day, next_weekday, calculate_due_date, parse_weekday,
  ok,
}
use glsync.Workflow.DueDate.Sprint.{IsUsual, IsNext, next_weekday-IsNext, next_weekday_past}
use glsync.Workflow.DueDate.Strategy.{IsDue, calculate_due_date-IsDue}

abbrev branches : RuleConfig
branches = record { develop_branch = text "develop"; master_branch = text "master" }

abbrev merge_into_master : NormalizedEvent
merge_into_master = record (bare mr_merged malformed 0) { target_branch = text "master" }

classify_iff_example :
    (classify merge_into_master branches ≡ some done) ↔ Moves merge_into_master branches done
classify_iff_example = classify_iff merge_into_master branches done

abbrev resolver : Resolver
resolver = record { transitions = (text "rfqa", text "31") ∷ (text "done", []) ∷ [] }

-- Five hours behind UTC, one o'clock UTC on the third day: there it is still the second day, a Tuesday.
abbrev behind : Zone
behind = record { east = 0; west = 5 * 3600000000000 }

abbrev one_o_clock : ℕ
one_o_clock = 2 * day + 3600000000000

behind-IsUsual : IsUsual behind one_o_clock
behind-IsUsual = record {
  east_small = omega arith;
  west_small = omega arith;
  one_sided = refl;
  late = omega arith;
}

next_weekday-IsNext_example :
    IsNext behind (truncate_day one_o_clock) 2 (next_weekday behind one_o_clock 2)
next_weekday-IsNext_example = next_weekday-IsNext behind one_o_clock 2 behind-IsUsual (omega arith)

-- At noon there it is Wednesday; UTC's midnight was on the Tuesday.
abbrev noon : ℕ
noon = 2 * day + 17 * 3600000000000

noon-IsUsual : IsUsual behind noon
noon-IsUsual = record {
  east_small = omega arith;
  west_small = omega arith;
  one_sided = refl;
  late = omega arith;
}

over : day_of behind (truncate_day noon) < day_of behind noon
unfolding day_of truncate_day
over = omega arith

tuesday : weekday behind (truncate_day noon) ≡ 2
unfolding weekday truncate_day
tuesday = refl

next_weekday_past_example : day_of behind (next_weekday behind noon 2) < day_of behind noon
next_weekday_past_example = next_weekday_past behind noon 2 noon-IsUsual (omega arith) over tuesday

due : calculate_due_date utc (text "sprint_end") (text " Friday") one noon ≡ ok (4 * day)
unfolding calculate_due_date parse_weekday next_weekday ◌==◌
due = refl

calculate_due_date-IsDue_example : IsDue (text "sprint_end") (text " Friday") one noon (4 * day)
calculate_due_date-IsDue_example =
    calculate_due_date-IsDue (text "sprint_end") (text " Friday") one noon (4 * day) (omega arith)
      (omega arith) due
