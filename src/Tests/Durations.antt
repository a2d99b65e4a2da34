-- ===== src/Tests/Durations.antt =====
-- Durations of configuration files.
use glsync.Base.{ℕ, ◌*◌, ◌/◌, pos, negsuc, text, [], ◌∷◌, none, some, ◌≡◌, refl, arith, ◌==◌}
use glsync.Config.Durations.{unmarshal_yaml}
use glsync.Config.Durations.Pieces.{hours, minutes}
use glsync.Config.Durations.Printed.{written, unmarshal_yaml-written}

abbrev scaled : ℕ → ℕ → ℕ → ℕ
scaled f unit scale = f * unit / scale

unmarshal_yaml-written_example :
    unmarshal_yaml scaled (written ((1, hours) ∷ (30, minutes) ∷ [])) ≡ some (pos 5400000000000)
unmarshal_yaml-written_example =
    unmarshal_yaml-written scaled 1 hours ((30, minutes) ∷ []) (omega arith)

with_fraction : unmarshal_yaml scaled (text "1.5s") ≡ some (pos 1500000000)
unfolding unmarshal_yaml ◌==◌
with_fraction = refl

negative : unmarshal_yaml scaled (text "-2m.5s") ≡ some (negsuc 120499999999)
unfolding unmarshal_yaml ◌==◌
negative = refl

without_unit : unmarshal_yaml scaled (text "5") ≡ none
unfolding unmarshal_yaml ◌==◌
without_unit = refl

zero_alone : unmarshal_yaml scaled (text "+0") ≡ some (pos 0)
unfolding unmarshal_yaml ◌==◌
zero_alone = refl

empty : unmarshal_yaml scaled (text "") ≡ none
unfolding unmarshal_yaml
empty = refl

too_long : unmarshal_yaml scaled (text "2562047h48m") ≡ none
unfolding unmarshal_yaml ◌==◌
too_long = refl
