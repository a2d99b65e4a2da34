-- ===== src/Base/Maps.antt =====
-- Go's `map[string]V` as an association list. The program never ranges over one.
use mathlib.Core.Path.{◌≡◌}
use mathlib.Core.Option.{Option, none, some}
use mathlib.Core.List.{List, [], ◌∷◌}
use native.Mathlib.Omega.{arith}
use glsync.Base.Tests.{if◌then◌else◌}
use glsync.Base.Texts.{Text, ◌==◌, ==_iff}

module _ {ℓ} {V : Type ℓ} where
  unfoldable pub lookup : Text → List (Text × V) → Option V
  lookup key [] = none
  lookup key ((name, value) ∷ entries) =
      let later = lookup key entries in if name == key then some value else later

  unfoldable pub delete : Text → List (Text × V) → List (Text × V)
  delete key [] = []
  delete key ((name, value) ∷ entries) =
      let others = delete key entries in if name == key then others else (name, value) ∷ others

  -- `m[key] = value`
  unfoldable pub insert : Text → V → List (Text × V) → List (Text × V)
  unfolding delete
  insert key value m = (key, value) ∷ delete key m

  lookup-delete :
      (gone key : Text) (m : List (Text × V))
      → lookup key (delete gone m) ≡ (if gone == key then none else lookup key m)
  unfolding lookup delete
  lookup-delete gone key [] = ground arith
  lookup-delete gone key ((name, value) ∷ entries) =
      ground
        (arith, ==_iff gone key, ==_iff name gone, ==_iff name key, lookup-delete gone key entries)

  pub lookup-insert :
      (new key : Text) (value : V) (m : List (Text × V))
      → lookup key (insert new value m) ≡ (if new == key then some value else lookup key m)
  unfolding lookup insert
  lookup-insert new key value m = ground (arith, lookup-delete new key m)
