-- ===== src/Base/Texts.antt =====
-- A Go string is modelled by the list of its code points; a literal is written `text "…"`.
use Prim.Native.Nat.{ℕ}
use Prim.Native.Char.{code}
use Prim.Native.String.{String}
use mathlib.Core.Path.{◌≡◌, refl}
use mathlib.Core.Logic.{◌↔◌}
use mathlib.Core.Bool.{Bool, true, false, ◌&&◌, ◌||◌}
use mathlib.Core.List.{List, [], ◌∷◌, ◌++◌}
use native.Mathlib.Omega.{arith}
use glsync.Base.Tests.{eqb}

abbrev pub Text : Type 0
Text = List ℕ

abbrev pub text : String → Text
text String.[] = []
text (String.◌∷◌ c s) = code c ∷ text s

infix 50 ◌==◌
unfoldable pub ◌==◌ : Text → Text → Bool
[] == [] = true
[] == (d ∷ t) = false
(c ∷ s) == [] = false
(c ∷ s) == (d ∷ t) = eqb c d && s == t

eq-of_== : (s t : Text) → s == t ≡ true → s ≡ t
unfolding ◌==◌
eq-of_== [] [] h = refl
eq-of_== [] (d ∷ t) h = cc
eq-of_== (c ∷ s) [] h = cc
eq-of_== (c ∷ s) (d ∷ t) h = ground (arith, eq-of_== s t)

pub ==_refl : (s : Text) → s == s ≡ true
unfolding ◌==◌
==_refl [] = refl
==_refl (c ∷ s) = ground (arith, ==_refl s)

pub ==_iff : (s t : Text) → (s == t ≡ true) ↔ (s ≡ t)
==_iff s t = (eq-of_== s t, λ e. rw e (==_refl t))

-- `x = ANY(xs)`, and membership in a Go set of strings
unfoldable pub contains : Text → List Text → Bool
contains x [] = false
contains x (y ∷ ys) = x == y || contains x ys

-- No text stands twice in the list.
abbrev pub IsUnique : List Text → Type 0
IsUnique [] = Unit
IsUnique (x ∷ xs) = (contains x xs ≡ false) × IsUnique xs

pub contains-append :
    (x : Text) (xs ys : List Text) → contains x (xs ++ ys) ≡ (contains x xs || contains x ys)
unfolding contains
contains-append x [] ys = refl
contains-append x (y ∷ xs) ys = ground (arith, contains-append x xs ys)

pub IsUnique-append :
    (xs : List Text) (x : Text) → IsUnique xs → contains x xs ≡ false → IsUnique (xs ++ x ∷ [])
unfolding contains
IsUnique-append [] x u h = (refl, tt)
IsUnique-append (y ∷ xs) x u h = (
  ground (arith, contains-append y xs (x ∷ []), ==_iff x y, ==_iff y x),
  IsUnique-append xs x u.1 (ground arith),
)

pub contains-append_left :
    (x : Text) (xs ys : List Text) → contains x xs ≡ true → contains x (xs ++ ys) ≡ true
contains-append_left x xs ys h = rw (contains-append x xs ys, h)
