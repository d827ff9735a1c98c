-- ===== src/Prelude/Sets.antt =====
-- Python's `sorted(set(xs))` on strings.
use mathlib.Core.Path.{◌≡◌, refl, ◌∙◌}
use mathlib.Core.Bool.{◌||◌}
use mathlib.Core.List.{List, [], ◌∷◌}
use Prim.Native.String.{String}
use native.Mathlib.Omega.{arith}
use text.Mathlib.TextEquality.{eq_iff}
use skysolver.Prelude.Tests.{◌==◌, string_eq, before_text, if◌then◌else◌}
use skysolver.Prelude.Lists.{contains}

-- A member joins the ordered list, unless it is there.
unfoldable pub insert_once : String → List String → List String
insert_once s [] = s ∷ []
insert_once s (x ∷ xs) =
    let rest = insert_once s xs in
    if s == x then x ∷ xs else if before_text s x then s ∷ x ∷ xs else x ∷ rest

unfoldable pub sorted_set : List String → List String
unfolding insert_once
sorted_set [] = []
sorted_set (s ∷ xs) = insert_once s (sorted_set xs)

contains-insert_once :
    (s r : String) (xs : List String) → contains r (insert_once s xs) ≡ (r == s || contains r xs)
unfolding insert_once
contains-insert_once s r [] = ground arith
contains-insert_once s r (x ∷ xs) =
    ground (arith, eq_iff s x, eq_iff r s, eq_iff r x, contains-insert_once s r xs)

pub contains-sorted_set :
    (r : String) (xs : List String) → contains r (sorted_set xs) ≡ contains r xs
unfolding sorted_set
contains-sorted_set r [] = refl
contains-sorted_set r (x ∷ xs) =
    contains-insert_once x r (sorted_set xs) ∙ ground (arith, contains-sorted_set r xs)
