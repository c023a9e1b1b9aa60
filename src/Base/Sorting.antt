-- ===== src/Base/Sorting.antt =====
-- `sorted` of a list of texts: by code points, as Python compares them.
use Prim.Native.String.{String, compare}
use mathlib.Core.Path.{◌≡◌, refl}
use mathlib.Core.Bool.{Bool, ◌||◌}
use mathlib.Core.List.{List, [], ◌∷◌}
use native.Mathlib.Omega.{arith}
use text.Mathlib.Text.{◌==◌, is_le}
use axor_wrap.Base.Tests.{if◌then◌else◌}
use axor_wrap.Base.Lists.{contains}

abbrev pub str_le : String → String → Bool
str_le a b = is_le (compare a b)

insert_in_order : String → List String → List String
insert_in_order x [] = x ∷ []
insert_in_order x (y ∷ ys) = if str_le x y then x ∷ y ∷ ys else y ∷ insert_in_order x ys

unfoldable pub sorted : List String → List String
unfolding insert_in_order
sorted [] = []
sorted (x ∷ xs) = insert_in_order x (sorted xs)

contains-insert_in_order :
    (x z : String) (ys : List String)
    → contains (insert_in_order x ys) z ≡ ((z == x) || contains ys z)
unfolding insert_in_order
contains-insert_in_order x z [] = refl
contains-insert_in_order x z (y ∷ ys) = ground (arith, contains-insert_in_order x z ys)

-- Sorting keeps the members.
pub contains-sorted : (xs : List String) (z : String) → contains (sorted xs) z ≡ contains xs z
unfolding sorted
contains-sorted [] z = refl
contains-sorted (x ∷ xs) z =
    rw (contains-insert_in_order x z (sorted xs)) (ground (arith, contains-sorted xs z))
