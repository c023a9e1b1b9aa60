-- ===== src/Base/Lists.antt =====
-- Lists of texts read as Python sets, and lengths over the native numbers.
use Prim.Native.Nat.{ℕ, suc, ◌+◌}
use Prim.Native.String.{String}
use mathlib.Core.Path.{◌≡◌, refl}
use mathlib.Core.Logic.{◌⊎◌, inl, inr}
use mathlib.Core.Bool.{Bool, true, false, ◌||◌}
use mathlib.Core.List.{List, [], ◌∷◌, ◌++◌}
use native.Mathlib.Omega.{arith}
use text.Mathlib.Text.{◌==◌}
use text.Mathlib.TextEquality.{eq_iff}
use axor_wrap.Base.Tests.{if◌then◌else◌, Bool-cases}

module _ {ℓ} {A : Type ℓ} where
  abbrev pub length : List A → ℕ
  length [] = 0
  length (x ∷ xs) = suc (length xs)

  pub length-append : (xs ys : List A) → length (xs ++ ys) ≡ length xs + length ys
  length-append [] ys = omega arith
  length-append (x ∷ xs) ys = omega (arith, length-append xs ys)

-- `x in xs`
abbrev pub contains : List String → String → Bool
contains [] x = false
contains (y ∷ ys) x = (x == y) || contains ys x

-- `xs.add(x)` of a set that is kept as a list
abbrev pub insert_new : String → List String → List String
insert_new x xs = if contains xs x then xs else x ∷ xs

contains-of_eq :
    (x y : String) (xs : List String)
    → contains xs x ≡ true
    → (y == x) ≡ true
    → contains xs y ≡ true
contains-of_eq x y xs h e = rw ((eq_iff y x).0 e) h

pub contains-insert_new :
    (x y : String) (xs : List String) → contains (insert_new x xs) y ≡ ((y == x) || contains xs y)
contains-insert_new x y xs = elim (Bool-cases (contains xs x)) [
  | inl old ↦ rw old (ground (arith, contains-of_eq x y xs))
  | inr new ↦ rw new
]

pub contains-append :
    (xs ys : List String) (x : String) → contains (xs ++ ys) x ≡ (contains xs x || contains ys x)
contains-append [] ys x = refl
contains-append (y ∷ xs) ys x = ground (arith, contains-append xs ys x)

-- The value stands in the list.
abbrev pub Among : {A : Type 0} → A → List A → Type 0
Among x [] = ⊥
Among x (y ∷ ys) = (x ≡ y) ⊎ Among x ys
