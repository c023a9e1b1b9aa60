-- ===== src/Value/Equality.antt =====
-- `==` of Python values: a Boolean equals the integer that it counts as, and the order of a dict's
-- fields does not matter.
use axor_wrap.Base.{
  ℕ, suc, ℤ, pos, negsuc, String, Bool, true, false, ◌&&◌, ◌≡◌, refl, Option, none, some, nat_eq,
  ◌==◌, if◌then◌else◌,
}
use axor_wrap.Value.{Value, null, bool, int, str, arr, obj, Items, nil, cons, Fields, end, field}

abbrev pub int_eq : ℤ → ℤ → Bool
int_eq (pos a) (pos b) = nat_eq a b
int_eq (negsuc a) (negsuc b) = nat_eq a b
int_eq _ _ = false

abbrev as_number : Value → Option ℤ
as_number (int n) = some n
as_number (bool true) = some (pos 1)
as_number (bool false) = some (pos 0)
as_number v = none

abbrev number_eq : ℤ → Option ℤ → Bool
number_eq a none = false
number_eq a (some b) = int_eq a b

pub field_of : String → Fields → Option Value
field_of k end = none
field_of k (field j v fs) = if k == j then some v else field_of k fs

pub count : Fields → ℕ
count end = 0
count (field k v fs) = suc (count fs)

abbrev holds_at : Option Value → (Value → Bool) → Bool
holds_at none p = false
holds_at (some w) p = p w

unfoldable mutual
  pub value_eq : Value → Value → Bool
  value_eq null null = true
  value_eq null w = false
  value_eq (bool b) w = number_eq (if b then pos 1 else pos 0) (as_number w)
  value_eq (int n) w = number_eq n (as_number w)
  value_eq (str s) (str t) = s == t
  value_eq (str s) w = false
  value_eq (arr vs) (arr ws) = items_eq vs ws
  value_eq (arr vs) w = false
  value_eq (obj fs) (obj gs) = nat_eq (count fs) (count gs) && fields_in fs gs
  value_eq (obj fs) w = false

  pub items_eq : Items → Items → Bool
  items_eq nil nil = true
  items_eq nil ws = false
  items_eq (cons v vs) nil = false
  items_eq (cons v vs) (cons w ws) = value_eq v w && items_eq vs ws

  pub fields_in : Fields → Fields → Bool
  fields_in end gs = true
  fields_in (field k v fs) gs = holds_at (field_of k gs) (value_eq v) && fields_in fs gs

order_test :
    value_eq
      (obj (field "a" (int (pos 1)) (field "b" null end)))
      (obj (field "b" null (field "a" (bool true) end)))
    ≡ true
unfolding value_eq field_of count
order_test = refl
