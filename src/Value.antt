-- ===== src/Value.antt =====
-- The Python values that JSON carries, as the source reads them: `dict`, `list`, `str`, `int`,
-- `bool` and `None`. Floats are not represented.
pub mod Equality
pub mod Show
use axor_wrap.Base.{
  ℕ, zero, suc, ℤ, pos, negsuc, String, Bool, true, false, Option, none, some, List, [], ◌∷◌, ◌==◌,
  if◌then◌else◌,
}
use axor_wrap.Errors.{Result, ok, err, type_error, value_error}
use axor_wrap.Base.Dict.{Dict, lookup, insert}
use axor_wrap.Base.Text.{empty, parse_int, cons_char}

mutual
  pub data Value : Type 0 where
    obj : Fields → Value
    arr : Items → Value
    str : String → Value
    int : ℤ → Value
    bool : Bool → Value
    null : Value

  pub data Items : Type 0 where
    nil : Items
    cons : Value → Items → Items

  pub data Fields : Type 0 where
    end : Fields
    field : String → Value → Fields → Fields

unfoldable pub entries : Fields → Dict Value
entries end = []
entries (field k v fs) = (k, v) ∷ entries fs

unfoldable pub fields : Dict Value → Fields
fields [] = end
fields ((k, v) ∷ d) = field k v (fields d)

unfoldable pub elements : Items → List Value
elements nil = []
elements (cons v vs) = v ∷ elements vs

unfoldable pub items : List Value → Items
items [] = nil
items (v ∷ vs) = cons v (items vs)

abbrev pub of_dict : Dict Value → Value
of_dict d = obj (fields d)

abbrev pub of_list : List Value → Value
of_list vs = arr (items vs)

unfoldable pub of_strings : List String → Items
of_strings [] = nil
of_strings (s ∷ ss) = cons (str s) (of_strings ss)

-- `bool(v)`
unfoldable pub truthy : Value → Bool
truthy null = false
truthy (bool b) = b
truthy (int (pos zero)) = false
truthy (int n) = true
truthy (str s) = if empty s then false else true
truthy (arr nil) = false
truthy (arr vs) = true
truthy (obj end) = false
truthy (obj fs) = true

abbrev or_value_error : Option ℤ → Result ℤ
or_value_error none = err value_error
or_value_error (some n) = ok n

-- `int(v)`
unfoldable pub to_int : Value → Result ℤ
unfolding parse_int
to_int (int n) = ok n
to_int (bool true) = ok (pos 1)
to_int (bool false) = ok (pos 0)
to_int (str s) = or_value_error (parse_int s)
to_int v = err type_error

abbrev pub is_text : Value → Option String
is_text (str s) = some s
is_text v = none

-- A dict's field: `v[k]`, or `v.get(k)` of a dict.
unfoldable pub get : String → Value → Option Value
unfolding lookup entries
get k (obj fs) = lookup k (entries fs)
get k v = none

-- `tuple(v)`, `list(v)` or the values that a loop over `v` meets; `none` is a `TypeError`.
unfoldable pub iterate_text : String → List Value
iterate_text String.[] = []
iterate_text (String.◌∷◌ c s) = str (cons_char c "") ∷ iterate_text s

abbrev iterate_keys : Dict Value → List Value
iterate_keys [] = []
iterate_keys ((k, v) ∷ d) = str k ∷ iterate_keys d

unfoldable pub iterate : Value → Option (List Value)
unfolding elements entries iterate_text
iterate (arr vs) = some (elements vs)
iterate (str s) = some (iterate_text s)
iterate (obj fs) = some (iterate_keys (entries fs))
iterate v = none

-- The two parts that `dict(...)` takes from a member of its argument.
as_pair : Option (List Value) → Option (String × Value)
as_pair (some (str k ∷ v ∷ [])) = some (k, v)
as_pair other = none

unfoldable pub pairs_onto : Dict Value → List Value → Option (Dict Value)
unfolding as_pair iterate insert
pairs_onto d [] = some d
pairs_onto d (v ∷ vs) = elim (as_pair (iterate v)) [
  | none ↦ none
  | some (k, w) ↦ pairs_onto (insert k w d) vs
]

-- `dict(v)`; `none` is a `TypeError` or a `ValueError`. A key that is not a text is refused here,
-- where Python refuses it when the dict is serialized.
unfoldable pub to_dict : Value → Option (Dict Value)
unfolding pairs_onto iterate entries
to_dict (obj fs) = some (entries fs)
to_dict (arr vs) = pairs_onto [] (elements vs)
to_dict (str s) = pairs_onto [] (iterate_text s)
to_dict v = none
