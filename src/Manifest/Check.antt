-- ===== src/Manifest/Check.antt =====
-- manifest.py, `_check`: the validator of the subset of JSON Schema that the manifests use. A schema
-- has the shape that the annotations of the source state, dicts where it says so: what Python raises
-- at a schema of another shape is not represented.
use axor_wrap.Base.{
  ℕ, zero, suc, String, ◌<>◌, Bool, true, false, not, ◌&&◌, ◌||◌, Option, none, some, List, [], ◌∷◌,
  ◌++◌, ◌==◌, if◌then◌else◌,
}
use axor_wrap.Base.Dict.{Dict, lookup, has_key}
use axor_wrap.Base.Text.{decimal, strip_prefix, split}
use axor_wrap.Value.{Value, null, bool, int, str, arr, obj, entries, elements, get, truthy}
use axor_wrap.Value.Equality.{value_eq}
use axor_wrap.Value.Show.{show, repr}
use axor_wrap.Manifest.Schema.{embedded_schema}

-- `type(node).__name__`
abbrev pub type_name : Value → String
type_name null = "NoneType"
type_name (bool b) = "bool"
type_name (int n) = "int"
type_name (str s) = "str"
type_name (arr vs) = "list"
type_name (obj fs) = "dict"

-- `_is_type`
unfoldable pub is_type : Value → String → Bool
is_type null t = t == "null"
is_type (bool b) t = t == "boolean"
is_type (int n) t = (t == "integer") || (t == "number")
is_type (str s) t = t == "string"
is_type (arr vs) t = t == "array"
is_type (obj fs) t = t == "object"

abbrev pub fields_of : Option Value → Dict Value
fields_of (some (obj fs)) = entries fs
fields_of v = []

abbrev pub values_of : Option Value → List Value
values_of (some (arr vs)) = elements vs
values_of v = []

abbrev pub or_true : Option Value → Value
or_true none = bool true
or_true (some v) = v

unfoldable pub const_errors : Value → String → Option Value → List String
unfolding value_eq repr
const_errors node path none = []
const_errors node path (some want) =
    if value_eq node want
    then []
    else (path <> (": const mismatch: want " <> (repr want <> (" got " <> repr node)))) ∷ []

unfoldable pub is_among : Value → List Value → Bool
unfolding value_eq
is_among node [] = false
is_among node (v ∷ vs) = value_eq node v || is_among node vs

unfoldable pub enum_errors : Value → String → Option Value → List String
unfolding is_among repr show elements
enum_errors node path none = []
enum_errors node path (some allowed) =
    if is_among node (values_of (some allowed))
    then []
    else (path <> (": not in enum " <> (show allowed <> (": " <> repr node)))) ∷ []

abbrev pub declared_types : Value → List Value
declared_types (arr vs) = elements vs
declared_types v = v ∷ []

unfoldable pub has_type : Value → List Value → Bool
unfolding is_type show
has_type node [] = false
has_type node (t ∷ ts) = is_type node (show t) || has_type node ts

-- The schema asks for a type, and the node is of none that it names.
unfoldable pub type_mismatch : Value → Option Value → Bool
unfolding has_type elements truthy
type_mismatch node none = false
type_mismatch node (some declared) =
    truthy declared && not (has_type node (declared_types declared))

unfoldable pub required_errors : Dict Value → String → List Value → List String
unfolding lookup show
required_errors node path [] = []
required_errors node path (r ∷ rs) =
    let rest = required_errors node path rs in
    if has_key (show r) node
    then rest
    else (path <> (": missing required '" <> (show r <> "'"))) ∷ rest

abbrev pub both : Option (List String) → Option (List String) → Option (List String)
both (some es) (some fs) = some (es ++ fs)
both a b = none

-- The checks of one key and of one item, given the check of a part; `none` is a check that ran out of fuel.
unfoldable pub field_errors :
    (Value → Value → String → Option (List String))
    → Option Value
    → Value
    → String
    → String
    → Value
    → Option (List String)
field_errors part (some schema) additional path key value = part value schema (path <> ("." <> key))
field_errors part none (bool false) path key value =
    some ((path <> (": additional property '" <> (key <> "' not allowed"))) ∷ [])
field_errors part none (obj fs) path key value = part value (obj fs) (path <> ("." <> key))
field_errors part none other path key value = some []

unfoldable pub fields_errors :
    (Value → Value → String → Option (List String))
    → Dict Value
    → Value
    → String
    → Dict Value
    → Option (List String)
unfolding field_errors lookup
fields_errors part properties additional path [] = some []
fields_errors part properties additional path ((key, value) ∷ node) =
    both (field_errors part (lookup key properties) additional path key value)
      (fields_errors part properties additional path node)

unfoldable pub items_errors :
    (Value → Value → String → Option (List String))
    → Value
    → String
    → ℕ
    → List Value
    → Option (List String)
unfolding decimal
items_errors part schema path i [] = some []
items_errors part schema path i (v ∷ vs) =
    both (part v schema (path <> ("[" <> (decimal i <> "]"))))
      (items_errors part schema path (suc i) vs)

abbrev pub is_object_type : Option Value → Bool
is_object_type none = false
is_object_type (some v) = value_eq v (str "object")

abbrev pub is_given : Option Value → Bool
is_given none = false
is_given (some v) = true

-- `schema.get("type") == "object" or "properties" in schema`
unfoldable pub has_properties : Value → Bool
unfolding get value_eq
has_properties schema = is_object_type (get "type" schema) || is_given (get "properties" schema)

unfoldable pub dict_errors :
    (Value → Value → String → Option (List String))
    → Dict Value
    → Value
    → String
    → Option (List String)
unfolding required_errors fields_errors has_properties get entries elements
dict_errors part node schema path =
    both (some (required_errors node path (values_of (get "required" schema)))) (
      if has_properties schema
      then fields_errors part (fields_of (get "properties" schema))
          (or_true (get "additionalProperties" schema)) path node
      else some [])

abbrev pub list_errors :
    (Value → Value → String → Option (List String))
    → Option Value
    → String
    → List Value
    → Option (List String)
list_errors part none path vs = some []
list_errors part (some schema) path vs = items_errors part schema path 0 vs

-- What is checked of a node by its own kind.
unfoldable pub parts_errors :
    (Value → Value → String → Option (List String)) → Value → Value → String → Option (List String)
unfolding dict_errors items_errors get entries elements
parts_errors part (obj fs) schema path = dict_errors part (entries fs) schema path
parts_errors part (arr vs) schema path = list_errors part (get "items" schema) path (elements vs)
parts_errors part node schema path = some []

-- `ref.rsplit("/", 1)[-1]`, of the parts of a split
abbrev pub last_of : List String → String
last_of [] = ""
last_of (s ∷ []) = s
last_of (s ∷ t ∷ r) = last_of (t ∷ r)

-- The embedded schema is less deep.
abbrev pub schema_fuel : ℕ
schema_fuel = 10

-- Of the fuel that `validate_manifest` gives, something is always left.
abbrev pub or_no_errors : Option (List String) → List String
or_no_errors none = "out of fuel" ∷ []
or_no_errors (some es) = es

module _ (search : String → String → Bool) where
  unfoldable pub pattern_errors : Value → String → Option Value → List String
  unfolding show
  pattern_errors (str s) path (some p) =
      if search (show p) s then [] else (path <> (": pattern " <> (show p <> " no match"))) ∷ []
  pattern_errors node path p = []

  -- The checks of a schema that is no reference.
  unfoldable pub plain_errors :
      (Value → Value → String → Option (List String))
      → Value
      → Value
      → String
      → Option (List String)
  unfolding const_errors enum_errors type_mismatch pattern_errors parts_errors get show
  plain_errors part node schema path =
      both
        (some (
          const_errors node path (get "const" schema) ++ enum_errors node path (get "enum" schema)))
        (if type_mismatch node (get "type" schema)
          then some (
              (path
                <> (": type "
                    <> (show (or_true (get "type" schema)) <> (", got " <> type_name node))))
              ∷ [])
          else both (some (pattern_errors node path (get "pattern" schema)))
              (parts_errors part node schema path))

  abbrev pub target_errors :
      (Value → Value → String → Option (List String))
      → Value
      → String
      → String
      → Option Value
      → Option (List String)
  target_errors part node path ref none =
      some ((path <> (": unresolvable local $ref " <> ref)) ∷ [])
  target_errors part node path ref (some target) = part node target path

  -- A reference is followed where it is local, and passed over where it is not.
  abbrev pub ref_errors :
      (Value → Value → String → Option (List String))
      → Value
      → Value
      → String
      → String
      → Option String
      → Option (List String)
  ref_errors part root node path ref none = some []
  ref_errors part root node path ref (some rest) =
      target_errors part node path ref
        (lookup (last_of (split 47 ref)) (fields_of (get "$defs" root)))

  abbrev pub schema_errors :
      (Value → Value → String → Option (List String))
      → Value
      → Value
      → Value
      → String
      → Option Value
      → Option (List String)
  schema_errors part root node schema path none = plain_errors part node schema path
  schema_errors part root node schema path (some ref) =
      ref_errors part root node path (show ref) (strip_prefix "#/$defs/" (show ref))

  -- `_check`, with fuel for the depth of the schema
  unfoldable pub check : ℕ → Value → Value → Value → String → Option (List String)
  unfolding plain_errors last_of get show strip_prefix split lookup entries
  check zero root node schema path = none
  check (suc fuel) root node schema path =
      schema_errors (check fuel root) root node schema path (get "$ref" schema)

  unfoldable pub validate_manifest : Value → List String
  unfolding check embedded_schema
  validate_manifest manifest =
      or_no_errors (check schema_fuel embedded_schema manifest embedded_schema "$")
