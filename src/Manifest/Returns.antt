-- ===== src/Manifest/Returns.antt =====
-- manifest.py, `_check`: it ends on every node, with fuel for the depth of the schema.
use axor_wrap.Base.{
  ℕ, zero, suc, String, Bool, true, false, ◌&&◌, Option, none, some, List, [], ◌∷◌, ◌++◌, ◌≡◌, refl,
  arith, if◌then◌else◌, and-true_left, and-true_right,
}
use axor_wrap.Base.Dict.{Dict, lookup}
use axor_wrap.Base.Text.{strip_prefix}
use axor_wrap.Value.{Value, null, bool, int, str, arr, obj, entries, elements, get}
use axor_wrap.Value.Show.{show}
use axor_wrap.Manifest.Schema.{embedded_schema}
use axor_wrap.Manifest.Check.{
  both, fields_of, or_true, field_errors, fields_errors, items_errors, list_errors, parts_errors,
  plain_errors, ref_errors, schema_errors, has_properties, type_mismatch, check, schema_fuel,
}

-- The parts of a schema, of a depth below the bound, refer to no definition of the schema itself.
is_none : Option String → Bool
is_none none = true
is_none (some s) = false

all_parts : (Value → Bool) → Dict Value → Bool
all_parts p [] = true
all_parts p ((k, v) ∷ d) = p v && all_parts p d

if_dict : (Value → Bool) → Value → Bool
if_dict p (obj fs) = p (obj fs)
if_dict p v = true

if_given : (Value → Bool) → Option Value → Bool
if_given p none = true
if_given p (some v) = p v

shallow_parts : (Value → Bool) → Value → Option Value → Bool
unfolding all_parts if_dict if_given is_none get show strip_prefix entries
shallow_parts p schema none =
    all_parts p (fields_of (get "properties" schema))
    && (if_dict p (or_true (get "additionalProperties" schema)) && if_given p (get "items" schema))
shallow_parts p schema (some ref) = is_none (strip_prefix "#/$defs/" (show ref))

shallow : ℕ → Value → Bool
unfolding shallow_parts get
shallow zero schema = false
shallow (suc d) schema = shallow_parts (shallow d) schema (get "$ref" schema)

abbrev pub Returns : Option (List String) → Type 0
Returns o = (es : List String) × (o ≡ some es)

both-Returns : (a b : Option (List String)) → Returns a → Returns b → Returns (both a b)
both-Returns a b (es, p) (fs, q) = (es ++ fs, rw (p, q))

abbrev PartReturns : (Value → Bool) → (Value → Value → String → Option (List String)) → Type 0
PartReturns p part =
    (node schema : Value) (path : String) → p schema ≡ true → Returns (part node schema path)

module _ (p : Value → Bool) (part : Value → Value → String → Option (List String))
    (returns : PartReturns p part) where
  field-Returns :
      (o : Option Value) (additional : Value) (path key : String) (value : Value)
      → if_given p o ≡ true
      → if_dict p additional ≡ true
      → Returns (field_errors part o additional path key value)
  unfolding field_errors if_given if_dict
  field-Returns (some schema) additional path key value h k = returns value schema _ h
  field-Returns none (bool false) path key value h k = (_, refl)
  field-Returns none (bool true) path key value h k = (_, refl)
  field-Returns none (obj fs) path key value h k = returns value (obj fs) _ k
  field-Returns none (arr vs) path key value h k = (_, refl)
  field-Returns none (str s) path key value h k = (_, refl)
  field-Returns none (int n) path key value h k = (_, refl)
  field-Returns none null path key value h k = (_, refl)

  lookup-if_given :
      (k : String) (d : Dict Value) → all_parts p d ≡ true → if_given p (lookup k d) ≡ true
  unfolding all_parts if_given lookup
  lookup-if_given k [] h = refl
  lookup-if_given k ((j, v) ∷ d) h = ground (arith, lookup-if_given k d)

  fields-Returns :
      (properties : Dict Value) (additional : Value) (path : String) (node : Dict Value)
      → all_parts p properties ≡ true
      → if_dict p additional ≡ true
      → Returns (fields_errors part properties additional path node)
  unfolding fields_errors
  fields-Returns properties additional path [] h k = ([], refl)
  fields-Returns properties additional path ((key, value) ∷ node) h k =
      both-Returns _ _
        (field-Returns (lookup key properties) additional path key value
          (lookup-if_given key properties h) k)
        (fields-Returns properties additional path node h k)

  items-Returns :
      (schema : Value) (path : String) (i : ℕ) (vs : List Value)
      → p schema ≡ true
      → Returns (items_errors part schema path i vs)
  unfolding items_errors
  items-Returns schema path i [] h = ([], refl)
  items-Returns schema path i (v ∷ vs) h =
      both-Returns _ _ (returns v schema _ h) (items-Returns schema path (suc i) vs h)

  list-Returns :
      (o : Option Value) (path : String) (vs : List Value)
      → if_given p o ≡ true
      → Returns (list_errors part o path vs)
  unfolding if_given
  list-Returns none path vs h = ([], refl)
  list-Returns (some schema) path vs h = items-Returns schema path 0 vs h

  if-Returns :
      (b : Bool) (o : Option (List String)) → Returns o → Returns (if b then o else some [])
  if-Returns true o r = r
  if-Returns false o r = ([], refl)

  parts-Returns :
      (node schema : Value) (path : String)
      → shallow_parts p schema none ≡ true
      → Returns (parts_errors part node schema path)
  unfolding parts_errors shallow_parts
  parts-Returns (obj fs) schema path h =
      let (props, others) = split_and _ _ h in
      let (additional, listed) = split_and _ _ others in
      both-Returns _ _ (_, refl)
        (if-Returns (has_properties schema) _
          (fields-Returns _ _ path (entries fs) props additional))
    where
      split_and : (a b : Bool) → (a && b) ≡ true → (a ≡ true) × (b ≡ true)
      split_and a b h = (and-true_left a b h, and-true_right a b h)
  parts-Returns (arr vs) schema path h =
      list-Returns (get "items" schema) path (elements vs)
        (and-true_right _ _ (and-true_right _ _ h))
  parts-Returns (str s) schema path h = ([], refl)
  parts-Returns (int n) schema path h = ([], refl)
  parts-Returns (bool b) schema path h = ([], refl)
  parts-Returns null schema path h = ([], refl)

  module _ (search : String → String → Bool) (root : Value) where
    plain-Returns :
        (node schema : Value) (path : String)
        → shallow_parts p schema none ≡ true
        → Returns (plain_errors search part node schema path)
    unfolding plain_errors
    plain-Returns node schema path h =
        both-Returns _ _ (_, refl)
          (by_type (type_mismatch node (get "type" schema)) _ _
            (both-Returns _ _ (_, refl) (parts-Returns node schema path h)))
      where
        by_type :
            (b : Bool) (es : List String) (o : Option (List String))
            → Returns o
            → Returns (if b then some es else o)
        by_type true es o r = (es, refl)
        by_type false es o r = r

    refs-Returns :
        (node : Value) (path ref : String) (o : Option String)
        → is_none o ≡ true
        → Returns (ref_errors search part root node path ref o)
    unfolding is_none
    refs-Returns node path ref none h = ([], refl)
    refs-Returns node path ref (some rest) h = absurd (cc)

    schema-Returns :
        (node schema : Value) (path : String) (o : Option Value)
        → shallow_parts p schema o ≡ true
        → Returns (schema_errors search part root node schema path o)
    unfolding shallow_parts
    schema-Returns node schema path none h = plain-Returns node schema path h
    schema-Returns node schema path (some ref) h =
        refs-Returns node path (show ref) (strip_prefix "#/$defs/" (show ref)) h

module _ (search : String → String → Bool) where
  check-Returns : (d : ℕ) (root : Value) → PartReturns (shallow d) (check search d root)
  unfolding check shallow
  check-Returns zero root node schema path h = absurd (cc)
  check-Returns (suc d) root node schema path h =
      schema-Returns (shallow d) (check search d root) (check-Returns d root) search root node
        schema path (get "$ref" schema) h

  embedded-shallow : shallow schema_fuel embedded_schema ≡ true
  unfolding shallow embedded_schema
  embedded-shallow = refl

  -- The validator ends on every value: the fuel is enough for the embedded schema.
  pub check-returns :
      (node : Value)
      → (es : List String) × (check search schema_fuel embedded_schema node embedded_schema "$"
          ≡ some es)
  check-returns node =
      check-Returns schema_fuel embedded_schema node embedded_schema "$" embedded-shallow
