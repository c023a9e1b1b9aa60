-- ===== src/Trace/Fields.antt =====
-- trace.py: the paths of untrusted fields (`_strip_result`, `_normalize`, `_expand`).
use axor_wrap.Base.{
  ℕ, zero, suc, String, ◌<>◌, Bool, true, false, ◌&&◌, Option, none, some, List, [], ◌∷◌, ◌++◌, map,
  ◌==◌, leb, nat_eq, if◌then◌else◌, ◌≡◌, refl,
}
use axor_wrap.Base.Text.{empty, cons_char, decimal, strip_prefix, split}
use axor_wrap.Value.{Value, arr, str, int, bool, elements, get}
use Prim.Native.Char.{Char, code}
use mathlib.Core.Option
use Prim.Native.String.{String as Text}

abbrev pub is_some : {A : Type 0} → Option A → Bool
is_some none = false
is_some (some a) = true

abbrev pub or_zero : Option ℕ → ℕ
or_zero none = 0
or_zero (some n) = n

abbrev pub or_itself : String → Option String → String
or_itself path none = path
or_itself path (some rest) = rest

-- `_strip_result`
unfoldable pub strip_result : String → String
unfolding strip_prefix
strip_result path = or_itself path (strip_prefix "result." path)

abbrev pub is_digit : Char → Bool
is_digit c = leb 48 (code c) && leb (code c) 57

-- How many characters of the text are digits and the closing bracket behind them.
unfoldable pub index_length : String → Option ℕ
index_length Text.[] = none
index_length (Text.◌∷◌ c s) =
    let rest = Option.map (λ n. suc n) (index_length s) in
    if is_digit c then rest else if nat_eq (code c) 93 then some 1 else none

-- How many of the following characters belong to a match that is already replaced.
abbrev pub skip_after : ℕ → Char → String → ℕ
skip_after (suc n) c s = n
skip_after zero c s = if nat_eq (code c) 91 then or_zero (index_length s) else 0

abbrev pub replacement : ℕ → Char → String → String → String
replacement (suc n) c s rest = rest
replacement zero c s rest =
    if nat_eq (code c) 91 && is_some (index_length s) then "[]" <> rest else cons_char c rest

-- `re.sub(r"\[\d*\]", "[]", s)`, behind a match of which `skip` characters are left.
unfoldable pub bare_indices : ℕ → String → String
unfolding index_length
bare_indices skip Text.[] = ""
bare_indices skip (Text.◌∷◌ c s) =
    let rest = bare_indices (skip_after skip c s) s in replacement skip c s rest

-- `_normalize`
unfoldable pub normalize : String → String
unfolding bare_indices strip_result
normalize path = bare_indices 0 (strip_result path)

-- The heads that `path.partition(".")` gives, one after another, until the path is empty.
unfoldable pub segments : List String → List String
segments [] = []
segments (s ∷ []) = if empty s then [] else s ∷ []
segments (s ∷ t ∷ r) = s ∷ segments (t ∷ r)

-- `head[:-2]` of a head that ends in "[]"
unfoldable pub strip_brackets : String → Option String
strip_brackets Text.[] = none
strip_brackets (Text.◌∷◌ c s) =
    let rest = Option.map (cons_char c) (strip_brackets s) in
    if (cons_char c s) == "[]" then some "" else rest

abbrev pub scalar : Value → List (String × Value)
scalar (str s) = ("", str s) ∷ []
scalar (int n) = ("", int n) ∷ []
scalar (bool b) = ("", bool b) ∷ []
scalar v = []

abbrev pub list_items : Option Value → List Value
list_items (some (arr vs)) = elements vs
list_items v = []

abbrev pub below : String → String × Value → String × Value
below at (sub, value) = (if empty sub then at else at <> ("." <> sub), value)

-- The loop over the items of a list, by the index of the first of them.
unfoldable pub each_item :
    (Value → List (String × Value)) → String → ℕ → List Value → List (String × Value)
unfolding decimal
each_item inner key i [] = []
each_item inner key i (v ∷ vs) =
    map (below (key <> ("[" <> (decimal i <> "]")))) (inner v) ++ each_item inner key (suc i) vs

-- A loop that returns in its first round.
abbrev pub first_of : String → List (String × Value) → List (String × Value)
first_of head [] = []
first_of head (found ∷ rest) = below head found ∷ []

abbrev pub member_paths :
    (Value → List (String × Value)) → String → Option Value → List (String × Value)
member_paths inner head none = []
member_paths inner head (some v) = first_of head (inner v)

abbrev pub segment_paths :
    (Value → List (String × Value)) → String → Option String → Value → List (String × Value)
segment_paths inner head (some key) node = each_item inner key 0 (list_items (get key node))
segment_paths inner head none node = member_paths inner head (get head node)

unfoldable pub paths_in : List String → Value → List (String × Value)
unfolding each_item strip_brackets get elements
paths_in [] node = scalar node
paths_in (head ∷ rest) node = segment_paths (paths_in rest) head (strip_brackets head) node

-- `_expand`: the values at a path, each with its concrete path.
unfoldable pub expand_path : Value → String → List (String × Value)
unfolding paths_in segments split
expand_path node path = paths_in (segments (split 46 path)) node

normalize_test : normalize "result.a[12].b[].c[x]" ≡ "a[].b[].c[x]"
unfolding normalize
normalize_test = refl
