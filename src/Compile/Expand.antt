-- ===== src/Compile/Expand.antt =====
-- compile.py, `_expand`: no reference to an input is left in the list that it gives.
use axor_wrap.Base.{String, Option, none, some, List, [], ◌∷◌, ◌++◌, ◌≡◌, refl, subst, arith}
use axor_wrap.Base.Dict.{Dict}
use axor_wrap.Errors.{ok, bind-ok, ◌>>=◌}
use axor_wrap.Value.{Value}
use axor_wrap.Compile.Manifests.{
  reference, spliced, find_input, spliced_or_refused, resolve_reference, expand,
}

-- A list without references to inputs.
abbrev pub Resolved : List Value → Type 0
Resolved [] = Unit
Resolved (v ∷ vs) = (reference v ≡ none) × Resolved vs

-- Inputs whose own values are no references.
abbrev pub ResolvedInputs : Option (Dict Value) → Type 0
ResolvedInputs inputs =
    (k : String) (v : Value) → find_input inputs k ≡ some v → Resolved (spliced v)

Resolved-append : (xs ys : List Value) → Resolved xs → Resolved ys → Resolved (xs ++ ys)
Resolved-append [] ys p q = q
Resolved-append (x ∷ xs) ys (h, p) q = (h, Resolved-append xs ys p q)

Resolved-of_ok : (xs ys : List Value) → Resolved xs → ok xs ≡ ok ys → Resolved ys
Resolved-of_ok xs ys p e = subst Resolved (cc) p

found-Resolved :
    (inputs : Option (Dict Value)) (key : String) (found : Option Value) (out : List Value)
    → ResolvedInputs inputs
    → find_input inputs key ≡ found
    → spliced_or_refused found ≡ ok out
    → Resolved out
found-Resolved inputs key none out clean e h = ground arith
found-Resolved inputs key (some v) out clean e h = Resolved-of_ok _ out (clean key v e) h

item-Resolved :
    (inputs : Option (Dict Value)) (item : Value) (r : Option String) (out : List Value)
    → ResolvedInputs inputs
    → reference item ≡ r
    → resolve_reference inputs item r ≡ ok out
    → Resolved out
item-Resolved inputs item none out clean e h = Resolved-of_ok (item ∷ []) out (e, tt) h
item-Resolved inputs item (some key) out clean e h =
    found-Resolved inputs key (find_input inputs key) out clean refl h

-- If the inputs themselves hold no references, what `_expand` gives holds none.
pub expand-Resolved :
    (inputs : Option (Dict Value)) (given out : List Value)
    → ResolvedInputs inputs
    → expand inputs given ≡ ok out
    → Resolved out
unfolding expand
expand-Resolved inputs [] out clean h = Resolved-of_ok [] out tt h
expand-Resolved inputs (item ∷ rest) out clean h =
    let (here, found, h1) =
      bind-ok (resolve_reference inputs item (reference item))
        (λ here. expand inputs rest >>= λ later. ok (here ++ later)) out h in
    let (later, rest_ok, h2) = bind-ok (expand inputs rest) (λ later. ok (here ++ later)) out h1 in
    Resolved-of_ok (here ++ later) out
      (Resolved-append here later (item-Resolved inputs item (reference item) here clean refl found)
        (expand-Resolved inputs rest later clean rest_ok))
      h2
