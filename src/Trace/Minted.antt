-- ===== src/Trace/Minted.antt =====
-- trace.py, `_Ledger`: the ids that the ledger knows.
use axor_wrap.Base.{
  String, Bool, true, ◌||◌, List, [], ◌∷◌, ◌++◌, map, ◌≡◌, refl, ◌∙◌, ap, contains, contains-append,
  arith, ◌==◌, eq_refl,
}
use axor_wrap.Value.{Value}
use axor_wrap.Governor.{Governor}
use axor_wrap.Trace.Fields.{expand_path, strip_result, normalize}
use axor_wrap.Trace.Ledger.{
  Ledger, Entry, Provenance, mint, mint_tainted, mint_argument, mint_read, mint_found,
  mint_patterns,
}

abbrev pub ids : Ledger → List String
ids l = map (λ e. e.value_id) l.values

-- The ledger holds an entry of the id.
abbrev pub Known : Ledger → String → Type 0
Known l id = contains (ids l) id ≡ true

abbrev pub Grows : Ledger → Ledger → Type 0
Grows l l' = (id : String) → Known l id → Known l' id

abbrev pub AllKnown : Ledger → List String → Type 0
AllKnown l [] = Unit
AllKnown l (id ∷ rest) = Known l id × AllKnown l rest

abbrev pub Minted : Ledger → String × Ledger → Type 0
Minted l p = Grows l p.1 × Known p.1 p.0

abbrev pub AllMinted : Ledger → List String × Ledger → Type 0
AllMinted l p = Grows l p.1 × AllKnown p.1 p.0

map-snoc :
    (e : Entry) (es : List Entry)
    → map (λ x. x.value_id) (es ++ e ∷ []) ≡ map (λ x. x.value_id) es ++ e.value_id ∷ []
map-snoc e [] = refl
map-snoc e (x ∷ es) = ap (λ l. x.value_id ∷ l) (map-snoc e es)

contains-snoc :
    (xs : List String) (x y : String) → contains (xs ++ x ∷ []) y ≡ (contains xs y || (y == x))
contains-snoc xs x y = contains-append xs (x ∷ []) y ∙ ground arith

snoc-Minted :
    (l l' : Ledger) (e : Entry) → l'.values ≡ l.values ++ e ∷ [] → Minted l (e.value_id, l')
snoc-Minted l l' e p = (λ id k. old id k, new)
  where
    here : (id : String) → contains (ids l') id ≡ (contains (ids l) id || (id == e.value_id))
    here id =
        ap (λ vs. contains (map (λ x. x.value_id) vs) id) p
        ∙ (ap (λ xs. contains xs id) (map-snoc e l.values) ∙ contains-snoc (ids l) e.value_id id)

    old : (id : String) → contains (ids l) id ≡ true → contains (ids l') id ≡ true
    old id k = here id ∙ rw k refl

    new : contains (ids l') e.value_id ≡ true
    new = here e.value_id ∙ ground (arith, eq_refl e.value_id)

pub AllKnown-Grows :
    (l l' : Ledger) (xs : List String) → Grows l l' → AllKnown l xs → AllKnown l' xs
AllKnown-Grows l l' [] g k = tt
AllKnown-Grows l l' (x ∷ xs) g (k, ks) = (g x k, AllKnown-Grows l l' xs g ks)

AllKnown-append :
    (l : Ledger) (xs ys : List String) → AllKnown l xs → AllKnown l ys → AllKnown l (xs ++ ys)
AllKnown-append l [] ys k m = m
AllKnown-append l (x ∷ xs) ys (k, ks) m = (k, AllKnown-append l xs ys ks m)

module _ (G : Governor) where
  mint_tainted-Minted :
      (tool name : String) (value : Value) (s : Bool) (taints : List String) (l : Ledger)
      → Minted l (mint_tainted G tool name value s taints l)
  unfolding mint_tainted mint
  mint_tainted-Minted tool name value s [] l =
      snoc-Minted l (mint_tainted G tool name value s [] l).1 _ refl
  mint_tainted-Minted tool name value s (t ∷ ts) l =
      snoc-Minted l (mint_tainted G tool name value s (t ∷ ts) l).1 _ refl

  pub mint_argument-Minted :
      (tool name : String) (value : Value) (ref : Provenance) (l : Ledger)
      → Minted l (mint_argument G tool name value ref l)
  unfolding mint_argument
  mint_argument-Minted tool name value ref l =
      mint_tainted-Minted tool name value ref.is_sensitive ref.taints l

  mint_read-Minted :
      (tool path : String) (value : Value) (s : Bool) (l : Ledger)
      → Minted l (mint_read G tool path value s l)
  unfolding mint_read mint
  mint_read-Minted tool path value s l = snoc-Minted l (mint_read G tool path value s l).1 _ refl

  mint_found-AllMinted :
      (tool : String) (s : Bool) (found : List (String × Value)) (l : Ledger)
      → AllMinted l (mint_found G tool s found l)
  unfolding mint_found
  mint_found-AllMinted tool s [] l = (λ id k. k, tt)
  mint_found-AllMinted tool s ((path, value) ∷ rest) l =
      let minted = mint_read G tool path value s l in
      let (g, k) = mint_read-Minted tool path value s l in
      let (g2, ks) = mint_found-AllMinted tool s rest minted.1 in
      (λ id x. g2 id (g id x), (g2 minted.0 k, ks))

  pub mint_patterns-AllMinted :
      (tool : String) (hidden : List String) (result : Value) (patterns : List String) (l : Ledger)
      → AllMinted l (mint_patterns G tool hidden result patterns l)
  unfolding mint_patterns
  mint_patterns-AllMinted tool hidden result [] l = (λ id k. k, tt)
  mint_patterns-AllMinted tool hidden result (pattern ∷ rest) l =
      let found = expand_path result (strip_result pattern) in
      let s = contains hidden (normalize pattern) in
      let minted = mint_found G tool s found l in
      let (g, ks) = mint_found-AllMinted tool s found l in
      let others = mint_patterns G tool hidden result rest minted.1 in
      let (g2, ms) = mint_patterns-AllMinted tool hidden result rest minted.1 in
      (
        λ id x. g2 id (g id x),
        AllKnown-append others.1 minted.0 others.0 (AllKnown-Grows minted.1 others.1 minted.0 g2 ks)
            ms,
      )
