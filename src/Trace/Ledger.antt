-- ===== src/Trace/Ledger.antt =====
-- trace.py: the value ledger (`_Ledger`), `content_hash`, `_preview`, `_mint_untrusted_fields`.
use axor_wrap.Base.{
  ℕ, zero, suc, String, ◌<>◌, Bool, true, false, Option, none, some, List, [], ◌∷◌, ◌++◌, map,
  contains, if◌then◌else◌,
}
use axor_wrap.Base.Text.{decimal, cons_char}
use axor_wrap.Value.{Value, str}
use axor_wrap.Value.Show.{repr}
use axor_wrap.Governor.{Governor}
use axor_wrap.Trace.Fields.{expand_path, strip_result, normalize}
use Prim.Native.String.{String as Text}

abbrev pub untrusted_derived : String
untrusted_derived = "untrusted_derived"

abbrev pub prompt_given : String
prompt_given = "prompt_given"

abbrev pub sensitive_label : String
sensitive_label = "sensitive"

abbrev pub redacted_preview : String
redacted_preview = "[redacted]"

-- `text[:n]`
unfoldable pub text_take : ℕ → String → String
text_take zero s = ""
text_take (suc n) Text.[] = ""
text_take (suc n) (Text.◌∷◌ c s) = cons_char c (text_take n s)

abbrev pub whole_preview : Value → String
whole_preview (str s) = s
whole_preview v = repr v

unfoldable pub preview_of : Value → String
unfolding text_take repr
preview_of v = text_take 120 (whole_preview v)

pub record Origin : Type 0 where
  pub origin_kind : String
  pub origin_ref : String

pub record Entry : Type 0 where
  pub value_id : String
  pub canonical_value_hash : String
  pub labels : List String
  pub sources : List Origin
  pub preview : String
  pub decision_value : Option Value
  pub transformations : List String
  pub derived_from : List String

pub record Ledger : Type 0 where
  pub values : List Entry
  pub counter : ℕ
  pub untrusted_ids : List String

abbrev pub new_ledger : Ledger
new_ledger = record { values = []; counter = 0; untrusted_ids = [] }

-- What the kernel says of one argument: `ref.get("sources", [])` and `ref.get("sensitive")`.
pub record Provenance : Type 0 where
  pub taints : List String
  pub is_sensitive : Bool

module _ (G : Governor) where
  unfoldable pub content_hash : Value → String
  content_hash v = "sha256:" <> Governor.sha256_hex G (Governor.canonicalize G v)

  abbrev pub entry :
      String → Value → List String → List Origin → Bool → List String → List String → Entry
  entry id value labels sources is_sensitive transformations derived_from = record {
    value_id = id;
    canonical_value_hash = content_hash value;
    labels = labels;
    sources = sources;
    preview = if is_sensitive then redacted_preview else preview_of value;
    decision_value = if is_sensitive then none else some value;
    transformations = transformations;
    derived_from = derived_from;
  }

  -- `_mint`: the id, and the ledger with the new entry at its end.
  unfoldable pub mint :
      String
      → Value
      → List String
      → List Origin
      → Bool
      → List String
      → List String
      → Ledger
      → String × Ledger
  unfolding content_hash preview_of decimal
  mint hint value labels sources is_sensitive transformations derived_from ledger =
      let n = suc ledger.counter in
      let id = "v_" <> (hint <> ("_" <> decimal n)) in
      let new = entry id value labels sources is_sensitive transformations derived_from in
      (
        id,
        record {
          values = ledger.values ++ new ∷ [];
          counter = n;
          untrusted_ids =
              if contains labels untrusted_derived
              then ledger.untrusted_ids ++ id ∷ []
              else ledger.untrusted_ids;
        },
      )

  abbrev pub untrusted_labels : Bool → List String
  untrusted_labels true = untrusted_derived ∷ sensitive_label ∷ []
  untrusted_labels false = untrusted_derived ∷ []

  -- By the taints of the argument.
  unfoldable pub mint_tainted :
      String → String → Value → Bool → List String → Ledger → String × Ledger
  unfolding mint
  mint_tainted tool name value is_sensitive [] ledger =
      mint "const" value (prompt_given ∷ [])
        (record { origin_kind = "constant"; origin_ref = "arg:" <> (tool <> (":" <> name)) } ∷ [])
        is_sensitive [] [] ledger
  mint_tainted tool name value is_sensitive (t ∷ ts) ledger =
      mint "model" value (untrusted_labels is_sensitive)
        (map (λ s. record { origin_kind = "external_read"; origin_ref = "taint:" <> s }) (t ∷ ts))
        is_sensitive ("model_extraction" ∷ []) ledger.untrusted_ids ledger

  unfoldable pub mint_argument : String → String → Value → Provenance → Ledger → String × Ledger
  unfolding mint_tainted
  mint_argument tool name value ref ledger =
      mint_tainted tool name value ref.is_sensitive ref.taints ledger

  unfoldable pub mint_read : String → String → Value → Bool → Ledger → String × Ledger
  unfolding mint
  mint_read tool path value is_sensitive =
      mint "ext" value (untrusted_labels is_sensitive)
        (record {
          origin_kind = "external_read";
          origin_ref = "tool_result:" <> (tool <> (":" <> path));
        }
          ∷ [])
        is_sensitive [] []

  -- The values at one pattern.
  unfoldable pub mint_found : String → Bool → List (String × Value) → Ledger → List String × Ledger
  unfolding mint_read
  mint_found tool is_sensitive [] ledger = ([], ledger)
  mint_found tool is_sensitive ((path, value) ∷ rest) ledger =
      let (id, l) = mint_read tool path value is_sensitive ledger in
      let (ids, l') = mint_found tool is_sensitive rest l in (id ∷ ids, l')

  unfoldable pub mint_patterns :
      String → List String → Value → List String → Ledger → List String × Ledger
  unfolding mint_found expand_path strip_result normalize
  mint_patterns tool sensitive_patterns result [] ledger = ([], ledger)
  mint_patterns tool sensitive_patterns result (pattern ∷ rest) ledger =
      let (ids, l) =
        mint_found tool (contains sensitive_patterns (normalize pattern))
          (expand_path result (strip_result pattern)) ledger in
      let (others, l') = mint_patterns tool sensitive_patterns result rest l in (ids ++ others, l')
