-- ===== src/Roles.antt =====
-- axor_wrap/roles.py: `infer_effect`, a guess at the class of a tool's effect.
pub mod Tokens
pub mod Classes
use axor_wrap.Base.{
  String, ◌<>◌, Bool, true, false, ◌&&◌, ◌||◌, Option, none, some, List, [], ◌∷◌, ◌++◌, ◌==◌,
  contains, if◌then◌else◌,
}
use axor_wrap.Base.Dict.{Dict, keys, lookup}
use axor_wrap.Base.Sorting.{sorted}
use axor_wrap.Base.Text.{repr}
use axor_wrap.Value.{Value, obj, entries}
use axor_wrap.Detect.{DetectedTool}
use axor_wrap.Roles.Tokens.{tokens}

abbrev pub exec_tokens : List String
exec_tokens =
    "shell" ∷ "exec" ∷ "execute" ∷ "run" ∷ "eval" ∷ "bash" ∷ "sh" ∷ "subprocess" ∷ "command" ∷ "cmd"
    ∷ "terminal" ∷ "spawn" ∷ []

export_tokens : List String
export_tokens =
    "send" ∷ "post" ∷ "publish" ∷ "upload" ∷ "slack" ∷ "notify" ∷ "tweet" ∷ "share" ∷ "broadcast"
    ∷ "submit" ∷ "transfer" ∷ "pay" ∷ "sms" ∷ "dm" ∷ "forward" ∷ "reply" ∷ []

write_tokens : List String
write_tokens =
    "write" ∷ "update" ∷ "create" ∷ "insert" ∷ "delete" ∷ "remove" ∷ "set" ∷ "save" ∷ "edit"
    ∷ "append" ∷ "add" ∷ "move" ∷ "rename" ∷ "mkdir" ∷ "put" ∷ "patch" ∷ []

read_tokens : List String
read_tokens =
    "read" ∷ "get" ∷ "search" ∷ "list" ∷ "fetch" ∷ "find" ∷ "load" ∷ "lookup" ∷ "view" ∷ "browse"
    ∷ "scrape" ∷ "download" ∷ "query" ∷ "inbox" ∷ "check" ∷ "ls" ∷ "cat" ∷ "crawl" ∷ "retrieve" ∷ []

sql_tokens : List String
sql_tokens = "sql" ∷ "query" ∷ "db" ∷ "database" ∷ []

sql_write_tokens : List String
sql_write_tokens = "insert" ∷ "update" ∷ "delete" ∷ "drop" ∷ "alter" ∷ "write" ∷ []

driving_arg_order : List String
driving_arg_order =
    "to" ∷ "recipient" ∷ "recipients" ∷ "url" ∷ "channel" ∷ "path" ∷ "command" ∷ "cmd" ∷ "address"
    ∷ "destination" ∷ "target" ∷ "email" ∷ "file_path" ∷ []

export_carrier_args : List String
export_carrier_args =
    "to" ∷ "recipient" ∷ "recipients" ∷ "channel" ∷ "url" ∷ "address" ∷ "destination" ∷ "email" ∷ []

untrusted_hints : List String
untrusted_hints =
    "web" ∷ "search" ∷ "fetch" ∷ "http" ∷ "https" ∷ "browse" ∷ "scrape" ∷ "inbox" ∷ "mail" ∷ "email"
    ∷ "download" ∷ "crawl" ∷ "url" ∷ "feed" ∷ "news" ∷ "messages" ∷ "page" ∷ []

abbrev pub coarse_untrusted_field : String
coarse_untrusted_field = "result.*"

pub record EffectGuess : Type 0 where
  pub default_class : String
  pub confidence : String
  pub reason : String
  pub driving_args : List String
  pub untrusted_fields : List String

-- What `_classify` returns: a class, a confidence and a reason.
pub record Classified : Type 0 where
  pub cls : String
  pub confidence : String
  pub reason : String

-- `a & b` of two sets
unfoldable pub common : List String → List String → List String
common [] b = []
common (x ∷ a) b = let rest = common a b in if contains b x then x ∷ rest else rest

abbrev pub any_of : List String → Bool
any_of [] = false
any_of (x ∷ xs) = true

-- `sorted(hit)[0]`
abbrev pub first_of : List String → String
first_of [] = ""
first_of (x ∷ xs) = x

least : List String → String
unfolding sorted
least hit = first_of (sorted hit)

token_reason : String → List String → String → String
unfolding least repr
token_reason source hit cls = source <> (" token " <> (repr (least hit) <> (" → " <> cls)))

export_guess : String → List String → List String → Classified
unfolding least token_reason repr
export_guess source hit carriers =
    if any_of carriers
    then record {
      cls = "EXPORT";
      confidence = "high";
      reason =
          source
          <> (" token "
              <> (repr (least hit)
                  <> (" + carrier arg " <> (repr (least carriers) <> " → EXPORT"))));
    }
    else record { cls = "EXPORT"; confidence = "medium"; reason = token_reason source hit "EXPORT" }

unfoldable pub classify : List String → List String → List String → String → Option Classified
unfolding common exec_tokens export_tokens write_tokens read_tokens sql_tokens sql_write_tokens
    export_carrier_args token_reason export_guess
classify names described arg_names source =
    let exec = common names exec_tokens in
    let exported = common names export_tokens in
    let written = common names write_tokens in
    let reads = common names read_tokens in
    if any_of exec
    then some
        (record { cls = "EXEC"; confidence = "high"; reason = token_reason source exec "EXEC" })
    else if any_of (common names sql_tokens)
        && any_of (common (names ++ described) sql_write_tokens)
    then some (record {
      cls = "EXEC";
      confidence = "medium";
      reason = source <> " suggests SQL with write verbs → EXEC";
    })
    else if any_of exported
    then some (export_guess source exported (common arg_names export_carrier_args))
    else if any_of written
    then some (record {
      cls = "WRITE";
      confidence = "high";
      reason = token_reason source written "WRITE";
    })
    else if any_of reads
    then some
        (record { cls = "READ"; confidence = "high"; reason = token_reason source reads "READ" })
    else none

abbrev names_in : Option Value → List String
names_in (some (obj fs)) = keys (entries fs)
names_in v = []

-- `_arg_names`
unfoldable pub arg_names_of : DetectedTool → List String
unfolding lookup entries
arg_names_of tool = names_in (lookup "properties" tool.args_schema)

abbrev weaker : Classified → Classified
weaker c = record c { confidence = if c.confidence == "high" then "medium" else "low" }

abbrev or_described : Option Classified → Option Classified → Option Classified
or_described (some c) d = some c
or_described none none = none
or_described none (some d) = some (weaker d)

-- The guess from the name, or else the weaker one from the description.
unfoldable pub classified : DetectedTool → Option Classified
unfolding classify tokens arg_names_of
classified tool =
    let described = tokens tool.description in
    let args = arg_names_of tool in
    or_described (classify (tokens tool.id) described args "name")
      (classify described described args "description")

abbrev guess_of : Option Classified → List String → Bool → EffectGuess
guess_of none driving hinted = record {
  default_class = "UNKNOWN";
  confidence = "low";
  reason = "no heuristic matched — classify manually in the config builder";
  driving_args = driving;
  untrusted_fields = [];
}
guess_of (some c) driving hinted = record {
  default_class = c.cls;
  confidence = c.confidence;
  reason = c.reason;
  driving_args = driving;
  untrusted_fields = if (c.cls == "READ") && hinted then coarse_untrusted_field ∷ [] else [];
}

abbrev or_command : List String → List String
or_command [] = "command" ∷ []
or_command (a ∷ as_) = a ∷ as_

abbrev implicit_guess : List String → EffectGuess
implicit_guess driving = record {
  default_class = "EXEC";
  confidence = "high";
  reason = "implicit subprocess/os.system usage";
  driving_args = or_command driving;
  untrusted_fields = [];
}

unfoldable pub driving_of : DetectedTool → List String
unfolding common driving_arg_order arg_names_of
driving_of tool = common driving_arg_order (arg_names_of tool)

abbrev pub is_implicit_shell : DetectedTool → Bool
is_implicit_shell tool = (tool.framework == "implicit") && (tool.id == "shell")

unfoldable pub is_hinted : DetectedTool → Bool
unfolding common tokens untrusted_hints
is_hinted tool = any_of (common (tokens tool.id ++ tokens tool.description) untrusted_hints)

unfoldable pub infer_effect : DetectedTool → EffectGuess
unfolding driving_of classified is_hinted
infer_effect tool =
    if is_implicit_shell tool
    then implicit_guess (driving_of tool)
    else guess_of (classified tool) (driving_of tool) (is_hinted tool)
