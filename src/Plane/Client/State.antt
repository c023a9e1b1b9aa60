-- ===== src/Plane/Client/State.antt =====
-- The state of a `PlaneClient`, with the file of its spool.
use axor_wrap.Base.{ℕ, suc, String, ◌<>◌, Option, none, some, List, [], ◌∷◌, if◌then◌else◌}
use axor_wrap.Base.Dict.{Dict, insert}
use axor_wrap.Base.Text.{empty}
use axor_wrap.Value.{Value}
use axor_wrap.Plane.Session.State.{PlaneSession, Event}

-- A line of the spool's file, by what `json.loads` makes of it: a message, nothing as the line is
-- blank, or a `JSONDecodeError`. What `json.dumps` writes of a message reads back as the message.
pub data SpoolLine : Type 0 where
  message : Event → SpoolLine
  blank broken : SpoolLine

pub record PlaneClient : Type 0 where
  pub session : PlaneSession
  pub run_id : String
  pub spool_path : Option String
  pub ingest_key : Option String
  pub seq : ℕ
  -- the lines of the file at the spool's path; `none` is no file
  pub file : Option (List SpoolLine)

-- `self._run_id`, of the process's random suffix
abbrev pub run_id_or : String → String → Option String → String
run_id_or node_id suffix none = node_id <> ("-" <> suffix)
run_id_or node_id suffix (some id) = if empty id then node_id <> ("-" <> suffix) else id

-- A text that counts as given: `if self._spool_path`, `if self._ingest_key`.
abbrev pub given : Option String → Option String
given none = none
given (some s) = if empty s then none else some s

abbrev pub new_client :
    PlaneSession
    → Option String
    → String
    → Option String
    → Option String
    → Option (List SpoolLine)
    → PlaneClient
new_client session run_id suffix spool_path ingest_key file = record {
  session = session;
  run_id = run_id_or session.node_id suffix run_id;
  spool_path = given spool_path;
  ingest_key = given ingest_key;
  seq = 0;
  file = file;
}

abbrev with_bearer : Option String → Dict String → Dict String
unfolding insert
with_bearer none headers = headers
with_bearer (some key) headers = insert "Authorization" ("Bearer " <> key) headers

-- `_auth`
unfoldable pub auth : PlaneClient → Dict String → Dict String
unfolding insert
auth c extra = with_bearer c.ingest_key extra

-- One event as it is posted, with the time that `datetime.now` gave.
pub record Line : Type 0 where
  pub seq : ℕ
  pub node_id : String
  pub kind : String
  pub ts : String
  pub payload : Value

-- `_line`
unfoldable pub line : (ℕ → String) → Event → PlaneClient → Line × PlaneClient
line now event c = (
  record {
    seq = c.seq;
    node_id = c.session.node_id;
    kind = event.kind;
    ts = now c.seq;
    payload = event.payload;
  },
  record c { seq = suc c.seq },
)

unfoldable pub lines : (ℕ → String) → List Event → PlaneClient → List Line × PlaneClient
unfolding line
lines now [] c = ([], c)
lines now (event ∷ events) c =
    let (l, c1) = line now event c in let (ls, c2) = lines now events c1 in (l ∷ ls, c2)
