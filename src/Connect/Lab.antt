-- ===== src/Connect/Lab.antt =====
-- `LabRuntimeConnector`: one request a call, to a network that answers it. `loads` is `json.loads`,
-- with `none` for a `ValueError`.
use axor_wrap.Base.{ℕ, String, ◌<>◌, Option, none, some, List, [], ◌∷◌, ◌++◌, if◌then◌else◌}
use axor_wrap.Base.Dict.{Dict, lookup}
use axor_wrap.Base.Text.{empty}
use axor_wrap.Errors.{
  Error, Result, ok, err, connector, transport, attribute_error, key_error, type_error,
}
use axor_wrap.Errors.Exec.{Exec, pure, raise, modify, ◌>>=◌, ◌>>◌}
use axor_wrap.Value.{Value, str, obj, of_dict, of_list, entries, iterate, items, fields}
use axor_wrap.Value.Show.{show}

pub record Request : Type 0 where
  pub method : String
  pub path : String
  pub body : Option Value
  pub token : Option String

-- What `urlopen` gives: the body of a reply; an `HTTPError` with its status, body and reason; a
-- `URLError` with its reason. Or what else is raised while the reply, or the body of an error, is awaited
-- or read: a timeout or an error of http.client.
pub data Response : Type 0 where
  replied : String → Response
  failed : ℕ → String → String → Response
  unreachable : String → Response
  interrupted : String → Response

-- A connector, and the requests that it has sent.
pub record LabRuntimeConnector : Type 0 where
  pub base_url : String
  pub control_token : Option String
  pub runtime_ref : Option String
  pub ingest_key : Option String
  pub sent : List Request

-- `if token`, `if not self.ingest_key`
abbrev pub given : Option String → Option String
given none = none
given (some s) = if empty s then none else some s

abbrev pub text_field : String → Option String → Dict Value
text_field key none = []
text_field key (some s) = (key, str s) ∷ []

-- `x or y` of texts
abbrev pub or_text : String → String → String
or_text s t = if empty s then t else s

abbrev pub or_shown : String → Option Value → String
unfolding show
or_shown detail none = detail
or_shown detail (some v) = show v

-- The detail of an error: `.get` of a value that is no dict raises.
unfoldable pub detail_in : String → Option Value → Result String
unfolding lookup entries show
detail_in detail none = ok detail
detail_in detail (some (obj fs)) = ok (or_shown detail (lookup "error" (entries fs)))
detail_in detail (some v) = err attribute_error

abbrev pub error_of : ℕ → String → Result String → Error
error_of code reason (ok detail) = connector code (or_text detail reason)
error_of code reason (err e) = e

unfoldable pub payload_of : String → Option Value → Result (Dict Value)
unfolding entries
payload_of path none = err (connector 0 ("non-JSON response from " <> path))
payload_of path (some (obj fs)) = ok (entries fs)
payload_of path (some v) = err (connector 0 ("unexpected response shape from " <> path))

abbrev or_key_error : Option Value → Exec LabRuntimeConnector String
unfolding show
or_key_error none = raise key_error
or_key_error (some v) = pure (show v)

abbrev with_ref : String → LabRuntimeConnector → LabRuntimeConnector
with_ref ref c = record c { runtime_ref = some ref }

abbrev with_key : String → LabRuntimeConnector → LabRuntimeConnector
with_key key c = record c { ingest_key = some key }

-- The two fields of the answer, written one after the other.
register : Dict Value → Exec LabRuntimeConnector (Dict Value)
unfolding lookup show
register payload = do
  ref ← or_key_error (lookup "runtime_ref" payload)
  modify (with_ref ref)
  key ← or_key_error (lookup "ingest_key" payload)
  modify (with_key key)
  pure payload

abbrev pub key_or_raise : Option String → Exec LabRuntimeConnector String
key_or_raise none = raise (connector 0 "not connected — call connect() first")
key_or_raise (some key) = pure key

-- `_require_key`
unfoldable pub require_key : Exec LabRuntimeConnector String
require_key c = key_or_raise (given c.ingest_key) c

abbrev pub listed : Option (List Value) → Exec LabRuntimeConnector (List Value)
listed none = raise type_error
listed (some vs) = pure vs

abbrev pub or_no_jobs : Option Value → Option (List Value)
unfolding iterate
or_no_jobs none = some []
or_no_jobs (some v) = iterate v

abbrev job_path : String → String
job_path job_id = "/runtime/jobs/" <> job_id

abbrev trial_path : String → String → String → String
trial_path job_id trial_id call = job_path job_id <> ("/trials/" <> (trial_id <> ("/" <> call)))

abbrev metrics_field : Dict Value → Dict Value
unfolding fields
metrics_field [] = []
metrics_field (m ∷ ms) = ("metrics", of_dict (m ∷ ms)) ∷ []

module _ (loads : String → Option Value) where
  unfoldable pub outcome : String → String → Response → Result (Dict Value)
  unfolding payload_of detail_in
  outcome base_url path (replied raw) = payload_of path (loads (or_text raw "{}"))
  outcome base_url path (failed code body reason) =
      err (error_of code reason (detail_in body (loads body)))
  outcome base_url path (unreachable reason) =
      err (connector 0 ("cannot reach " <> (base_url <> (": " <> reason))))
  outcome base_url path (interrupted what) = err (transport what)

  module _ (network : String → Request → Response) where
    abbrev pub send : Request → Exec LabRuntimeConnector (Dict Value)
    unfolding outcome
    send r c =
        (outcome c.base_url r.path (network c.base_url r), record c { sent = c.sent ++ r ∷ [] })

    -- `_request`
    unfoldable pub request :
        String → String → Option Value → Option String → Exec LabRuntimeConnector (Dict Value)
    unfolding send
    request method path body token =
        send (record { method = method; path = path; body = body; token = given token })

    connect_with : String → Option String → Option String → Exec LabRuntimeConnector (Dict Value)
    unfolding request register fields
    connect_with runtime_label agent_ref token = do
      payload ←
          request "POST" "/runtimes/connect"
            (some
              (of_dict (("runtime_label", str runtime_label) ∷ text_field "agent_ref" agent_ref)))
            token
      register payload

    unfoldable pub connect : String → Option String → Exec LabRuntimeConnector (Dict Value)
    unfolding connect_with
    connect runtime_label agent_ref c = connect_with runtime_label agent_ref c.control_token c

    -- A call of the runtime's own surface: with the key, or not at all.
    unfoldable pub keyed : String → String → Option Value → Exec LabRuntimeConnector (Dict Value)
    unfolding require_key request
    keyed method path body = do key ← require_key; request method path body (some key)

    unfoldable pub poll_jobs : Exec LabRuntimeConnector (List Value)
    unfolding keyed lookup iterate
    poll_jobs = do
      payload ← keyed "GET" "/runtime/jobs" none
      listed (or_no_jobs (lookup "jobs" payload))

    unfoldable pub claim : String → Exec LabRuntimeConnector (Dict Value)
    unfolding keyed fields
    claim job_id = keyed "POST" (job_path job_id <> "/claim") (some (of_dict []))

    unfoldable pub post_events :
        String → String → List Value → Exec LabRuntimeConnector (Dict Value)
    unfolding keyed fields items
    post_events job_id trial_id events =
        keyed "POST" (trial_path job_id trial_id "events")
          (some (of_dict (("events", of_list events) ∷ [])))

    unfoldable pub complete_trial :
        String
        → String
        → Value
        → String
        → Dict Value
        → Option String
        → Exec LabRuntimeConnector (Dict Value)
    unfolding keyed fields
    complete_trial job_id trial_id trace status metrics runtime_config_hash =
        keyed "POST" (trial_path job_id trial_id "complete") (
          some (
            of_dict (
              ("trace", trace)
              ∷ ("status", str status)
              ∷ (metrics_field metrics
                  ++ text_field "runtime_config_hash" (given runtime_config_hash)))))
