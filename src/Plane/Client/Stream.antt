-- ===== src/Plane/Client/Stream.antt =====
-- `_dispatch` and `run`: the subscription to the desired state. `parse` is `json.loads`, with `none`
-- for a `JSONDecodeError`. What a message holds goes on to the session in the shape in which it came.
use axor_wrap.Base.{ℤ, String, Bool, Option, none, some, List, [], ◌∷◌, ◌++◌, ◌==◌, if◌then◌else◌}
use axor_wrap.Base.Dict.{Dict, lookup}
use axor_wrap.Errors.{
  Error, Result, ok, err, type_error, key_error, value_error, attribute_error, ◌>>=◌,
}
use axor_wrap.Errors.Exec.{Exec}
use axor_wrap.Errors.Exec as Exec
use axor_wrap.Value.{Value, str, arr, obj, nil, end, entries, to_int}
use axor_wrap.Plane.Kernel.{Kernel}
use axor_wrap.Plane.Session.State.{PlaneSession}
use axor_wrap.Plane.Session.Wire.{Delivery, apply_delivery, apply_snapshot_values}
use axor_wrap.Plane.Client.Frames.{Frame}

-- the error is what Python raises at the first use of a value that is no dict
abbrev pub dict_or : Error → Value → Result (Dict Value)
unfolding entries
dict_or e (obj fs) = ok (entries fs)
dict_or e v = err e

abbrev or_value : Value → Option Value → Value
or_value default none = default
or_value default (some v) = v

-- `data.get(k, default)`
field_or : Value → String → Dict Value → Value
unfolding lookup
field_or default k body = or_value default (lookup k body)

empty_dict : Value
empty_dict = obj end

abbrev number_of : Option Value → Result ℤ
unfolding to_int
number_of none = err key_error
number_of (some v) = to_int v

-- `int(data["version"])`
version_of : Dict Value → Result ℤ
unfolding lookup to_int
version_of body = number_of (lookup "version" body)

-- What an event asks the client to do.
pub data Request : Type 0 where
  snapshot : ℤ → Value → Value → Request
  delta : Delivery → Request
  fact : Value → Request
  nothing : Request

snapshot_of : Dict Value → Result Request
unfolding version_of field_or empty_dict
snapshot_of body = do
  version ← version_of body
  ok (snapshot version (field_or empty_dict "state" body) (field_or (arr nil) "commands" body))

delta_of : Dict Value → Result Request
unfolding version_of field_or empty_dict
delta_of body = do
  version ← version_of body
  ok (
      delta (record {
        version = version;
        delta = field_or (field_or empty_dict "state" body) "delta" body;
        operator = field_or (str "") "operator" body;
        timestamp = field_or (str "") "timestamp" body;
        sig = field_or (str "") "sig" body;
      }))

-- `listens`: `on_fact` is given.
unfoldable pub request_of : Bool → String → Value → Result Request
unfolding snapshot_of delta_of field_or empty_dict
request_of listens name body =
    if name == "snapshot"
    then (do d ← dict_or type_error body; snapshot_of d)
    else if name == "delta"
    then (do d ← dict_or type_error body; delta_of d)
    else if name == "fact"
    then (if listens
        then (do d ← dict_or attribute_error body; ok (fact (field_or empty_dict "fact" d)))
        else ok nothing)
    else ok nothing

abbrev pub parsed : Bool → String → Option Value → Result Request
unfolding request_of
parsed listens name none = err value_error
parsed listens name (some v) = request_of listens name v

module _ (kernel : Kernel) where
  -- The facts that are handed to `on_fact`.
  unfoldable pub perform : Request → Exec PlaneSession (List Value)
  unfolding apply_snapshot_values apply_delivery Exec.◌>>=◌
  perform (snapshot version state commands) =
      Exec.◌>>=◌ (apply_snapshot_values kernel version state commands) (λ _. Exec.pure [])
  perform (delta d) = Exec.◌>>=◌ (apply_delivery kernel d) (λ _. Exec.pure [])
  perform (fact v) = Exec.pure (v ∷ [])
  perform nothing = Exec.pure []

  abbrev pub performed : Result Request → Exec PlaneSession (List Value)
  performed (ok r) s = perform r s
  performed (err e) s = (err e, s)

  module _ (parse : String → Option Value) (listens : Bool) where
    -- `_dispatch`, of the parsed data of a frame
    unfoldable pub dispatch : Frame → Exec PlaneSession (List Value)
    unfolding perform request_of
    dispatch f = performed (parsed listens f.event_name (parse f.text))

    unfoldable pub dispatch_all : List Frame → Exec PlaneSession (List Value)
    unfolding dispatch Exec.◌>>=◌
    dispatch_all [] = Exec.pure []
    dispatch_all (f ∷ fs) =
        Exec.◌>>=◌ (dispatch f) (λ a. Exec.◌>>=◌ (dispatch_all fs) (λ b. Exec.pure (a ++ b)))
