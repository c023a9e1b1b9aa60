-- ===== src/Connect/Tests.antt =====
-- A lab that answers, and one that fails.
use axor_wrap.Base.{String, Option, none, some, [], ◌∷◌, ◌==◌, ◌≡◌, refl, if◌then◌else◌}
use axor_wrap.Base.Dict.{Dict}
use axor_wrap.Value.{Value, obj, arr, nil, null, end}
use axor_wrap.Connect.Lab.{Request, Response, replied, failed, LabRuntimeConnector}
use axor_wrap.Connect.Key.{polls, claims, completes, run, KeepsKey, run-KeepsKey}

abbrev loads : String → Option Value
loads s = if s == "{}" then some (obj end) else if s == "[]" then some (arr nil) else none

abbrev answers : String → Request → Response
answers base_url r = if r.method == "GET" then replied "" else failed 409 "[]" "Conflict"

abbrev connected : LabRuntimeConnector
connected = record {
  base_url = "http://lab";
  control_token = none;
  runtime_ref = some "rt";
  ingest_key = some "k1";
  sent = [];
}

run_test :
    (run loads answers (polls ∷ claims "j1" ∷ []) connected).sent
    ≡ record { method = "GET"; path = "/runtime/jobs"; body = none; token = some "k1" }
      ∷ record {
        method = "POST";
        path = "/runtime/jobs/j1/claim";
        body = some (obj end);
        token = some "k1";
      }
      ∷ []
unfolding run axor_wrap.Errors.Exec.◌>>=◌
run_test = refl

run-KeepsKey_example :
    KeepsKey connected
      (run loads answers (polls ∷ completes "j1" "t1" null "completed" [] none ∷ []) connected)
run-KeepsKey_example =
    run-KeepsKey loads answers (polls ∷ completes "j1" "t1" null "completed" [] none ∷ []) connected
