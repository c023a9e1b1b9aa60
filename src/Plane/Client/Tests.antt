-- ===== src/Plane/Client/Tests.antt =====
-- A node with a spool, whose network fails, and the lines of a subscription.
use axor_wrap.Base.{
  ℕ, pos, String, Bool, true, false, Option, none, some, List, [], ◌∷◌, map, ◌≡◌, refl, leb, ◌==◌,
  if◌then◌else◌, arith,
}
use axor_wrap.Errors.{ok, err, attribute_error}
use axor_wrap.Plane.Session.Take.{take_pending_injection}
use axor_wrap.Plane.Client.Stream.{parsed, performed, request_of, perform}
use axor_wrap.Value.{Value, null, int, obj, end, field, fields, of_dict, bool, arr, nil}
use axor_wrap.Plane.Kernel.{Kernel}
use axor_wrap.Plane.Session.State.{PlaneSession, Event, new_session}
use axor_wrap.Plane.Session.Narrows.{Narrows}
use axor_wrap.Plane.Session.Run.{injection}
use axor_wrap.Plane.Client.State.{PlaneClient, new_client, message, auth}
use axor_wrap.Plane.Client.Telemetry.{
  Answer, responded, post_probe_report, decided, first_that_decides, post_probe_report-decided,
}
use axor_wrap.Plane.Client.Flush.{Flush, Sent, Step, flushes, calls, run}
use axor_wrap.Plane.Client.Durable.{Holds, emits}
use axor_wrap.Plane.Client.Numbered.{Counts, posted_numbers, run-numbered}
use axor_wrap.Plane.Client.Frames.{at_start, frames, chomp, strip}
use axor_wrap.Plane.Client.Frames.Written.{Message, Plain, lines_of, frames_of, frames-lines_of}
use axor_wrap.Plane.Client.Subscription.{
  Connection, rejected, unreachable, broken, Subscription, first_backoff, Round,
}
use axor_wrap.Plane.Client.Subscription as Subscription
use axor_wrap.Plane.Client.Subscribed.{AllBetween, subscription-Narrows, pauses-Between}

abbrev kernel : Kernel
kernel = record {
  canonicalize = λ v. [];
  verify = λ key sig text. false;
  is_public_key = λ key. true;
  excision_refused_refs = λ x d. [];
}

abbrev noted : String → Event
noted kind = record { kind = kind; payload = null }

abbrev session : PlaneSession
session = record (new_session "n1" [] false none) {
  pending_injection =
      some (record { injection_id = "i1"; text = ""; reason = ""; operator = ""; sig = "" });
  outbox = noted "state_applied" ∷ [];
}

abbrev client : PlaneClient
client =
    new_client session none "a1" (some "spool") (some "k1")
      (some (message (noted "replan_applied") ∷ []))

headers_test : auth client [] ≡ ("Authorization", "Bearer k1") ∷ []
unfolding auth
headers_test = refl

abbrev now : ℕ → String
now n = "t"

abbrev is_error : ℕ → Bool
is_error status = leb 400 status

abbrev flush_of : Answer → Flush
flush_of a = record {
  extra_events = [];
  level = "NORMAL";
  budget_remaining = none;
  answers = λ n. a;
  meanwhile = injection ∷ [];
}

abbrev steps : List Step
steps =
    flushes (flush_of Answer.unreachable)
    ∷ calls (injection ∷ [])
    ∷ flushes (flush_of (responded 200))
    ∷ []

-- The host takes the injection while the first flush waits, and the session refuses it.
emits_test : map (λ e. e.kind) (emits kernel now is_error steps client) ≡ "injection_refused" ∷ []
unfolding emits run take_pending_injection axor_wrap.Errors.Exec.◌>>=◌
    axor_wrap.Plane.Session.Run.step
emits_test = refl

abbrev held : List Event
held = noted "replan_applied" ∷ noted "state_applied" ∷ []

held-Holds : Holds client held
unfolding axor_wrap.Plane.Client.Spool.load_spool
held-Holds = (noted "replan_applied" ∷ [], refl, refl)

run-numbered_example :
    (sent : List Sent) × ((run kernel now is_error steps client).0 ≡ ok sent)
    × Counts client.seq (run kernel now is_error steps client).1.seq (posted_numbers sent)
run-numbered_example = run-numbered kernel now is_error steps client held held-Holds

abbrev answers : ℕ → Answer
answers n = if leb n 0 then Answer.unreachable else responded 422

post_probe_report-decided_example :
    post_probe_report is_error answers
    ≡ decided is_error (first_that_decides is_error (answers 0 ∷ answers 1 ∷ answers 2 ∷ []))
post_probe_report-decided_example = post_probe_report-decided is_error answers

abbrev stop_message : Message
stop_message = record { event_name = "snapshot"; first = "stop"; more = [] }

snapshot-Plain : Plain "snapshot"
unfolding strip chomp
snapshot-Plain = record { stripped = refl; one_line = refl }

stop-Plain : Plain "stop"
unfolding strip chomp
stop-Plain = record { stripped = refl; one_line = refl }

frames-lines_of_example :
    frames at_start (lines_of (stop_message ∷ stop_message ∷ []))
    ≡ frames_of (stop_message ∷ stop_message ∷ [])
frames-lines_of_example =
    frames-lines_of (stop_message ∷ stop_message ∷ [])
      (snapshot-Plain, (stop-Plain, tt), (snapshot-Plain, (stop-Plain, tt), tt))

abbrev parse : String → Option Value
parse s = if s == "stop" then some (obj (field "version" (int (pos 3)) end)) else none

abbrev round : Connection → Round
round c = record { connection = c; stops = false }

abbrev rounds : List Round
rounds =
    round rejected
    ∷ round Connection.unreachable
    ∷ round (broken (lines_of (stop_message ∷ [])))
    ∷ record { connection = Connection.unreachable; stops = true }
    ∷ []

abbrev subscription : Subscription
subscription = record { session = session; backoff = first_backoff }

subscription-Narrows_example :
    Narrows session (Subscription.run kernel parse true (some 5000) rounds subscription).1.session
subscription-Narrows_example =
    subscription-Narrows kernel parse true (some 5000) rounds subscription

run_test :
    (Subscription.run kernel parse true none rounds subscription).0
    ≡ ok (1000 ∷ 2000 ∷ 1000 ∷ 2000 ∷ [])
unfolding Subscription.run axor_wrap.Errors.Exec.◌>>=◌
run_test = refl

pauses-Between_example : AllBetween (1000 ∷ 2000 ∷ 1000 ∷ 2000 ∷ [])
pauses-Between_example =
    pauses-Between kernel parse true rounds subscription (1000 ∷ 2000 ∷ 1000 ∷ 2000 ∷ [])
      (omega arith, omega arith) run_test

-- Without operator keys no one looks at the signature, so a delta whose `sig` is null is applied.
abbrev unsigned_stop : Value
unsigned_stop = of_dict (
    ("version", int (pos 4))
    ∷ ("delta", of_dict (("stopped", bool true) ∷ []))
    ∷ ("sig", null)
    ∷ [])

unsigned_stop_test :
    (performed kernel (parsed true "delta" (some unsigned_stop)) session).1.stopped ≡ true
unfolding request_of perform fields axor_wrap.Errors.Exec.◌>>=◌
unsigned_stop_test = refl

-- A state that is no dict takes the version and then raises.
listed_state_test :
    performed kernel
      (parsed true "snapshot" (some (of_dict (("version", int (pos 4)) ∷ ("state", arr nil) ∷ []))))
      session
    ≡ (err attribute_error, record session { applied_version = pos 4 })
unfolding request_of perform fields axor_wrap.Errors.Exec.◌>>=◌
listed_state_test = refl
