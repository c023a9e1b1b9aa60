-- ===== src/Trace/Pairing.antt =====
-- trace.py: `verdict_events` and `_paired`.
use axor_wrap.Base.{
  String, Bool, ◌||◌, List, [], ◌∷◌, ◌==◌, Option, none, some, length, nat_eq, if◌then◌else◌,
}
use axor_wrap.Base.Dict.{lookup}
use axor_wrap.Errors.{Result, ok, err, trace_build, ◌>>=◌}
use axor_wrap.Value.Show.{show}
use axor_wrap.Governor.{Governor}
use axor_wrap.Trace.Recorder.{RecordedCall, every_intent}

module _ (G : Governor) where
  abbrev Event : Type 0
  Event = Governor.Event G

  abbrev pub is_verdict : Event → Bool
  is_verdict e =
      (Governor.kind G e == Governor.intent_approved G)
      || (Governor.kind G e == Governor.intent_transformed G)
      || (Governor.kind G e == Governor.intent_denied G)

  unfoldable pub verdict_events : List Event → List Event
  verdict_events [] = []
  verdict_events (e ∷ es) = if is_verdict e then e ∷ verdict_events es else verdict_events es

  abbrev pub is_denied : Event → Bool
  is_denied e = Governor.kind G e == "intent_denied"

  -- `str(payload.get("tool", ""))`
  unfoldable pub judged_tool : Event → String
  unfolding lookup show
  judged_tool e = elim (lookup "tool" (Governor.payload G e)) [ none ↦ "" | some v ↦ show v ]

  -- A verdict with the call that it judged, if the wrapper saw that call.
  abbrev pub Pair : Type 0
  Pair = Option RecordedCall × Event

  unfoldable pub zipped : List RecordedCall → List Event → List Pair
  zipped [] es = []
  zipped (c ∷ cs) [] = []
  zipped (c ∷ cs) (e ∷ es) = (some c, e) ∷ zipped cs es

  -- Approvals take the records in order, denials have none.
  unfoldable pub approvals : List RecordedCall → List Event → Result (List Pair)
  approvals [] [] = ok []
  approvals (c ∷ cs) [] = err (trace_build "recorded call(s) have no kernel verdict")
  approvals [] (e ∷ es) =
      if is_denied e
      then (do rest ← approvals [] es; ok ((none, e) ∷ rest))
      else err (trace_build "the kernel approved more calls than the wrapper recorded")
  approvals (c ∷ cs) (e ∷ es) =
      if is_denied e
      then (do rest ← approvals (c ∷ cs) es; ok ((none, e) ∷ rest))
      else (do rest ← approvals cs es; ok ((some c, e) ∷ rest))

  unfoldable pub paired : List RecordedCall → List Event → String → Result (List Pair)
  unfolding zipped approvals
  paired calls events observes =
      if observes == every_intent
      then (if nat_eq (length calls) (length events)
          then ok (zipped calls events)
          else err (
              trace_build "refusing to emit a trace that would pair a verdict with the wrong call"))
      else approvals calls events
