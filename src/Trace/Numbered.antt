-- ===== src/Trace/Numbered.antt =====
-- trace.py, `build_trace`: the numbers of the events.
use axor_wrap.Base.{
  ℕ, suc, String, Bool, true, false, not, ◌==◌, Option, none, some, List, [], ◌∷◌, ◌++◌, ◌≡◌, refl,
  subst,
}
use axor_wrap.Base.Dict.{Dict}
use axor_wrap.Errors.{ok, bind-ok, ok_inj}
use axor_wrap.Value.{Value}
use axor_wrap.Governor.{Governor}
use axor_wrap.Trace.Recorder.{RecordedCall}
use axor_wrap.Trace.Pairing.{Pair, paired, verdict_events}
use axor_wrap.Trace.Ledger.{Ledger, new_ledger}
use axor_wrap.Trace.Build.{
  TraceEvent, tool_call_intent, gate_decision, tool_result, refs_of, intent_bindings, decision_of,
  result_events, build_events, mint_untrusted_fields, manifest_of, executed_events, manifests_by_id,
}
use axor_wrap.Trace.Document.{Trace, Labels, build_trace}

abbrev pub seq_of : TraceEvent → ℕ
seq_of (tool_call_intent n tool id bindings) = n
seq_of (gate_decision n id d) = n
seq_of (tool_result n tool ids) = n

-- The events carry the numbers from the given one on, without a gap.
abbrev pub Numbered : ℕ → List TraceEvent → Type 0
Numbered n [] = Unit
Numbered n (e ∷ es) = (seq_of e ≡ n) × Numbered (suc n) es

module _ (G : Governor) where
  executed-Numbered :
      (by_id : Dict (Dict Value)) (c : RecordedCall) (seq : ℕ) (l : Ledger) (b : Bool)
      (p : List TraceEvent × ℕ × Ledger) (rest : List TraceEvent)
      → executed_events G by_id c seq l b ≡ ok p
      → Numbered p.1 rest
      → Numbered seq (p.0 ++ rest)
  executed-Numbered by_id c seq l false p rest h =
      subst (λ q. Numbered q.1 rest → Numbered seq (q.0 ++ rest)) (ok_inj _ p h) (λ x. x)
  executed-Numbered by_id c seq l true p rest h =
      let (minted, minted_ok, h1) =
        bind-ok (mint_untrusted_fields G (manifest_of G by_id c.tool) c.tool c.result l) _ p h in
      subst (λ q. Numbered q.1 rest → Numbered seq (q.0 ++ rest)) (ok_inj _ p h1) (λ x. (refl, x))

  result-Numbered :
      (by_id : Dict (Dict Value)) (seen : Option RecordedCall) (seq : ℕ) (l : Ledger)
      (p : List TraceEvent × ℕ × Ledger) (rest : List TraceEvent)
      → result_events G by_id seen seq l ≡ ok p
      → Numbered p.1 rest
      → Numbered seq (p.0 ++ rest)
  unfolding result_events
  result-Numbered by_id none seq l p rest h =
      subst (λ q. Numbered q.1 rest → Numbered seq (q.0 ++ rest)) (ok_inj _ p h) (λ x. x)
  result-Numbered by_id (some c) seq l p rest h =
      executed-Numbered by_id c seq l c.executed p rest h

  build_events-Numbered :
      (by_id : Dict (Dict Value)) (enforced : Bool) (pairs : List (Pair G)) (index seq : ℕ)
      (l : Ledger) (built : List TraceEvent × Ledger)
      → build_events G by_id enforced pairs index seq l ≡ ok built
      → Numbered seq built.0
  unfolding build_events
  build_events-Numbered by_id enforced [] index seq l built h =
      subst (λ b. Numbered seq b.0) (ok_inj _ built h) tt
  build_events-Numbered by_id enforced ((seen, event) ∷ pairs) index seq l built h =
      let (refs, refs_ok, h1) = bind-ok (refs_of (Governor.payload G event)) _ built h in
      let (bound, bound_ok, h2) = bind-ok (intent_bindings G refs seen l) _ built h1 in
      let (decision, decision_ok, h3) = bind-ok (decision_of G event bound.0 enforced) _ built h2 in
      let (produced, produced_ok, h4) =
        bind-ok (result_events G by_id seen (suc (suc seq)) bound.1) _ built h3 in
      let (rest, rest_ok, h5) =
        bind-ok (build_events G by_id enforced pairs (suc index) produced.1 produced.2) _ built
          h4 in
      subst (λ b. Numbered seq b.0) (ok_inj _ built h5)
        (
          refl,
          (
            refl,
            result-Numbered by_id seen (suc (suc seq)) bound.1 produced rest.0 produced_ok (
                build_events-Numbered by_id enforced pairs (suc index) produced.1 produced.2 rest
                  rest_ok),
          ),
        )

  -- The events of a trace that is built are numbered from 0 on, without a gap.
  pub build_trace-Numbered :
      (calls : List RecordedCall) (events : List (Governor.Event G)) (manifests : List (Dict Value))
      (enforcement observes : String) (labels : Labels G) (t : Trace)
      → build_trace G calls events manifests enforcement observes labels ≡ ok t
      → Numbered 0 t.events
  unfolding build_trace
  build_trace-Numbered calls events manifests enforcement observes labels t h =
      let (pairs, pairs_ok, h1) =
        bind-ok (paired G calls (verdict_events G events) observes) _ t h in
      let (built, built_ok, h2) =
        bind-ok
          (build_events G (manifests_by_id G [] manifests) (not (enforcement == "off")) pairs 0 0
            new_ledger)
          _ t h1 in
      subst (λ x. Numbered 0 x.events) (ok_inj _ t h2)
        (build_events-Numbered (manifests_by_id G [] manifests) (not (enforcement == "off")) pairs 0
          0 new_ledger built built_ok)
