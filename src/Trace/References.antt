-- ===== src/Trace/References.antt =====
-- trace.py, `build_trace`: the values that the events name.
use axor_wrap.Base.{
  ℕ, suc, length, String, Bool, true, false, not, none, some, Option, List, [], ◌∷◌, ◌++◌, map, ◌≡◌,
  ◌∙◌, ap, subst, arith, ◌==◌, Bool-cases, inl, inr,
}
use axor_wrap.Base.Dict.{Dict, lookup, insert, lookup-insert}
use axor_wrap.Errors.{ok, bind-ok, ok_inj}
use axor_wrap.Value.{Value}
use axor_wrap.Compile.Manifests.{texts}
use axor_wrap.Governor.{Governor}
use axor_wrap.Trace.Recorder.{RecordedCall}
use axor_wrap.Trace.Pairing.{Pair, paired, verdict_events}
use axor_wrap.Trace.Fields.{normalize}
use axor_wrap.Trace.Ledger.{Ledger, new_ledger, mint_argument}
use axor_wrap.Trace.Minted.{
  Known, Grows, AllKnown, AllMinted, AllKnown-Grows, mint_argument-Minted, mint_patterns-AllMinted,
}
use axor_wrap.Trace.Build.{
  TraceEvent, tool_call_intent, gate_decision, tool_result, GateDecision, driving_id, gate_name,
  provenance_of, refs_of, intent_bindings, bind_args, decision_of, executed_events, result_events,
  build_events, mint_untrusted_fields, manifest_of, manifests_by_id,
}
use axor_wrap.Trace.Document.{Trace, Labels, build_trace}

abbrev pub BindingsKnown : Ledger → Dict String → Type 0
BindingsKnown l bindings = (name id : String) → lookup name bindings ≡ some id → Known l id

-- The ids that an event names stand in the ledger.
abbrev pub EventKnown : Ledger → TraceEvent → Type 0
EventKnown l (tool_call_intent n tool id bindings) = BindingsKnown l bindings
EventKnown l (gate_decision n id d) = (v : String) → d.driving_value_id ≡ some v → Known l v
EventKnown l (tool_result n tool produced) = AllKnown l produced

abbrev pub EventsKnown : Ledger → List TraceEvent → Type 0
EventsKnown l [] = Unit
EventsKnown l (e ∷ es) = EventKnown l e × EventsKnown l es

EventKnown-Grows : (l l' : Ledger) (e : TraceEvent) → Grows l l' → EventKnown l e → EventKnown l' e
EventKnown-Grows l l' (tool_call_intent n tool id bindings) g k = λ name v p. g v (k name v p)
EventKnown-Grows l l' (gate_decision n id d) g k = λ v p. g v (k v p)
EventKnown-Grows l l' (tool_result n tool produced) g k = AllKnown-Grows l l' produced g k

EventsKnown-Grows :
    (l l' : Ledger) (es : List TraceEvent) → Grows l l' → EventsKnown l es → EventsKnown l' es
EventsKnown-Grows l l' [] g k = tt
EventsKnown-Grows l l' (e ∷ es) g (k, ks) =
    (EventKnown-Grows l l' e g k, EventsKnown-Grows l l' es g ks)

EventsKnown-append :
    (l : Ledger) (es fs : List TraceEvent)
    → EventsKnown l es
    → EventsKnown l fs
    → EventsKnown l (es ++ fs)
EventsKnown-append l [] fs k m = m
EventsKnown-append l (e ∷ es) fs (k, ks) m = (k, EventsKnown-append l es fs ks m)

insert-BindingsKnown :
    (l : Ledger) (name id : String) (bindings : Dict String)
    → Known l id
    → BindingsKnown l bindings
    → BindingsKnown l (insert name id bindings)
insert-BindingsKnown l name id bindings k ks j v p = elim (Bool-cases (j == name)) [
  | inl here ↦ subst (Known l) (is_new here) k
  | inr there ↦ ks j v (is_old there)
]
  where
    is_new : (j == name) ≡ true → id ≡ v
    is_new here = ground (arith, lookup-insert name j id bindings)

    is_old : (j == name) ≡ false → lookup j bindings ≡ some v
    is_old there = ground (arith, lookup-insert name j id bindings)

-- The values of a trace, as the ledger that they were.
abbrev pub ledger_of : Trace → Ledger
ledger_of t = record { values = t.values; counter = length t.values; untrusted_ids = [] }

module _ (G : Governor) where
  bind_args-Known :
      (tool : String) (refs args : Dict Value) (bindings : Dict String) (l : Ledger)
      (p : Dict String × Ledger)
      → bind_args G tool refs args bindings l ≡ ok p
      → BindingsKnown l bindings
      → Grows l p.1 × BindingsKnown p.1 p.0
  unfolding bind_args
  bind_args-Known tool refs [] bindings l p h k =
      subst (λ q. Grows l q.1 × BindingsKnown q.1 q.0) (ok_inj _ p h) (λ id x. x, k)
  bind_args-Known tool refs ((name, value) ∷ rest) bindings l p h k =
      let (ref, ref_ok, h1) = bind-ok (provenance_of (lookup name refs)) _ p h in
      let minted = mint_argument G tool name value ref l in
      let (g, new) = mint_argument-Minted G tool name value ref l in
      let (g2, ks) =
        bind_args-Known tool refs rest (insert name minted.0 bindings) minted.1 p h1
          (insert-BindingsKnown minted.1 name minted.0 bindings new (λ j v q. g v (k j v q))) in
      (λ id x. g2 id (g id x), ks)

  intent-Known :
      (refs : Dict Value) (seen : Option RecordedCall) (l : Ledger) (p : Dict String × Ledger)
      → intent_bindings G refs seen l ≡ ok p
      → Grows l p.1 × BindingsKnown p.1 p.0
  unfolding intent_bindings
  intent-Known refs none l p h =
      subst (λ q. Grows l q.1 × BindingsKnown q.1 q.0) (ok_inj _ p h)
        (λ id x. x, λ name id e. none_bound name id e)
    where
      none_bound : (name id : String) → lookup name [] ≡ some id → Known l id
      none_bound name id e = absurd (ground arith)
  intent-Known refs (some c) l p h =
      bind_args-Known c.tool refs c.args [] l p h (λ name id e. absurd (none_bound name id e))
    where
      none_bound : (name id : String) → lookup name [] ≡ some id → ⊥
      none_bound name id e = ground arith

  driving_id-Known :
      (l : Ledger) (driven : List String) (bindings : Dict String) (v : String)
      → BindingsKnown l bindings
      → driving_id driven bindings ≡ some v
      → Known l v
  driving_id-Known l [] bindings v k p = absurd (cc)
  driving_id-Known l (a ∷ rest) bindings v k p = k a v p

  decision-Known :
      (event : Governor.Event G) (bindings : Dict String) (enforced : Bool) (l : Ledger)
      (d : GateDecision)
      → decision_of G event bindings enforced ≡ ok d
      → BindingsKnown l bindings
      → (v : String) → d.driving_value_id ≡ some v
      → Known l v
  unfolding decision_of
  decision-Known event bindings enforced l d h k v p =
      let (driven, driven_ok, h1) =
        bind-ok (texts "driving_args" (Governor.payload G event)) _ d h in
      let (gate, gate_ok, h2) = bind-ok (gate_name G event) _ d h1 in
      driving_id-Known l driven bindings v k (ap (λ x. x.driving_value_id) (ok_inj _ d h2) ∙ p)

  abbrev ResultsKnown : Ledger → List TraceEvent × ℕ × Ledger → Type 0
  ResultsKnown l p = Grows l p.2 × EventsKnown p.2 p.0

  executed-Known :
      (by_id : Dict (Dict Value)) (c : RecordedCall) (seq : ℕ) (l : Ledger) (b : Bool)
      (p : List TraceEvent × ℕ × Ledger)
      → executed_events G by_id c seq l b ≡ ok p
      → ResultsKnown l p
  unfolding mint_untrusted_fields
  executed-Known by_id c seq l false p h = subst (ResultsKnown l) (ok_inj _ p h) (λ id x. x, tt)
  executed-Known by_id c seq l true p h =
      let manifest = manifest_of G by_id c.tool in
      let (minted, minted_ok, h1) =
        bind-ok (mint_untrusted_fields G manifest c.tool c.result l) _ p h in
      let (hidden, hidden_ok, h2) =
        bind-ok (texts "sensitive_fields" manifest) _ minted minted_ok in
      let (patterns, patterns_ok, h3) = bind-ok (texts "untrusted_fields" manifest) _ minted h2 in
      let known = mint_patterns-AllMinted G c.tool (map normalize hidden) c.result patterns l in
      let (g, ks) = subst (AllMinted l) (ok_inj _ minted h3) known in
      subst (ResultsKnown l) (ok_inj _ p h1) (g, (ks, tt))

  results-Known :
      (by_id : Dict (Dict Value)) (seen : Option RecordedCall) (seq : ℕ) (l : Ledger)
      (p : List TraceEvent × ℕ × Ledger)
      → result_events G by_id seen seq l ≡ ok p
      → ResultsKnown l p
  unfolding result_events
  results-Known by_id none seq l p h = subst (ResultsKnown l) (ok_inj _ p h) (λ id x. x, tt)
  results-Known by_id (some c) seq l p h = executed-Known by_id c seq l c.executed p h

  abbrev BuiltKnown : Ledger → List TraceEvent × Ledger → Type 0
  BuiltKnown l b = Grows l b.1 × EventsKnown b.1 b.0

  build_events-Known :
      (by_id : Dict (Dict Value)) (enforced : Bool) (pairs : List (Pair G)) (index seq : ℕ)
      (l : Ledger) (built : List TraceEvent × Ledger)
      → build_events G by_id enforced pairs index seq l ≡ ok built
      → BuiltKnown l built
  unfolding build_events
  build_events-Known by_id enforced [] index seq l built h =
      subst (BuiltKnown l) (ok_inj _ built h) (λ id x. x, tt)
  build_events-Known by_id enforced ((seen, event) ∷ pairs) index seq l built h =
      let (refs, refs_ok, h1) = bind-ok (refs_of (Governor.payload G event)) _ built h in
      let (bound, bound_ok, h2) = bind-ok (intent_bindings G refs seen l) _ built h1 in
      let (decision, decision_ok, h3) = bind-ok (decision_of G event bound.0 enforced) _ built h2 in
      let (produced, produced_ok, h4) =
        bind-ok (result_events G by_id seen (suc (suc seq)) bound.1) _ built h3 in
      let (rest, rest_ok, h5) =
        bind-ok (build_events G by_id enforced pairs (suc index) produced.1 produced.2) _ built
          h4 in
      let (g, bindings) = intent-Known refs seen l bound bound_ok in
      let decided = decision-Known event bound.0 enforced bound.1 decision decision_ok bindings in
      let (g2, results) = results-Known by_id seen (suc (suc seq)) bound.1 produced produced_ok in
      let (g3, later) =
        build_events-Known by_id enforced pairs (suc index) produced.1 produced.2 rest rest_ok in
      let g4 : Grows bound.1 rest.1 = λ id x. g3 id (g2 id x) in
      subst (BuiltKnown l) (ok_inj _ built h5) (
        λ id x. g4 id (g id x),
        (
          λ name id p. g4 id (bindings name id p),
          (
            λ v p. g4 v (decided v p),
            EventsKnown-append rest.1 produced.0 rest.0
                (EventsKnown-Grows produced.2 rest.1 produced.0 g3 results) later,
          ),
        ),
      )

  -- In a trace that is built, each id that an event names, as the value of an argument, as the driving
  -- value of a decision or as a value that a result produced, is the id of one of the trace's values.
  pub build_trace-EventsKnown :
      (calls : List RecordedCall) (events : List (Governor.Event G)) (manifests : List (Dict Value))
      (enforcement observes : String) (labels : Labels G) (t : Trace)
      → build_trace G calls events manifests enforcement observes labels ≡ ok t
      → EventsKnown (ledger_of t) t.events
  unfolding build_trace
  build_trace-EventsKnown calls events manifests enforcement observes labels t h =
      let (pairs, pairs_ok, h1) =
        bind-ok (paired G calls (verdict_events G events) observes) _ t h in
      let (built, built_ok, h2) =
        bind-ok
          (build_events G (manifests_by_id G [] manifests) (not (enforcement == "off")) pairs 0 0
            new_ledger)
          _ t h1 in
      let (g, known) =
        build_events-Known (manifests_by_id G [] manifests) (not (enforcement == "off")) pairs 0 0
          new_ledger built built_ok in
      subst (λ x. EventsKnown (ledger_of x) x.events) (ok_inj _ t h2)
        (EventsKnown-Grows built.1
          (record { values = built.1.values; counter = length built.1.values; untrusted_ids = [] })
          built.0 (λ id x. x) known)
