-- ===== src/Plane/Bridge/Translate/Denials.antt =====
-- bridge.py: no denial is lost.
use axor_wrap.Base.{
  String, true, false, Option, none, some, List, [], ◌∷◌, ◌≡◌, ◌≢◌, refl, sym, ap, subst, arith,
  ◌∙◌, ◌==◌, Among, Bool-cases, inl, inr, if◌then◌else◌,
}
use axor_wrap.Base.Dict.{Dict, lookup, insert, lookup-insert}
use axor_wrap.Value.{Value, str}
use axor_wrap.Plane.Bridge.Events.{TraceEvent, intent_denied, Event, tool_call, denial, deny}
use axor_wrap.Base.Text.{empty}
use axor_wrap.Plane.Bridge.Labels.{denial_category, known_gate}
use axor_wrap.Plane.Bridge.Translate.{
  node_or, denied, gate_of, trace_event_to_kernel, also, trace_to_kernel,
}

module _ (gates : Dict String) where
  also-Among :
      (e : Event) (o : Option Event) (out : List Event) → Among e out → Among e (also gates o out)
  also-Among e none out h = h
  also-Among e (some d) out h = inr h

  trace_to_kernel-Among :
      (nid : Option String) (event : TraceEvent) (e : Event) (events : List TraceEvent)
      → Among event events
      → trace_event_to_kernel gates nid event ≡ some e
      → Among e (trace_to_kernel gates nid events)
  unfolding trace_to_kernel
  trace_to_kernel-Among nid event e [] among h = absurd among
  trace_to_kernel-Among nid event e (d ∷ events) among h = elim among [
    | inl p ↦
        subst (λ o. Among e (also gates o (trace_to_kernel gates nid events)))
          (sym (ap (trace_event_to_kernel gates nid) (sym p) ∙ h)) (inl refl)
    | inr later ↦
        also-Among e (trace_event_to_kernel gates nid d) _
          (trace_to_kernel-Among nid event e events later h)
  ]

  denied-kernel :
      (nid : Option String) (event : TraceEvent) (reason intent_kind : String)
      → event.detail ≡ intent_denied reason intent_kind
      → trace_event_to_kernel gates nid event
        ≡ some (denied gates event (node_or nid event.node_id) reason intent_kind)
  unfolding trace_event_to_kernel
  denied-kernel nid event reason intent_kind h = rw (h) refl

  -- An event that records the denial, with everything that the trace held of it.
  pub record Records (event : TraceEvent) (reason intent_kind : String) (e : Event) : Type 0 where
    pub seq : e.seq ≡ event.sequence
    pub verdict : e.verdict ≡ some deny
    pub has_gate : e.gate ≢ none
    -- the gate of the category that the trace recorded: by the table, or else the category itself
    pub gate :
        (category : String)
        → lookup "category" event.payload ≡ some (str category)
        → empty category ≡ false
        → e.gate ≡ some (elim (lookup category gates) [ none ↦ category | some known ↦ known ])
    pub kind : e.kind ≡ (if intent_kind == "tool_call" then tool_call else denial)
    pub states_reason : lookup "reason" e.payload ≡ some (str reason)
    -- of a refused tool call the reason only is written, of another denial two fields more
    pub keeps :
        (k : String)
        → (k == "reason") ≡ false
        → (intent_kind == "tool_call") ≡ true
        → lookup k e.payload ≡ lookup k event.payload
    pub keeps_other :
        (k : String)
        → (k == "reason") ≡ false
        → (k == "category") ≡ false
        → (k == "intent_kind") ≡ false
        → lookup k e.payload ≡ lookup k event.payload
    pub states_intent_kind :
        (intent_kind == "tool_call") ≡ false
        → lookup "intent_kind" e.payload ≡ some (str intent_kind)
    pub states_category :
        (category : String)
        → (intent_kind == "tool_call") ≡ false
        → lookup "category" event.payload ≡ some (str category)
        → empty category ≡ false
        → lookup "category" e.payload ≡ some (str category)

  marked :
      (payload : Dict Value) (k reason category intent_kind : String)
      → lookup k (
          insert "intent_kind"
            (str intent_kind)
            (insert "category" (str category) (insert "reason" (str reason) payload)))
        ≡ (if k == "intent_kind"
            then some (str intent_kind)
            else if k == "category"
            then some (str category)
            else if k == "reason"
            then some (str reason)
            else lookup k payload)
  marked payload k reason category intent_kind =
      let noted = insert "reason" (str reason) payload in
      rw
        (
          lookup-insert "intent_kind" k (str intent_kind) (insert "category" (str category) noted),
          lookup-insert "category" k (str category) noted,
          lookup-insert "reason" k (str reason) payload,
        )
        refl

  recorded_category :
      (payload : Dict Value) (reason category : String)
      → lookup "category" payload ≡ some (str category)
      → empty category ≡ false
      → denial_category payload reason ≡ category
  unfolding denial_category axor_wrap.Value.truthy axor_wrap.Value.Show.show
  recorded_category payload reason category h given = rw (h, given, given) refl

  known_gate-recorded :
      (category : String) (o : Option String)
      → empty category ≡ false
      → known_gate category o ≡ elim o [ none ↦ category | some known ↦ known ]
  known_gate-recorded category none h = rw (h) refl
  known_gate-recorded category (some g) h = refl

  recorded_gate :
      (payload : Dict Value) (reason category : String)
      → lookup "category" payload ≡ some (str category)
      → empty category ≡ false
      → some (gate_of gates (denial_category payload reason))
        ≡ some (elim (lookup category gates) [ none ↦ category | some known ↦ known ])
  unfolding gate_of
  recorded_gate payload reason category h given =
      rw (recorded_category payload reason category h given)
        (ap some (known_gate-recorded category (lookup category gates) given))

  some_gate : (g : String) → some g ≢ none
  some_gate g h = ground arith

  denied-Records :
      (event : TraceEvent) (nid reason intent_kind : String)
      → Records event reason intent_kind (denied gates event nid reason intent_kind)
  unfolding denied
  denied-Records event nid reason intent_kind = elim (Bool-cases (intent_kind == "tool_call")) [
    | inl p ↦ rw (p) (record {
      seq = refl;
      verdict = refl;
      has_gate = some_gate _;
      gate = recorded_gate event.payload reason;
      states_intent_kind = λ q. absurd (ground arith);
      states_category = λ c q. absurd (ground arith);
      keeps_other = λ k a b c. rw (lookup-insert "reason" k (str reason) event.payload, a) refl;
      kind = rw (p) refl;
      states_reason = lookup-insert "reason" "reason" (str reason) event.payload;
      keeps = λ k a q. rw (lookup-insert "reason" k (str reason) event.payload, a) refl;
    })
    | inr p ↦ rw (p) (record {
      seq = refl;
      verdict = refl;
      has_gate = some_gate _;
      gate = recorded_gate event.payload reason;
      states_intent_kind = λ q.
          rw
            (marked event.payload "intent_kind" reason (denial_category event.payload reason)
              intent_kind)
            refl;
      states_category = λ category q h given.
          rw
            (
              marked event.payload "category" reason (denial_category event.payload reason)
                  intent_kind,
              recorded_category event.payload reason category h given,
            )
            refl;
      keeps = λ k a q. absurd (ground arith);
      kind = rw (p) refl;
      states_reason =
          rw
            (marked event.payload "reason" reason (denial_category event.payload reason)
              intent_kind)
            refl;
      keeps_other = λ k a b c.
          rw
            (
              marked event.payload k reason (denial_category event.payload reason) intent_kind,
              c,
              b,
              a,
            )
            refl;
    })
  ]

  -- For each denial of a trace there is an event among the kernel's that records it: with its number,
  -- the verdict deny and the reason, as a refused tool call if that is what it was. It has a gate:
  -- where the trace recorded a category, this one's in the table, or the category. All other fields of
  -- the payload are kept: of a tool call all but the reason; of another denial all but the reason, the
  -- intent's kind, which is stated, and the category, which is the recorded one if there is one.
  pub trace_to_kernel-denials :
      (nid : Option String) (events : List TraceEvent) (event : TraceEvent)
      (reason intent_kind : String)
      → Among event events
      → event.detail ≡ intent_denied reason intent_kind
      → (e : Event) × Among e (trace_to_kernel gates nid events)
        × Records event reason intent_kind e
  trace_to_kernel-denials nid events event reason intent_kind among h =
      let e = denied gates event (node_or nid event.node_id) reason intent_kind in
      (
        e,
        trace_to_kernel-Among nid event e events among
            (denied-kernel nid event reason intent_kind h),
        denied-Records event (node_or nid event.node_id) reason intent_kind,
      )
