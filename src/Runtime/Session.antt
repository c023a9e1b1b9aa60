-- ===== src/Runtime/Session.antt =====
-- runtime.py and trace.py: the calls of one session, and the pairs that its trace is built from.
use axor_wrap.Base.{String, List, [], ◌∷◌, ◌≡◌, refl, subst, Option, none, some, map, arith, length}
use axor_wrap.Base.Dict.{Dict}
use axor_wrap.Errors.{ok}
use axor_wrap.Value.{Value}
use axor_wrap.Governor.{Governor}
use axor_wrap.Trace.Recorder.{RecordedCall, SessionRecorder, session_recorder, every_intent}
use axor_wrap.Trace.Pairing.{Pair, verdict_events, judged_tool, paired, zipped}
use axor_wrap.Runtime.Toolset.{Host, call}
use axor_wrap.Runtime.Observed.{
  Journal, judged_names, recorded_names, SameNames, Aligned, call-Aligned,
}

module _ (W : Type 0) (G : Governor) where
  -- The calls of a session, one after another.
  unfoldable pub calls_in_order : List (String × Dict Value) → Host W G → Host W G
  calls_in_order [] h = h
  calls_in_order ((name, args) ∷ rest) h = calls_in_order rest (call W G name args h).1

  -- Each verdict stands beside a call of the tool that it judged.
  abbrev pub RightlyPaired : List (Pair G) → Type 0
  RightlyPaired [] = Unit
  RightlyPaired ((none, e) ∷ ps) = ⊥
  RightlyPaired ((some c, e) ∷ ps) = (c.tool ≡ judged_tool G e) × RightlyPaired ps

  same_length :
      (cs : List RecordedCall) (es : List (Governor.Event G))
      → map (λ c. c.tool) cs ≡ map (judged_tool G) es
      → length cs ≡ length es
  same_length [] [] p = refl
  same_length [] (e ∷ es) p = cc
  same_length (c ∷ cs) [] p = cc
  same_length (c ∷ cs) (e ∷ es) p = omega (arith, same_length cs es (cc))

  zipped-RightlyPaired :
      (cs : List RecordedCall) (es : List (Governor.Event G))
      → map (λ c. c.tool) cs ≡ map (judged_tool G) es
      → RightlyPaired (zipped G cs es)
  unfolding zipped
  zipped-RightlyPaired [] es p = tt
  zipped-RightlyPaired (c ∷ cs) [] p = tt
  zipped-RightlyPaired (c ∷ cs) (e ∷ es) p = (cc, zipped-RightlyPaired cs es (cc))

  paired-RightlyPaired :
      (cs : List RecordedCall) (es : List (Governor.Event G))
      → map (λ c. c.tool) cs ≡ map (judged_tool G) es
      → (ps : List (Pair G)) × (paired G cs es every_intent ≡ ok ps) × RightlyPaired ps
  unfolding paired
  paired-RightlyPaired cs es p =
      (zipped G cs es, ground (arith, same_length cs es p), zipped-RightlyPaired cs es p)

  calls_in_order-Aligned :
      Journal W G
      → (calls : List (String × Dict Value)) (h : Host W G) → Aligned W G h
      → Aligned W G (calls_in_order calls h)
  unfolding calls_in_order
  calls_in_order-Aligned laws [] h a = a
  calls_in_order-Aligned laws ((name, args) ∷ rest) h a =
      calls_in_order-Aligned laws rest (call W G name args h).1
        (call-Aligned W G laws name args h a)

  paired_of_Aligned :
      (h : Host W G) (o : Option SessionRecorder)
      → h.toolset.recorder ≡ o
      → Aligned W G h
      → (r : SessionRecorder) × (h.toolset.recorder ≡ some r)
        × ((ps : List (Pair G)) × (paired G r.calls
                (verdict_events G (Governor.trace_events G h.toolset.governor))
                every_intent
              ≡ ok ps)
            × RightlyPaired ps)
  unfolding judged_names recorded_names
  paired_of_Aligned h none p a =
      absurd
        (subst (λ o. SameNames W G (recorded_names o) (judged_names W G h.toolset.governor)) p a)
  paired_of_Aligned h (some r) p a =
      let names =
        subst (λ o. SameNames W G (recorded_names o) (judged_names W G h.toolset.governor)) p a in
      (
        r,
        p,
        paired-RightlyPaired r.calls (verdict_events G (Governor.trace_events G h.toolset.governor))
            names,
      )

  -- With a governor that adds one verdict for each evaluation, of the tool it was asked about: after
  -- any calls of a session that records from its start, `_paired` succeeds on what was recorded, and
  -- it puts each verdict beside a call of the tool that the verdict is about.
  pub session-paired :
      Journal W G
      → (calls : List (String × Dict Value)) (h : Host W G)
      → h.toolset.recorder ≡ some session_recorder
      → judged_names W G h.toolset.governor ≡ []
      → let t = calls_in_order calls h in
        (r : SessionRecorder) × (t.toolset.recorder ≡ some r)
        × ((ps : List (Pair G)) × (paired G r.calls
                (verdict_events G (Governor.trace_events G t.toolset.governor))
                every_intent
              ≡ ok ps)
            × RightlyPaired ps)
  unfolding recorded_names
  session-paired laws calls h new silent =
      let t = calls_in_order calls h in
      paired_of_Aligned t t.toolset.recorder refl
        (calls_in_order-Aligned laws calls h (starts new silent))
    where
      starts :
          h.toolset.recorder ≡ some session_recorder
          → judged_names W G h.toolset.governor ≡ []
          → Aligned W G h
      starts new silent = rw (new, silent)
