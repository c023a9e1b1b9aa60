-- ===== src/Trace/Redaction.antt =====
-- trace.py: a value that is labelled sensitive leaves its content out of the trace.
use axor_wrap.Base.{
  ℕ, suc, String, Bool, true, false, not, none, some, Option, List, [], ◌∷◌, ◌++◌, map, ◌≡◌, refl,
  subst, contains, arith, ◌==◌,
}
use axor_wrap.Base.Dict.{Dict, lookup, insert}
use axor_wrap.Errors.{ok, bind-ok, ok_inj}
use axor_wrap.Value.{Value}
use axor_wrap.Compile.Manifests.{texts}
use axor_wrap.Governor.{Governor}
use axor_wrap.Trace.Recorder.{RecordedCall}
use axor_wrap.Trace.Pairing.{Pair, paired, verdict_events}
use axor_wrap.Trace.Fields.{expand_path, strip_result, normalize}
use axor_wrap.Trace.Ledger.{
  Ledger, new_ledger, Entry, sensitive_label, redacted_preview, mint, mint_tainted, mint_argument,
  mint_read, mint_found, mint_patterns,
}
use axor_wrap.Trace.Build.{
  TraceEvent, provenance_of, refs_of, intent_bindings, bind_args, decision_of, executed_events,
  result_events, build_events, mint_untrusted_fields, manifest_of, manifests_by_id,
}
use axor_wrap.Trace.Document.{Trace, Labels, build_trace}

-- An entry that is labelled sensitive has neither the value nor a preview of it.
abbrev pub Redacted : Entry → Type 0
Redacted e =
    contains e.labels sensitive_label ≡ true
    → (e.decision_value ≡ none) × (e.preview ≡ redacted_preview)

abbrev pub AllRedacted : List Entry → Type 0
AllRedacted [] = Unit
AllRedacted (e ∷ es) = Redacted e × AllRedacted es

AllRedacted-append :
    (es : List Entry) (e : Entry) → AllRedacted es → Redacted e → AllRedacted (es ++ e ∷ [])
AllRedacted-append [] e k r = (r, tt)
AllRedacted-append (x ∷ es) e (k, ks) r = (k, AllRedacted-append es e ks r)

abbrev KeepsRedacted : Ledger → Ledger → Type 0
KeepsRedacted l l' = AllRedacted l.values → AllRedacted l'.values

module _ (G : Governor) where
  mint_tainted-Redacted :
      (tool name : String) (value : Value) (s : Bool) (taints : List String) (l : Ledger)
      → KeepsRedacted l (mint_tainted G tool name value s taints l).1
  unfolding mint_tainted mint
  mint_tainted-Redacted tool name value s [] l k =
      AllRedacted-append l.values _ k (λ e. absurd (ground arith))
  mint_tainted-Redacted tool name value true (t ∷ ts) l k =
      AllRedacted-append l.values _ k (λ e. (refl, refl))
  mint_tainted-Redacted tool name value false (t ∷ ts) l k =
      AllRedacted-append l.values _ k (λ e. absurd (ground arith))

  mint_read-Redacted :
      (tool path : String) (value : Value) (s : Bool) (l : Ledger)
      → KeepsRedacted l (mint_read G tool path value s l).1
  unfolding mint_read mint
  mint_read-Redacted tool path value true l k = AllRedacted-append l.values _ k (λ e. (refl, refl))
  mint_read-Redacted tool path value false l k =
      AllRedacted-append l.values _ k (λ e. absurd (ground arith))

  mint_found-Redacted :
      (tool : String) (s : Bool) (found : List (String × Value)) (l : Ledger)
      → KeepsRedacted l (mint_found G tool s found l).1
  unfolding mint_found
  mint_found-Redacted tool s [] l k = k
  mint_found-Redacted tool s ((path, value) ∷ rest) l k =
      mint_found-Redacted tool s rest (mint_read G tool path value s l).1
        (mint_read-Redacted tool path value s l k)

  mint_patterns-Redacted :
      (tool : String) (hidden : List String) (result : Value) (patterns : List String) (l : Ledger)
      → KeepsRedacted l (mint_patterns G tool hidden result patterns l).1
  unfolding mint_patterns
  mint_patterns-Redacted tool hidden result [] l k = k
  mint_patterns-Redacted tool hidden result (pattern ∷ rest) l k =
      let found = expand_path result (strip_result pattern) in
      let s = contains hidden (normalize pattern) in
      mint_patterns-Redacted tool hidden result rest (mint_found G tool s found l).1
        (mint_found-Redacted tool s found l k)

  bind_args-Redacted :
      (tool : String) (refs args : Dict Value) (bindings : Dict String) (l : Ledger)
      (p : Dict String × Ledger)
      → bind_args G tool refs args bindings l ≡ ok p
      → KeepsRedacted l p.1
  unfolding bind_args mint_argument
  bind_args-Redacted tool refs [] bindings l p h k =
      subst (λ q. AllRedacted q.1.values) (ok_inj _ p h) k
  bind_args-Redacted tool refs ((name, value) ∷ rest) bindings l p h k =
      let (ref, ref_ok, h1) = bind-ok (provenance_of (lookup name refs)) _ p h in
      let minted = mint_argument G tool name value ref l in
      bind_args-Redacted tool refs rest (insert name minted.0 bindings) minted.1 p h1
        (mint_tainted-Redacted tool name value ref.is_sensitive ref.taints l k)

  intent-Redacted :
      (refs : Dict Value) (seen : Option RecordedCall) (l : Ledger) (p : Dict String × Ledger)
      → intent_bindings G refs seen l ≡ ok p
      → KeepsRedacted l p.1
  unfolding intent_bindings
  intent-Redacted refs none l p h = subst (λ q. KeepsRedacted l q.1) (ok_inj _ p h) (λ k. k)
  intent-Redacted refs (some c) l p h = bind_args-Redacted c.tool refs c.args [] l p h

  executed-Redacted :
      (by_id : Dict (Dict Value)) (c : RecordedCall) (seq : ℕ) (l : Ledger) (b : Bool)
      (p : List TraceEvent × ℕ × Ledger)
      → executed_events G by_id c seq l b ≡ ok p
      → KeepsRedacted l p.2
  unfolding mint_untrusted_fields
  executed-Redacted by_id c seq l false p h =
      subst (λ q. KeepsRedacted l q.2) (ok_inj _ p h) (λ k. k)
  executed-Redacted by_id c seq l true p h =
      let manifest = manifest_of G by_id c.tool in
      let (minted, minted_ok, h1) =
        bind-ok (mint_untrusted_fields G manifest c.tool c.result l) _ p h in
      let (hidden, hidden_ok, h2) =
        bind-ok (texts "sensitive_fields" manifest) _ minted minted_ok in
      let (patterns, patterns_ok, h3) = bind-ok (texts "untrusted_fields" manifest) _ minted h2 in
      let keeps = mint_patterns-Redacted c.tool (map normalize hidden) c.result patterns l in
      subst (λ q. KeepsRedacted l q.2) (ok_inj _ p h1)
        (subst (λ q. KeepsRedacted l q.1) (ok_inj _ minted h3) keeps)

  results-Redacted :
      (by_id : Dict (Dict Value)) (seen : Option RecordedCall) (seq : ℕ) (l : Ledger)
      (p : List TraceEvent × ℕ × Ledger)
      → result_events G by_id seen seq l ≡ ok p
      → KeepsRedacted l p.2
  unfolding result_events
  results-Redacted by_id none seq l p h = subst (λ q. KeepsRedacted l q.2) (ok_inj _ p h) (λ k. k)
  results-Redacted by_id (some c) seq l p h = executed-Redacted by_id c seq l c.executed p h

  build_events-Redacted :
      (by_id : Dict (Dict Value)) (enforced : Bool) (pairs : List (Pair G)) (index seq : ℕ)
      (l : Ledger) (built : List TraceEvent × Ledger)
      → build_events G by_id enforced pairs index seq l ≡ ok built
      → KeepsRedacted l built.1
  unfolding build_events
  build_events-Redacted by_id enforced [] index seq l built h k =
      subst (λ b. AllRedacted b.1.values) (ok_inj _ built h) k
  build_events-Redacted by_id enforced ((seen, event) ∷ pairs) index seq l built h k =
      let (refs, refs_ok, h1) = bind-ok (refs_of (Governor.payload G event)) _ built h in
      let (bound, bound_ok, h2) = bind-ok (intent_bindings G refs seen l) _ built h1 in
      let (decision, decision_ok, h3) = bind-ok (decision_of G event bound.0 enforced) _ built h2 in
      let (produced, produced_ok, h4) =
        bind-ok (result_events G by_id seen (suc (suc seq)) bound.1) _ built h3 in
      let (rest, rest_ok, h5) =
        bind-ok (build_events G by_id enforced pairs (suc index) produced.1 produced.2) _ built
          h4 in
      subst (λ b. AllRedacted b.1.values) (ok_inj _ built h5)
        (build_events-Redacted by_id enforced pairs (suc index) produced.1 produced.2 rest rest_ok (
          results-Redacted by_id seen (suc (suc seq)) bound.1 produced produced_ok
            (intent-Redacted refs seen l bound bound_ok k)))

  -- In a trace that is built, a value that is labelled sensitive carries neither its content nor a
  -- preview of it.
  pub build_trace-AllRedacted :
      (calls : List RecordedCall) (events : List (Governor.Event G)) (manifests : List (Dict Value))
      (enforcement observes : String) (labels : Labels G) (t : Trace)
      → build_trace G calls events manifests enforcement observes labels ≡ ok t
      → AllRedacted t.values
  unfolding build_trace
  build_trace-AllRedacted calls events manifests enforcement observes labels t h =
      let (pairs, pairs_ok, h1) =
        bind-ok (paired G calls (verdict_events G events) observes) _ t h in
      let (built, built_ok, h2) =
        bind-ok
          (build_events G (manifests_by_id G [] manifests) (not (enforcement == "off")) pairs 0 0
            new_ledger)
          _ t h1 in
      subst (λ x. AllRedacted x.values) (ok_inj _ t h2)
        (build_events-Redacted (manifests_by_id G [] manifests) (not (enforcement == "off")) pairs 0
          0 new_ledger built built_ok tt)
