-- ===== src/Plane/Bridge/Translate/Order.antt =====
-- bridge.py: the events keep their numbers and their order.
use axor_wrap.Base.{
  ℤ, String, Bool, true, false, Option, none, some, List, [], ◌∷◌, map, ◌≡◌, ◌==◌, refl, sym, subst,
  Bool-cases, inl, inr, if◌then◌else◌,
}
use axor_wrap.Base.Dict.{Dict}
use axor_wrap.Plane.Bridge.Events.{
  TraceEvent, TraceEventKind, child_spawned_kind, child_stale_kind, child_completed,
  intent_approved, intent_transformed, other_kind, Detail, intent_denied, degradation_transition,
  source_quarantined, taint_propagated, suspicious_intent, child_spawned, child_stale, cancelled,
  no_class, Event,
}
use axor_wrap.Plane.Bridge.Labels.{occurs}
use axor_wrap.Plane.Bridge.Translate.{
  denied, by_kind, by_class, rest_of, if_approved, approved, spawned, stale, completed, transition,
  quarantined, propagated, suspicious, is_spawn, is_stale, is_completed, trace_event_to_kernel,
  also, trace_to_kernel, node_or,
}

-- The first list is what is left of the second when some of its elements are dropped.
pub data Thinned : List ℤ → List ℤ → Type 0 where
  done : Thinned [] []
  drop : (n : ℤ) (ms ns : List ℤ) → Thinned ms ns → Thinned ms (n ∷ ns)
  keep : (n : ℤ) (ms ns : List ℤ) → Thinned ms ns → Thinned (n ∷ ms) (n ∷ ns)

-- An event, if there is one, has this number.
abbrev HasNumber : ℤ → Option Event → Type 0
HasNumber n none = Unit
HasNumber n (some e) = e.seq ≡ n

if_number :
    (n : ℤ) (b : Bool) (o p : Option Event)
    → HasNumber n o
    → HasNumber n p
    → HasNumber n (if b then o else p)
if_number n true o p h k = h
if_number n false o p h k = k

if_approved-number :
    (event : TraceEvent) (nid : String) (kind : TraceEventKind)
    → HasNumber event.sequence (if_approved event nid kind)
unfolding approved
if_approved-number event nid intent_approved = refl
if_approved-number event nid intent_transformed = refl
if_approved-number event nid child_spawned_kind = tt
if_approved-number event nid child_stale_kind = tt
if_approved-number event nid child_completed = tt
if_approved-number event nid other_kind = tt

rest_of-number :
    (event : TraceEvent) (nid : String) (d : Detail) (kind : TraceEventKind)
    → HasNumber event.sequence (rest_of event nid d kind)
unfolding rest_of if_approved
rest_of-number event nid (cancelled reason detail) kind =
    if_number event.sequence (occurs "control plane" detail) _ _ refl tt
rest_of-number event nid (intent_denied r k) kind = if_approved-number event nid kind
rest_of-number event nid (degradation_transition a b c d) kind = if_approved-number event nid kind
rest_of-number event nid (source_quarantined a b) kind = if_approved-number event nid kind
rest_of-number event nid taint_propagated kind = if_approved-number event nid kind
rest_of-number event nid (suspicious_intent a b c d) kind = if_approved-number event nid kind
rest_of-number event nid (child_spawned a b) kind = if_approved-number event nid kind
rest_of-number event nid (child_stale a) kind = if_approved-number event nid kind
rest_of-number event nid no_class kind = if_approved-number event nid kind

by_kind-number : (event : TraceEvent) (nid : String) → HasNumber event.sequence (by_kind event nid)
unfolding by_kind spawned stale completed
by_kind-number event nid = if_number event.sequence (is_spawn event.detail event.kind) _ _ refl (
    if_number event.sequence (is_stale event.detail event.kind) _ _ refl (
      if_number event.sequence (is_completed event.kind) _ _ refl
        (rest_of-number event nid event.detail event.kind)))

module _ (gates : Dict String) where
  denied-number :
      (event : TraceEvent) (nid reason intent_kind : String)
      → (denied gates event nid reason intent_kind).seq ≡ event.sequence
  unfolding denied
  denied-number event nid reason intent_kind = elim (Bool-cases (intent_kind == "tool_call")) [
    | inl p ↦ rw (p) refl
    | inr p ↦ rw (p) refl
  ]

  by_class-number :
      (event : TraceEvent) (nid : String) (d : Detail)
      → HasNumber event.sequence (by_class gates event nid d)
  unfolding by_class transition quarantined propagated suspicious
  by_class-number event nid (intent_denied r k) = denied-number event nid r k
  by_class-number event nid (degradation_transition a b c d) = refl
  by_class-number event nid (source_quarantined a b) = refl
  by_class-number event nid taint_propagated = refl
  by_class-number event nid (suspicious_intent a b c d) = refl
  by_class-number event nid (child_spawned a b) = by_kind-number event nid
  by_class-number event nid (child_stale a) = by_kind-number event nid
  by_class-number event nid (cancelled a b) = by_kind-number event nid
  by_class-number event nid no_class = by_kind-number event nid

  also-Thinned :
      (n : ℤ) (o : Option Event) (out : List Event) (ns : List ℤ)
      → HasNumber n o
      → Thinned (map (λ e. e.seq) out) ns
      → Thinned (map (λ e. e.seq) (also gates o out)) (n ∷ ns)
  also-Thinned n none out ns h k = drop n _ ns k
  also-Thinned n (some e) out ns h k =
      subst (λ m. Thinned (m ∷ map (λ d. d.seq) out) (n ∷ ns)) (sym h) (keep n _ ns k)

  -- The kernel's events have the numbers of the trace's, in the same order: some are dropped, and
  -- none is repeated, moved or renumbered.
  pub trace_to_kernel-order :
      (nid : Option String) (events : List TraceEvent)
      → Thinned (map (λ e. e.seq) (trace_to_kernel gates nid events)) (map (λ e. e.sequence) events)
  unfolding trace_to_kernel trace_event_to_kernel
  trace_to_kernel-order nid [] = done
  trace_to_kernel-order nid (event ∷ events) =
      also-Thinned event.sequence (trace_event_to_kernel gates nid event)
        (trace_to_kernel gates nid events) _
        (by_class-number event (node_or nid event.node_id) event.detail)
        (trace_to_kernel-order nid events)
