-- ===== src/Plane/Session/Take/Lattice.antt =====
-- Taking a one-shot only narrows a session.
use axor_wrap.Base.{String, Option, none, some, arith, contains-insert_new}
use axor_wrap.Base.Dict.{Dict}
use axor_wrap.Value.{Value}
use axor_wrap.Plane.Kernel.{Kernel, Injection, Excision}
use axor_wrap.Plane.Session.State.{PlaneSession, Replan, emit}
use axor_wrap.Plane.Session.Narrows.{Narrows, CapLe-refl, Narrows-refl, Narrows-trans}
use axor_wrap.Plane.Session.Take.{
  consume, offer_injection, take_pending_injection, offer_excision, perform_excision,
  taken_injection, taken_replan, taken_excision, take_pending_excision, offer_replan,
  take_pending_replan,
}

consume-Narrows : (id : String) (s : PlaneSession) → Narrows s (consume id s)
unfolding consume
consume-Narrows id s = record {
  version = omega arith;
  stays_stopped = λ h. h;
  cap = CapLe-refl s.budget_cap_calls;
  consumed = λ j h. rw (contains-insert_new id j s.consumed_ids) (ground arith);
  keys = cc;
  node = cc;
  bench = cc;
}

emit-Narrows : (kind : String) (p : Value) (s : PlaneSession) → Narrows s (emit kind p s)
unfolding emit
emit-Narrows kind p s = ground (arith, CapLe-refl s.budget_cap_calls)

emit-consume-Narrows :
    (kind id : String) (p : Value) (s : PlaneSession) → Narrows s (emit kind p (consume id s))
emit-consume-Narrows kind id p s =
    Narrows-trans s (consume id s) (emit kind p (consume id s)) (consume-Narrows id s)
      (emit-Narrows kind p (consume id s))

offer_injection-Narrows : (i : Injection) (s : PlaneSession) → Narrows s (offer_injection i s).0
unfolding offer_injection
offer_injection-Narrows i s = grind (arith, Narrows-refl, emit-Narrows, emit-consume-Narrows)

offer_replan-Narrows : (r : Replan) (s : PlaneSession) → Narrows s (offer_replan r s).0
unfolding offer_replan
offer_replan-Narrows r s = grind (arith, Narrows-refl, emit-Narrows, emit-consume-Narrows)

cleared_injection : (s : PlaneSession) → Narrows s (record s { pending_injection = none })
cleared_injection s = ground (arith, CapLe-refl s.budget_cap_calls)

cleared_replan : (s : PlaneSession) → Narrows s (record s { pending_replan = none })
cleared_replan s = ground (arith, CapLe-refl s.budget_cap_calls)

cleared_excision : (s : PlaneSession) → Narrows s (record s { pending_excision = none })
cleared_excision s = ground (arith, CapLe-refl s.budget_cap_calls)

taken_injection-Narrows :
    (o : Option Injection) (s : PlaneSession) → Narrows s (taken_injection o s).0
unfolding taken_injection
taken_injection-Narrows none s = Narrows-refl s
taken_injection-Narrows (some i) s =
    let t = record s { pending_injection = none } in
    Narrows-trans s t (offer_injection i t).0 (cleared_injection s) (offer_injection-Narrows i t)

pub take_pending_injection-Narrows : (s : PlaneSession) → Narrows s (take_pending_injection s).0
unfolding take_pending_injection
take_pending_injection-Narrows s = taken_injection-Narrows s.pending_injection s

taken_replan-Narrows : (o : Option Replan) (s : PlaneSession) → Narrows s (taken_replan o s).0
unfolding taken_replan
taken_replan-Narrows none s = Narrows-refl s
taken_replan-Narrows (some r) s =
    let t = record s { pending_replan = none } in
    Narrows-trans s t (offer_replan r t).0 (cleared_replan s) (offer_replan-Narrows r t)

pub take_pending_replan-Narrows : (s : PlaneSession) → Narrows s (take_pending_replan s).0
unfolding take_pending_replan
take_pending_replan-Narrows s = taken_replan-Narrows s.pending_replan s

module _ (kernel : Kernel) where
  perform_excision-Narrows :
      (d : Dict String) (x : Excision) (s : PlaneSession)
      → Narrows s (perform_excision kernel d x s).1
  unfolding perform_excision
  perform_excision-Narrows d x s = grind (arith, consume-Narrows, emit-consume-Narrows)

  offer_excision-Narrows :
      (d : Dict String) (x : Excision) (s : PlaneSession)
      → Narrows s (offer_excision kernel d x s).1
  unfolding offer_excision
  offer_excision-Narrows d x s =
      grind (arith, Narrows-refl, emit-Narrows, perform_excision-Narrows d x s)

  taken_excision-Narrows :
      (d : Dict String) (o : Option Excision) (s : PlaneSession)
      → Narrows s (taken_excision kernel d o s).1
  unfolding taken_excision
  taken_excision-Narrows d none s = Narrows-refl s
  taken_excision-Narrows d (some x) s =
      let t = record s { pending_excision = none } in
      Narrows-trans s t (offer_excision kernel d x t).1 (cleared_excision s)
        (offer_excision-Narrows d x t)

  pub take_pending_excision-Narrows :
      (d : Dict String) (s : PlaneSession) → Narrows s (take_pending_excision kernel d s).1
  unfolding take_pending_excision
  take_pending_excision-Narrows d s = taken_excision-Narrows d s.pending_excision s
