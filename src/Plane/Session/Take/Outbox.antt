-- ===== src/Plane/Session/Take/Outbox.antt =====
-- Taking a one-shot only adds to the outbox.
use axor_wrap.Base.{String, Option, none, some, arith, refl}
use axor_wrap.Base.Dict.{Dict}
use axor_wrap.Value.{Value}
use axor_wrap.Plane.Kernel.{Kernel, Injection, Excision}
use axor_wrap.Plane.Session.State.{PlaneSession, Replan, emit}
use axor_wrap.Plane.Session.Outbox.{
  Extends, Extends-same, Extends-refl, Extends-trans, emit-Extends,
}
use axor_wrap.Plane.Session.Take.{
  consume, offer_injection, take_pending_injection, offer_excision, perform_excision,
  taken_injection, taken_replan, taken_excision, take_pending_excision, offer_replan,
  take_pending_replan,
}

consume-Extends : (id : String) (s : PlaneSession) → Extends s (consume id s)
unfolding consume
consume-Extends id s = Extends-same s _ refl

emit-consume-Extends :
    (kind id : String) (p : Value) (s : PlaneSession) → Extends s (emit kind p (consume id s))
emit-consume-Extends kind id p s =
    Extends-trans s (consume id s) (emit kind p (consume id s)) (consume-Extends id s)
      (emit-Extends kind p (consume id s))

offer_injection-Extends : (i : Injection) (s : PlaneSession) → Extends s (offer_injection i s).0
unfolding offer_injection
offer_injection-Extends i s = grind (arith, Extends-refl, emit-Extends, emit-consume-Extends)

offer_replan-Extends : (r : Replan) (s : PlaneSession) → Extends s (offer_replan r s).0
unfolding offer_replan
offer_replan-Extends r s = grind (arith, Extends-refl, emit-Extends, emit-consume-Extends)

taken_injection-Extends :
    (o : Option Injection) (s : PlaneSession) → Extends s (taken_injection o s).0
unfolding taken_injection
taken_injection-Extends none s = Extends-refl s
taken_injection-Extends (some i) s =
    let t = record s { pending_injection = none } in
    Extends-trans s t (offer_injection i t).0 (Extends-same s t refl) (offer_injection-Extends i t)

pub take_pending_injection-Extends : (s : PlaneSession) → Extends s (take_pending_injection s).0
unfolding take_pending_injection
take_pending_injection-Extends s = taken_injection-Extends s.pending_injection s

taken_replan-Extends : (o : Option Replan) (s : PlaneSession) → Extends s (taken_replan o s).0
unfolding taken_replan
taken_replan-Extends none s = Extends-refl s
taken_replan-Extends (some r) s =
    let t = record s { pending_replan = none } in
    Extends-trans s t (offer_replan r t).0 (Extends-same s t refl) (offer_replan-Extends r t)

pub take_pending_replan-Extends : (s : PlaneSession) → Extends s (take_pending_replan s).0
unfolding take_pending_replan
take_pending_replan-Extends s = taken_replan-Extends s.pending_replan s

module _ (kernel : Kernel) where
  perform_excision-Extends :
      (d : Dict String) (x : Excision) (s : PlaneSession)
      → Extends s (perform_excision kernel d x s).1
  unfolding perform_excision
  perform_excision-Extends d x s = grind (arith, consume-Extends, emit-consume-Extends)

  offer_excision-Extends :
      (d : Dict String) (x : Excision) (s : PlaneSession)
      → Extends s (offer_excision kernel d x s).1
  unfolding offer_excision
  offer_excision-Extends d x s =
      grind (arith, Extends-refl, emit-Extends, perform_excision-Extends d x s)

  taken_excision-Extends :
      (d : Dict String) (o : Option Excision) (s : PlaneSession)
      → Extends s (taken_excision kernel d o s).1
  unfolding taken_excision
  taken_excision-Extends d none s = Extends-refl s
  taken_excision-Extends d (some x) s =
      let t = record s { pending_excision = none } in
      Extends-trans s t (offer_excision kernel d x t).1 (Extends-same s t refl)
        (offer_excision-Extends d x t)

  pub take_pending_excision-Extends :
      (d : Dict String) (s : PlaneSession) → Extends s (take_pending_excision kernel d s).1
  unfolding take_pending_excision
  take_pending_excision-Extends d s = taken_excision-Extends d s.pending_excision s
