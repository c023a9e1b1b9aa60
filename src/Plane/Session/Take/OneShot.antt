-- ===== src/Plane/Session/Take/OneShot.antt =====
-- What is true when a one-shot is handed to the runtime.
use axor_wrap.Base.{
  String, true, false, ◌≡◌, none, some, [], arith, contains, contains-insert_new, eq_refl,
}
use axor_wrap.Base.Dict.{Dict}
use axor_wrap.Base.Text.{empty}
use axor_wrap.Errors.{ok}
use axor_wrap.Plane.Kernel.{Kernel, Injection, Excision}
use axor_wrap.Plane.Session.State.{PlaneSession, Replan, emit}
use axor_wrap.Plane.Session.Take.{
  consume, offer_injection, taken_injection, take_pending_injection, offer_replan, taken_replan,
  take_pending_replan, perform_excision, offer_excision, taken_excision, take_pending_excision,
}

-- An id that was new and is now used up.
pub record UsedUp (id : String) (s t : PlaneSession) : Type 0 where
  pub before : contains s.consumed_ids id ≡ false
  pub after : contains t.consumed_ids id ≡ true

pub take_pending_injection-UsedUp :
    (s t : PlaneSession) (i : Injection)
    → take_pending_injection s ≡ (t, some i)
    → UsedUp i.injection_id s t
unfolding take_pending_injection taken_injection offer_injection emit consume
take_pending_injection-UsedUp s t i h = ground (
  arith,
  contains-insert_new i.injection_id i.injection_id s.consumed_ids,
  eq_refl i.injection_id,
)

pub take_pending_replan-UsedUp :
    (s t : PlaneSession) (r : Replan)
    → take_pending_replan s ≡ (t, some r)
    → empty r.id ≡ false
    → UsedUp r.id s t
unfolding take_pending_replan taken_replan offer_replan emit consume
take_pending_replan-UsedUp s t r h e =
    ground (arith, contains-insert_new r.id r.id s.consumed_ids, eq_refl r.id)

-- An injection reaches the runtime only on a test bench that is not stopped, and it is the pending
-- one.
pub take_pending_injection-guards :
    (s t : PlaneSession) (i : Injection)
    → take_pending_injection s ≡ (t, some i)
    → (s.pending_injection ≡ some i)
      × (s.stopped ≡ false)
      × (s.test_bench ≡ true)
      × (t.pending_injection ≡ none)
unfolding take_pending_injection taken_injection offer_injection emit consume
take_pending_injection-guards s t i h = ground arith

module _ (kernel : Kernel) where
  pub take_pending_excision-UsedUp :
      (d : Dict String) (s t : PlaneSession) (x : Excision)
      → take_pending_excision kernel d s ≡ (ok (some x), t)
      → UsedUp x.excision_id s t
  unfolding take_pending_excision taken_excision offer_excision perform_excision emit consume
  take_pending_excision-UsedUp d s t x h =
      ground (
        arith,
        contains-insert_new x.excision_id x.excision_id s.consumed_ids,
        eq_refl x.excision_id,
      )

  -- An excision reaches the runtime only if the kernel's guard refuses none of its targets, and it
  -- is the pending one.
  pub take_pending_excision-guards :
      (d : Dict String) (s t : PlaneSession) (x : Excision)
      → take_pending_excision kernel d s ≡ (ok (some x), t)
      → (s.pending_excision ≡ some x)
        × (kernel.excision_refused_refs x d ≡ [])
        × (t.pending_excision ≡ none)
  unfolding take_pending_excision taken_excision offer_excision perform_excision emit consume
  take_pending_excision-guards d s t x h = ground arith
