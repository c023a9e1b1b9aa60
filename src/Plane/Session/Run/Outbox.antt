-- ===== src/Plane/Session/Run/Outbox.antt =====
-- Whatever the host calls, events are only added to the outbox, in order.
use axor_wrap.Base.{ℕ, zero, suc, List, [], ◌∷◌, ◌++◌, length, ◌≡◌, refl, sym, ap, ◌∙◌}
use axor_wrap.Plane.Kernel.{Kernel}
use axor_wrap.Plane.Session.State.{PlaneSession, Event}
use axor_wrap.Plane.Session.Outbox.{Extends, Extends-refl, Extends-trans}
use axor_wrap.Plane.Session.Snapshot.Outbox.{apply_snapshot-Extends, apply_delta-Extends}
use axor_wrap.Plane.Session.Take.Outbox.{
  take_pending_injection-Extends, take_pending_replan-Extends, take_pending_excision-Extends,
}
use axor_wrap.Plane.Session.Run.{Call, delta, snapshot, injection, replan, excision, step, run}

abbrev drop : ℕ → List Event → List Event
drop zero es = es
drop (suc n) [] = []
drop (suc n) (e ∷ es) = drop n es

drop-append : (es more : List Event) → drop (length es) (es ++ more) ≡ more
drop-append [] more = refl
drop-append (e ∷ es) more = drop-append es more

module _ (kernel : Kernel) where
  step-Extends : (c : Call) (s : PlaneSession) → Extends s (step kernel c s)
  unfolding step
  step-Extends (delta c) s = apply_delta-Extends kernel c s
  step-Extends (snapshot v d cs) s = apply_snapshot-Extends kernel v d cs s
  step-Extends injection s = take_pending_injection-Extends s
  step-Extends replan s = take_pending_replan-Extends s
  step-Extends (excision p) s = take_pending_excision-Extends kernel p s

  pub run-Extends : (calls : List Call) (s : PlaneSession) → Extends s (run kernel calls s)
  unfolding run
  run-Extends [] s = Extends-refl s
  run-Extends (c ∷ cs) s =
      Extends-trans s (step kernel c s) (run kernel cs (step kernel c s)) (step-Extends c s)
        (run-Extends cs (step kernel c s))

  -- What calls emit: the events of the outbox behind those that were there.
  unfoldable pub emitted_by : List Call → PlaneSession → List Event
  unfolding run
  emitted_by calls s = drop (length s.outbox) (run kernel calls s).outbox

  pub run-emits :
      (calls : List Call) (s : PlaneSession)
      → (run kernel calls s).outbox ≡ (s.outbox ++ emitted_by calls s)
  unfolding emitted_by
  run-emits calls s =
      let new = run-Extends calls s in
      new.outbox
      ∙ ap (λ x. s.outbox ++ x)
          (sym (ap (drop (length s.outbox)) new.outbox ∙ drop-append s.outbox new.emitted))
