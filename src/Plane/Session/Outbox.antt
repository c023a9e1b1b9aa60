-- ===== src/Plane/Session/Outbox.antt =====
-- What the outbox held is not taken from it by the session: events are only added, at the end.
use axor_wrap.Base.{String, ℤ, Bool-cases, inl, inr, List, [], ◌∷◌, ◌++◌, ◌≡◌, refl, sym, ap, ◌∙◌}
use axor_wrap.Value.{Value}
use axor_wrap.Plane.Session.State.{PlaneSession, AppliedEffect, Event, emit, report, is_applied}
use mathlib.Core.List.{append-nil, append_assoc}

pub record Extends (s t : PlaneSession) : Type 0 where
  pub emitted : List Event
  pub outbox : t.outbox ≡ (s.outbox ++ emitted)

pub Extends-same : (s t : PlaneSession) → t.outbox ≡ s.outbox → Extends s t
Extends-same s t h = record { emitted = []; outbox = h ∙ sym (append-nil s.outbox) }

pub Extends-refl : (s : PlaneSession) → Extends s s
Extends-refl s = Extends-same s s refl

pub Extends-trans : (s t u : PlaneSession) → Extends s t → Extends t u → Extends s u
Extends-trans s t u a b = record {
  emitted = a.emitted ++ b.emitted;
  outbox =
      b.outbox ∙ (ap (λ o. o ++ b.emitted) a.outbox ∙ append_assoc s.outbox a.emitted b.emitted);
}

pub emit-Extends : (kind : String) (p : Value) (s : PlaneSession) → Extends s (emit kind p s)
unfolding emit
emit-Extends kind p s = record { emitted = record { kind = kind; payload = p } ∷ []; outbox = refl }

pub report-Extends : (e : AppliedEffect) (v : ℤ) (s : PlaneSession) → Extends s (report e v s)
unfolding report
report-Extends e v s = elim (Bool-cases (is_applied e.kind)) [
  | inl p ↦ rw (p, report) (Extends-refl s)
  | inr p ↦ rw (p, report) (emit-Extends "state_applied" _ s)
]
