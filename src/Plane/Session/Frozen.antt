-- ===== src/Plane/Session/Frozen.antt =====
-- What a stopped node keeps: everything that a command could change but the version and the outbox.
use axor_wrap.Base.{true, ◌≡◌, refl, ◌∙◌}
use axor_wrap.Plane.Session.State.{PlaneSession}

pub record SameEffects (s t : PlaneSession) : Type 0 where
  pub paused : t.paused ≡ s.paused
  pub stopped : t.stopped ≡ s.stopped
  pub cap : t.budget_cap_calls ≡ s.budget_cap_calls
  pub injection : t.pending_injection ≡ s.pending_injection
  pub excision : t.pending_excision ≡ s.pending_excision
  pub replan : t.pending_replan ≡ s.pending_replan
  pub consumed : t.consumed_ids ≡ s.consumed_ids

pub SameEffects-refl : (s : PlaneSession) → SameEffects s s
SameEffects-refl s = record {
  paused = refl;
  stopped = refl;
  cap = refl;
  injection = refl;
  excision = refl;
  replan = refl;
  consumed = refl;
}

pub SameEffects-trans : (s t u : PlaneSession) → SameEffects s t → SameEffects t u → SameEffects s u
SameEffects-trans s t u a b = record {
  paused = b.paused ∙ a.paused;
  stopped = b.stopped ∙ a.stopped;
  cap = b.cap ∙ a.cap;
  injection = b.injection ∙ a.injection;
  excision = b.excision ∙ a.excision;
  replan = b.replan ∙ a.replan;
  consumed = b.consumed ∙ a.consumed;
}

pub record Frozen (s t : PlaneSession) : Type 0 where
  pub effects : s.stopped ≡ true → SameEffects s t

pub Frozen-refl : (s : PlaneSession) → Frozen s s
Frozen-refl s = record { effects = λ h. SameEffects-refl s }

pub Frozen-trans : (s t u : PlaneSession) → Frozen s t → Frozen t u → Frozen s u
Frozen-trans s t u a b = record {
  effects = λ h. SameEffects-trans s t u (a.effects h) (b.effects ((a.effects h).stopped ∙ h));
}
