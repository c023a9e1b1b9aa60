-- ===== src/Plane/Session/Narrows.antt =====
-- What no command can undo: the order in which a session only moves down.
use axor_wrap.Base.{ℤ, ◌≤ℤ◌, String, true, Option, none, some, ◌≡◌, contains, arith, refl}
use axor_wrap.Plane.Session.State.{PlaneSession}

-- The first cap allows no more calls than the second; `none` is no cap.
abbrev pub CapLe : Option ℤ → Option ℤ → Type 0
CapLe new none = Unit
CapLe none (some old) = ⊥
CapLe (some new) (some old) = new ≤ℤ old

pub record Narrows (s t : PlaneSession) : Type 0 where
  pub version : s.applied_version ≤ℤ t.applied_version
  pub stays_stopped : s.stopped ≡ true → t.stopped ≡ true
  pub cap : CapLe t.budget_cap_calls s.budget_cap_calls
  pub consumed :
      (id : String) → contains s.consumed_ids id ≡ true → contains t.consumed_ids id ≡ true
  pub keys : t.operator_pubkeys ≡ s.operator_pubkeys
  pub node : t.node_id ≡ s.node_id
  pub bench : t.test_bench ≡ s.test_bench

pub CapLe-refl : (a : Option ℤ) → CapLe a a
CapLe-refl none = tt
CapLe-refl (some a) = omega arith

pub CapLe-trans : (a b c : Option ℤ) → CapLe a b → CapLe b c → CapLe a c
CapLe-trans a b none h k = tt
CapLe-trans none (some b) (some c) h k = h
CapLe-trans none none (some c) h k = k
CapLe-trans (some a) none (some c) h k = absurd k
CapLe-trans (some a) (some b) (some c) h k = omega arith

pub Narrows-refl : (s : PlaneSession) → Narrows s s
Narrows-refl s = record {
  version = omega arith;
  stays_stopped = λ h. h;
  cap = CapLe-refl s.budget_cap_calls;
  consumed = λ id h. h;
  keys = refl;
  node = refl;
  bench = refl;
}

pub Narrows-trans : (s t u : PlaneSession) → Narrows s t → Narrows t u → Narrows s u
Narrows-trans s t u a b = record {
  version = omega arith;
  stays_stopped = λ h. b.stays_stopped (a.stays_stopped h);
  cap = CapLe-trans u.budget_cap_calls t.budget_cap_calls s.budget_cap_calls b.cap a.cap;
  consumed = λ id h. b.consumed id (a.consumed id h);
  keys = cc;
  node = cc;
  bench = cc;
}
