-- ===== src/Plane/Session/Apply.antt =====
-- `PlaneSession._apply`: one command, after its signature was looked at. It may raise on a body that
-- is not shaped as the method expects; what it wrote before stays written.
pub mod Lattice
pub mod Outbox
pub mod Absorb
use axor_wrap.Base.{
  ℤ, String, ◌<>◌, Bool, true, false, Option, none, some, List, [], leb_ℤ, ltb_ℤ, if◌then◌else◌,
}
use axor_wrap.Base.Dict.{Dict, lookup}
use axor_wrap.Base.Text.{decimal_ℤ}
use axor_wrap.Errors.{Result, ok, err, type_error, attribute_error}
use axor_wrap.Errors.Exec.{Exec, pure, raise, modify, ◌>>=◌, ◌>>◌}
use axor_wrap.Value.{Value, null, obj, Fields, entries, truthy, to_int, iterate}
use axor_wrap.Value.Show.{show}
use axor_wrap.Plane.Kernel.{Injection, Excision}
use axor_wrap.Plane.Session.State.{
  PlaneSession, AppliedEffect, Replan, applied, noop_absorbed, noop_stale, rejected_widening,
  report,
}

-- `bool(state[k])` if `k in state`, else what it was
flag : String → Dict Value → Bool → Bool
unfolding lookup truthy
flag k state old = elim (lookup k state) [ none ↦ old | some v ↦ truthy v ]

set_posture : Dict Value → PlaneSession → PlaneSession
unfolding flag
set_posture state s = record s {
  stopped = flag "stopped" state s.stopped;
  paused = flag "paused" state s.paused;
}

abbrev widens : ℤ → Option ℤ → Bool
widens requested none = false
widens requested (some current) = ltb_ℤ current requested

abbrev cap_text : Option ℤ → String
cap_text none = "None"
cap_text (some n) = decimal_ℤ n

widening : ℤ → Option ℤ → AppliedEffect
widening requested current = record {
  kind = rejected_widening;
  detail = "cap " <> (decimal_ℤ requested <> (" > local cap " <> cap_text current));
}

-- A cap that was asked for; `some` is the effect with which the method returns early.
set_cap : ℤ → ℤ → Exec PlaneSession (Option AppliedEffect)
unfolding widening report
set_cap version requested s = elim (widens requested s.budget_cap_calls) [
  | true ↦
      let effect = widening requested s.budget_cap_calls in
      (ok (some effect), report effect version s)
  | false ↦ (ok none, record s { budget_cap_calls = some requested })
]

abbrev present : Option Value → Option Value
present none = none
present (some null) = none
present (some v) = some v

set_budget : ℤ → Dict Value → Exec PlaneSession (Option AppliedEffect)
unfolding set_cap lookup to_int
set_budget version state s = elim (present (lookup "budget_cap_calls" state)) [
  | none ↦ (ok none, s)
  | some v ↦ elim (to_int v) [ ok requested ↦ set_cap version requested s | err e ↦ (err e, s) ]
]

-- `state.get(k)`, if that is true
truthy_field : String → Dict Value → Option Value
unfolding lookup truthy
truthy_field k state = elim (lookup k state) [
  | none ↦ none
  | some v ↦ if truthy v then some v else none
]

-- `str(d.get(k, default))`
text_or : String → String → Fields → String
unfolding lookup entries show
text_or default k fs = elim (lookup k (entries fs)) [ none ↦ default | some v ↦ show v ]

text : String → Fields → String
unfolding text_or
text k fs = text_or "" k fs

replan_of : Value → Replan
unfolding text
replan_of (obj fs) = record {
  id = text "id" fs;
  reason = text "reason" fs;
  operator = text "operator" fs;
}
replan_of v = record { id = ""; reason = ""; operator = "" }

set_replan : Dict Value → PlaneSession → PlaneSession
unfolding truthy_field replan_of
set_replan state s = elim (truthy_field "replan" state) [
  | none ↦ s
  | some v ↦ record s { pending_replan = some (replan_of v) }
]

-- `.get` of a value that is no dict raises
injection_of : Value → Result Injection
unfolding text text_or
injection_of (obj fs) = ok (record {
  injection_id = text_or (text "injection_id" fs) "id" fs;
  text = text "text" fs;
  reason = text "reason" fs;
  operator = text "operator" fs;
  sig = text "sig" fs;
})
injection_of v = err attribute_error

set_injection : Dict Value → Exec PlaneSession (Unit {0})
unfolding truthy_field injection_of
set_injection state s = elim (truthy_field "pending_injection" state) [
  | none ↦ (ok tt, s)
  | some v ↦ elim (injection_of v) [
    | ok inj ↦ (ok tt, record s { pending_injection = some inj })
    | err e ↦ (err e, s)
  ]
]

-- `tuple(exc.get("target_refs", ()))`
abbrev refs_of : Option Value → Option (List Value)
refs_of none = some []
refs_of (some v) = iterate v

excision_of : Value → Result Excision
unfolding text text_or lookup entries iterate
excision_of (obj fs) = elim (refs_of (lookup "target_refs" (entries fs))) [
  | none ↦ err type_error
  | some refs ↦ ok (record {
    excision_id = text_or (text "excision_id" fs) "id" fs;
    target_refs = refs;
    reason = text "reason" fs;
    operator = text "operator" fs;
    sig = text "sig" fs;
  })
]
excision_of v = err attribute_error

set_excision : Dict Value → Exec PlaneSession (Unit {0})
unfolding truthy_field excision_of
set_excision state s = elim (truthy_field "pending_excision" state) [
  | none ↦ (ok tt, s)
  | some v ↦ elim (excision_of v) [
    | ok exc ↦ (ok tt, record s { pending_excision = some exc })
    | err e ↦ (err e, s)
  ]
]

abbrev pub applied_effect : AppliedEffect
applied_effect = record { kind = applied; detail = "" }

abbrev pub stopped_effect : AppliedEffect
stopped_effect = record { kind = noop_absorbed; detail = "node is stopped" }

abbrev pub stale_effect : ℤ → AppliedEffect
stale_effect version = record {
  kind = noop_stale;
  detail = "version " <> (decimal_ℤ version <> " already applied");
}

set_one_shots : ℤ → Dict Value → Option AppliedEffect → Exec PlaneSession AppliedEffect
unfolding set_replan set_injection set_excision report
set_one_shots version state (some effect) = pure effect
set_one_shots version state none = do
  modify (set_replan state)
  set_injection state
  set_excision state
  modify (report applied_effect version)
  pure applied_effect

-- The body after the guards on the version and on a stopped node.
set_fields : ℤ → Dict Value → Exec PlaneSession AppliedEffect
unfolding set_posture set_budget set_one_shots
set_fields version state = do
  modify (set_posture state)
  early ← set_budget version state
  set_one_shots version state early

absorb : ℤ → Exec PlaneSession AppliedEffect
unfolding report
absorb version s = (ok stopped_effect, report stopped_effect version s)

apply_fresh : ℤ → Dict Value → Bool → Exec PlaneSession AppliedEffect
unfolding absorb set_fields
apply_fresh version state true = absorb version
apply_fresh version state false = set_fields version state

unfoldable pub apply : ℤ → Dict Value → Exec PlaneSession AppliedEffect
unfolding apply_fresh
apply version state s =
    if leb_ℤ version s.applied_version
    then (ok (stale_effect version), s)
    else apply_fresh version state s.stopped (record s { applied_version = version })
