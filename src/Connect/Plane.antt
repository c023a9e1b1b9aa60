-- ===== src/Connect/Plane.antt =====
-- `PlaneConnector`: the level and the admission of a node, from the posture of its session.
use axor_wrap.Base.{
  ℤ, String, Bool, true, false, Option, none, some, ◌≡◌, ◌↔◌, refl, arith, ap, sym, not, ◌||◌, ◌==◌,
  if◌then◌else◌,
}
use axor_wrap.Base.Dict.{Dict}
use axor_wrap.Errors.{Result, ok, err, connector, ok_inj}
use axor_wrap.Plane.Session.State.{PlaneSession, new_session, admit_intent}

pub record PlaneConnector : Type 0 where
  pub node_id : String
  pub operator_keys : Dict String
  pub test_bench : Bool
  pub local_budget_cap : Option ℤ
  pub session : Option PlaneSession

abbrev pub not_connected : {A : Type 0} → Result A
not_connected = err (connector 0 "not connected — call connect() first")

-- `_require_session`
abbrev pub require_session : Option PlaneSession → Result PlaneSession
require_session none = not_connected
require_session (some s) = ok s

abbrev pub level_of : PlaneSession → String
level_of s = if s.stopped then "RESTRICTED" else if s.paused then "CAUTIOUS" else "NORMAL"

abbrev then_level : Result PlaneSession → Result String
then_level (err e) = err e
then_level (ok s) = ok (level_of s)

abbrev then_admit : Result PlaneSession → Result Bool
unfolding admit_intent
then_admit (err e) = err e
then_admit (ok s) = ok (admit_intent s)

unfoldable pub level : PlaneConnector → Result String
level c = then_level (require_session c.session)

unfoldable pub admit : PlaneConnector → Result Bool
unfolding then_admit
admit c = then_admit (require_session c.session)

unfoldable pub connect : PlaneConnector → PlaneConnector
connect c = record c {
  session = some (new_session c.node_id c.operator_keys c.test_bench c.local_budget_cap);
}

abbrev posture_level : Bool → Bool → String
posture_level stopped paused =
    if stopped then "RESTRICTED" else if paused then "CAUTIOUS" else "NORMAL"

posture_level-normal :
    (stopped paused : Bool)
    → (posture_level stopped paused ≡ "NORMAL") ↔ (not (paused || stopped) ≡ true)
posture_level-normal false false = (λ h. refl, λ h. refl)
posture_level-normal false true =
    (λ h. sym (ap (λ x. x == "CAUTIOUS") h), λ h. absurd (ground arith))
posture_level-normal true false =
    (λ h. sym (ap (λ x. x == "RESTRICTED") h), λ h. absurd (ground arith))
posture_level-normal true true =
    (λ h. sym (ap (λ x. x == "RESTRICTED") h), λ h. absurd (ground arith))

-- The level that the heartbeats of a connected node state is NORMAL if and only if it admits calls;
-- without a session neither is answered.
pub level-admit : (c : PlaneConnector) → (level c ≡ ok "NORMAL") ↔ (admit c ≡ ok true)
unfolding level admit then_admit admit_intent
level-admit c = by_session c.session
  where
    by_session :
        (o : Option PlaneSession)
        → (then_level (require_session o) ≡ ok "NORMAL")
          ↔ (then_admit (require_session o) ≡ ok true)
    by_session none = (λ h. absurd (ground arith), λ h. absurd (ground arith))
    by_session (some s) =
        let (to, from) = posture_level-normal s.stopped s.paused in
        (λ h. ap ok (to (ok_inj _ _ h)), λ h. ap ok (from (ok_inj _ _ h)))
