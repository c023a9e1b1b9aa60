-- ===== src/Plane/Admission/Waits.antt =====
-- What the loop of `await_admission` answers, and when it ends.
use axor_wrap.Base.{true, false, ◌≡◌, refl, ◌↔◌, none, some, List, [], ◌∷◌, ◌++◌, arith}
use axor_wrap.Plane.Session.State.{PlaneSession, admit_intent}
use axor_wrap.Plane.Admission.{await_admission}

-- Each of the polled sessions is paused and not stopped.
abbrev pub AllHeld : List PlaneSession → Type 0
AllHeld [] = Unit
AllHeld (s ∷ polls) = (s.stopped ≡ false) × (s.paused ≡ true) × AllHeld polls

-- After any number of polls that find the node paused and not stopped, the first other poll ends
-- the wait: with true exactly if the session admits an intent then, and with false if it is stopped.
pub await_admission-decides :
    (held later : List PlaneSession) (s : PlaneSession)
    → AllHeld held
    → ((admit_intent s ≡ true) → await_admission (held ++ s ∷ later) ≡ some true)
      × ((s.stopped ≡ true) → await_admission (held ++ s ∷ later) ≡ some false)
unfolding await_admission admit_intent
await_admission-decides [] later s h = (λ a. ground arith, λ a. ground arith)
await_admission-decides (t ∷ held) later s h =
    let (goes, ends) = await_admission-decides held later s h.2 in
    (λ a. ground (arith, goes a), λ a. ground (arith, ends a))

-- While every poll finds the node paused and not stopped, the loop waits.
pub await_admission-waits :
    (polls : List PlaneSession) → (await_admission polls ≡ none) ↔ AllHeld polls
unfolding await_admission
await_admission-waits [] = (λ _. tt, λ _. refl)
await_admission-waits (s ∷ polls) =
    let (to, from) = await_admission-waits polls in
    (λ h. ground (arith, to), λ h. ground (arith, from h.2))
