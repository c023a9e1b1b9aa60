-- ===== src/Plane/Admission/Tests.antt =====
-- The theorems about the loop of `await_admission` at concrete polls.
use axor_wrap.Base.{true, false, ◌≡◌, refl, ◌↔◌, none, some, [], ◌∷◌, ◌++◌}
use axor_wrap.Plane.Session.State.{PlaneSession, new_session, admit_intent}
use axor_wrap.Plane.Admission.{await_admission}
use axor_wrap.Plane.Admission.Waits.{AllHeld, await_admission-decides, await_admission-waits}

abbrev idle : PlaneSession
idle = new_session "n1" [] false none

abbrev held : PlaneSession
held = record idle { paused = true }

await_admission-decides_example :
    ((admit_intent idle ≡ true) → await_admission ((held ∷ held ∷ []) ++ idle ∷ []) ≡ some true)
    × ((idle.stopped ≡ true) → await_admission ((held ∷ held ∷ []) ++ idle ∷ []) ≡ some false)
await_admission-decides_example =
    await_admission-decides (held ∷ held ∷ []) [] idle (refl, refl, (refl, refl, tt))

await_admission-waits_example :
    (await_admission (held ∷ idle ∷ []) ≡ none) ↔ AllHeld (held ∷ idle ∷ [])
await_admission-waits_example = await_admission-waits (held ∷ idle ∷ [])
