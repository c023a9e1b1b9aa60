-- ===== src/Plane/Admission.antt =====
-- plane/admission.py: `PlaneAdmission.await_admission`. The session is changed by another task while
-- the loop waits, so a poll sees one session of a sequence; when a poll happens, by a notification
-- or by the poll interval, is not represented.
pub mod Waits
mod Tests
use axor_wrap.Base.{Bool, true, false, Option, none, some, List, [], ◌∷◌, if◌then◌else◌}
use axor_wrap.Plane.Session.State.{PlaneSession}

-- The answer, if the polls so far decide it; `none` while the loop still waits.
unfoldable pub await_admission : List PlaneSession → Option Bool
await_admission [] = none
await_admission (s ∷ polls) =
    let wait = await_admission polls in
    if s.stopped then some false else if s.paused then wait else some true
