-- ===== src/Plane/Session.antt =====
-- plane/session.py: what one node knows of the plane, and how commands change it.
pub mod State
pub mod Narrows
pub mod Frozen
pub mod Apply
pub mod Verify
pub mod Snapshot
pub mod Wire
pub mod Take
pub mod Heartbeat
pub mod Outbox
pub mod Run
mod Tests
