-- ===== src/Connect.antt =====
-- axor_wrap/connect.py: what connects a wrapped runtime to a lab and to a control plane.
pub mod Lab
pub mod Outcome
pub mod Key
pub mod Plane
mod Tests
