-- ===== src/Plane/Bridge.antt =====
-- axor_wrap/plane/bridge.py: the events of a trace as events of the kernel's schema.
pub mod Events
pub mod Labels
pub mod Translate
mod Tests
