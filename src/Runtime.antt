-- ===== src/Runtime.antt =====
-- axor_wrap/runtime.py: every tool call goes through the governor.
pub mod Toolset
pub mod Observed
pub mod Session
pub mod Enforcement
pub mod Flag
pub mod Tests
pub mod Build
pub mod Arms
