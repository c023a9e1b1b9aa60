-- ===== src/Compile.antt =====
-- axor_wrap/compile.py: tool manifests into the configuration of a governor.
pub mod Manifests
pub mod Expand
pub mod Readings
pub mod Sinks
pub mod Tests
pub mod Kwargs
pub mod Policies
pub mod Yaml
