-- ===== src/Plane.antt =====
-- axor_wrap/plane: the node's side of the control plane.
pub mod Kernel
pub mod Session
pub mod Client
pub mod Bridge
pub mod Admission
