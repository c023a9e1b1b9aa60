-- ===== src/Plane/Client.antt =====
-- axor_wrap/plane/client.py: the transport between a session and the plane. One process sends one
-- thing at a time here: the flushes and the subscription as steps, in any order, and what the host
-- calls while a request is out as part of the step.
pub mod State
pub mod Spool
pub mod Telemetry
pub mod Flush
pub mod Durable
pub mod Numbered
pub mod Frames
pub mod Stream
pub mod Subscription
pub mod Subscribed
mod Tests
