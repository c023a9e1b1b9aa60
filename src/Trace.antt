-- ===== src/Trace.antt =====
-- axor_wrap/trace.py: a session's calls and the governor's verdicts as one document.
pub mod Recorder
pub mod Pairing
pub mod Fields
pub mod Ledger
pub mod Build
pub mod Document
pub mod Numbered
pub mod Tests
pub mod Minted
pub mod References
pub mod Redaction
