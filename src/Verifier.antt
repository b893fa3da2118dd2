-- ===== src/Verifier.antt =====
-- verifier/internal: the nine-step verification report and the diagnosis of a failed deploy.
pub mod Report
pub mod Diagnose
pub mod Tests
