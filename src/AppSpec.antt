-- ===== src/AppSpec.antt =====
-- control-plane/internal/appspec: the AppSpec document, its validation, and the cron grammar.
pub mod Cron
pub mod Spec
pub mod Tests
