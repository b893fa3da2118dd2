-- ===== src/Orchestrator.antt =====
-- control-plane/internal/orchestrator: the deployment state machine and its guards, the deploy
-- locks, rollback, the deletion pipeline, lifecycle guards and the plan generator.
pub mod Deploy
pub mod Locks
pub mod Lifecycle
pub mod Rollback
pub mod Delete
pub mod Plan
pub mod Tests
