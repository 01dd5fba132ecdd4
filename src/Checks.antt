-- ===== src/Checks.antt =====
-- The results of message checks: framework/config/module/check_action.go, which changes them as
-- configured, and internal/msgpipeline/check_runner.go, which merges them.
pub mod Action
pub mod Reject
pub mod Runner
pub mod States
pub mod Results
