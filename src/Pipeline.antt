-- ===== src/Pipeline.antt =====
-- internal/msgpipeline/msgpipeline.go: the path of one message through the pipeline. `Config` has the
-- parsed configuration and the state of a delivery, `Route` selects the blocks, `Start` and
-- `Recipients` are the commands before the message, `Body` is the message and its end.
pub mod Config
pub mod Steps
pub mod Route
pub mod Start
pub mod Recipients
pub mod Body
mod Tests
