-- ===== src/Notify.antt =====
-- internal/notify/notifier.go: delivery of alerts apart from the pipeline.
pub mod DingTalk
pub mod Worker
pub mod Retry
mod Tests
