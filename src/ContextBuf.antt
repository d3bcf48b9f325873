-- ===== src/ContextBuf.antt =====
-- internal/context, package contextbuf: sanitized log context by container, and what is captured of
-- it round an alert.
pub mod Buffer
pub mod Store
pub mod Capture
pub mod Collector
mod Tests
