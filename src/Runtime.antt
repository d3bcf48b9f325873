-- ===== src/Runtime.antt =====
-- internal/runtime/runtime.go: the parts are built, and records pass from the source to the
-- checkpoint store.
pub mod Build
pub mod Records
mod Tests
