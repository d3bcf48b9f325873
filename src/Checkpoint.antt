-- ===== src/Checkpoint.antt =====
-- internal/checkpoint: the replay boundaries of the log streams, and their store.
pub mod Record
pub mod Replay
pub mod Store
mod Tests
