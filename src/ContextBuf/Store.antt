-- ===== src/ContextBuf/Store.antt =====
-- internal/context/store.go: one ring buffer per logical container name.
pub mod Histories
use congraph_log_watcher.Common.{
  ℕ, List, [], ◌∷◌, Option, none, some, Text, ℤ, lookup, insert, remove as delete, is_nonpositive,
  if◌then◌else◌,
}
use congraph_log_watcher.Entry.{LogEntry, container_key}
use congraph_log_watcher.ContextBuf.Buffer
use congraph_log_watcher.ContextBuf.Buffer.{Buffer}

pub record Store : Type 0 where
  pub capacity : ℤ
  pub buffers : List (Text × Buffer)

unfoldable pub new_store : ℤ → Option Store
new_store capacity =
    if is_nonpositive capacity then none else some (record { capacity = capacity; buffers = [] })

-- Where `NewBuffer` fails the source would go on with a nil buffer, in which nothing is kept.
unfoldable pub append : Store → LogEntry → Store
append s entry =
    let key = container_key entry in
    elim (lookup key s.buffers) [
      | some b ↦ record s { buffers = insert key (Buffer.append b entry) s.buffers }
      | none ↦ elim (Buffer.new_buffer s.capacity) [
        | none ↦ s
        | some b ↦ record s { buffers = insert key (Buffer.append b entry) s.buffers }
      ]
    ]

unfoldable pub last : Store → Text → ℤ → List LogEntry
last s container limit = Buffer.last (lookup container s.buffers) limit

unfoldable pub remove : Store → Text → Store
remove s container = record s { buffers = delete container s.buffers }

unfoldable pub len : Store → Text → ℕ
len s container = Buffer.len (lookup container s.buffers)
