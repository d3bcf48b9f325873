-- ===== src/Lib.antt =====
-- A verification library for the core of congraph-log-watcher, a service that follows the logs of
-- graph-node containers and raises alerts.
--
-- The configuration (internal/config) is read and checked, and the runtime (internal/runtime) builds
-- the parts from it. The log source (internal/source/docker) follows the containers and cuts their
-- streams into records. A record (internal/logentry) that the replay gate lets through is parsed
-- (internal/parser), redacted and passed by the level gate (internal/router); it is kept as context
-- (internal/context), matched against rules (internal/rule), given a fingerprint, and counted in an
-- incident group (internal/aggregate), which decides whether to alert. An alert waits for the context
-- that comes after it, and is then handed to the notification worker (internal/notify). What was
-- processed is checkpointed (internal/checkpoint), so that a restart replays a short overlap and skips
-- what was seen. The health (internal/metrics) is told what Docker, the containers and the checkpoints
-- do.
--
-- Files and sources:
--   Entry, Entry/Level           internal/logentry/entry.go, level.go
--   Router                       internal/router/router.go
--   ContextBuf/Buffer, Store     internal/context/buffer.go, store.go
--   ContextBuf/Capture           internal/context/capture.go, type Capture
--   ContextBuf/Collector         internal/context/capture.go, type AfterCollector
--   Config, Config/Defaults      internal/config/config.go
--   Rule, Rule/Compile           internal/rule/rule.go, normalize.go
--   Rule/Matcher                 internal/rule/matcher.go
--   Rule/Fingerprint             internal/rule/fingerprint.go
--   Aggregate                    internal/aggregate/aggregate.go, type Aggregator
--   Aggregate/Incident           internal/aggregate/aggregate.go, one group
--   Checkpoint/Replay, Store     internal/checkpoint/replay.go, store.go
--   Redact                       internal/redact/redact.go
--   Alert, Processor             internal/processor/processor.go
--   Notify/Worker, Notify/Retry  internal/notify/notifier.go
--   Notify/DingTalk              internal/notify/dingtalk.go
--   Config/Validate, Config/Load internal/config/validate.go, load.go, duration.go
--   Docker                       internal/source/docker/source.go, the configuration and names
--   Docker/Frames, Docker/Rounds internal/source/docker/source.go, the decoders; the loops
--   Health                       internal/metrics/metrics.go, type Health
--   Runtime/Build                internal/runtime/runtime.go, buildPipelineParts, buildNotifier
--   Runtime/Records              internal/runtime/runtime.go, processRaw and the observer
--   Parser                       internal/parser/graphnode.go
--   Service                      internal/service/service.go
-- Modules below these state and prove; the modules named Tests hold the theorems at concrete inputs.
--
-- How the code is represented. A string is the list of its bytes. A map is an association list, a Go
-- pointer that may be nil an Option, a pair of a value and an error a Result. A struct is a record
-- with the fields of the source; one that a method changes is an argument and a result. A time is a
-- number of nanoseconds and a duration an integer of them; the time that time.Time counts from is the
-- constant zero_time, with room below it as in Go. A clock's reading is an argument of the call that
-- reads it. An int of the configuration is an integer; a counter that is incremented without bound
-- keeps its 64 bits (inc64). A mutex is not modelled: where one orders the calls, a call is one step,
-- and where a call releases its lock in between (AfterCollector, the closing of the store), its
-- critical sections are steps of their own.
--
-- Fuel. The binary search of sort.Search runs on fuel, the number of elements, which is enough since
-- each round at least halves the range. The loops over a log stream and over its buffers run
-- on fuel, one round for each byte and one more, which is enough since each round but the last takes a
-- byte. Every other loop is structural recursion.
--
-- Parameters. Package regexp (Common/Patterns), the case and space functions of package strings
-- outside ASCII (Common/Letters), SHA-256 (digest, event_hash), bbolt with its JSON codec
-- (Checkpoint/Store), the parsing of a timestamp and what Docker answers (Docker), the file, the YAML
-- decoder and the search for placeholders (Config/Load), the formatter and channel of DingTalk and the
-- printing of numbers (Notify/DingTalk), the components of the service (Service).
--
-- Not modelled: the adapter of the Docker SDK, the dry run, the select loops of the runtime, the
-- Prometheus collectors and the command line: the rest is I/O or wiring of the parts above.
pub mod Common
pub mod Entry
pub mod Router
pub mod ContextBuf
pub mod Config
pub mod Rule
pub mod Aggregate
pub mod Checkpoint
pub mod Alert
pub mod Notify
pub mod Redact
pub mod Processor
pub mod Docker
pub mod Health
pub mod Parser
pub mod Service
pub mod Runtime
mod Samples
