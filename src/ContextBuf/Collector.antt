-- ===== src/ContextBuf/Collector.antt =====
-- internal/context/capture.go: `AfterCollector`, which waits for the entries after a trigger.
--
-- A call is the sequence of its critical sections: `add` is the locked part of `Add`, `finish` that
-- of `finish`. The steps of `Step` interleave them: a call of `finish` that has not locked yet, and a
-- result not yet sent to the channel `done`, are parts of the state.
pub mod Once
pub mod Taken
use congraph_log_watcher.Common.{
  ℕ, suc, ◌≡◌, Bool, true, false, List, [], ◌∷◌, ◌++◌, Option, none, some, ℤ, pos, lebℤ, length,
  is_nonpositive, if◌then◌else◌,
}
use congraph_log_watcher.Entry.{LogEntry}
use congraph_log_watcher.ContextBuf.Capture.{Capture}

pub record AfterCollector : Type 0 where
  pub capture : Capture
  pub after : ℤ
  pub finished : Bool

-- The locked part of `Add`: the new state, and whether the call goes on to `finish(false)`.
unfoldable pub add : AfterCollector → LogEntry → AfterCollector × Bool
add c entry =
    let grown = record (c.capture) { after = c.capture.after ++ entry ∷ [] } in
    if c.finished
    then (c, false)
    else (record c { capture = grown }, lebℤ c.after (pos (length grown.after)))

-- The locked part of `finish`: the new state, and the result that the call goes on to send.
unfoldable pub finish : AfterCollector → Bool → AfterCollector × Option Capture
finish c timed_out =
    let result = record (c.capture) { timed_out = timed_out } in
    if c.finished then (c, none) else (record c { capture = result; finished = true }, some result)

-- `Add` with no other call between its critical sections, and the result that it sends.
unfoldable pub add_now : AfterCollector → LogEntry → AfterCollector × Option Capture
unfolding add finish
add_now c entry =
    let (grown, should) = add c entry in if should then finish grown false else (grown, none)

pub record System : Type 0 where
  pub collector : AfterCollector
  -- calls of `finish` that have not locked yet, by their argument
  pub calls : List Bool
  -- results on their way to the channel
  pub sends : List Capture
  -- what the channel was given
  pub done : List Capture

abbrev pub new_collector : List LogEntry → LogEntry → ℤ → AfterCollector
new_collector before trigger after = record {
  capture = record { before = before; trigger = trigger; after = []; timed_out = false };
  after = after;
  finished = false;
}

-- `NewAfterCollector`: where no entries are wanted, `finish(false)` is called at once.
unfoldable pub new : List LogEntry → LogEntry → ℤ → System
new before trigger after = record {
  collector = new_collector before trigger after;
  calls = if is_nonpositive after then false ∷ [] else [];
  sends = [];
  done = [];
}

abbrev call_if : Bool → List Bool → List Bool
call_if should calls = if should then false ∷ calls else calls

abbrev send_if : Option Capture → List Capture → List Capture
send_if none sends = sends
send_if (some result) sends = result ∷ sends

pub data Step : System → System → Type 0 where
  -- `Add`
  adds :
      (s : System) (entry : LogEntry)
      → Step s (record s {
        collector = (add s.collector entry).0;
        calls = call_if (add s.collector entry).1 s.calls;
      })
  -- the timer of `NewAfterCollector` fires, or `Cancel` is called
  expires : (s : System) → Step s (record s { calls = true ∷ s.calls })
  -- a call of `finish` takes the lock
  finishes :
      (s : System) (xs ys : List Bool) (timed_out : Bool)
      → s.calls ≡ xs ++ timed_out ∷ ys
      → Step s (record s {
        collector = (finish s.collector timed_out).0;
        calls = xs ++ ys;
        sends = send_if (finish s.collector timed_out).1 s.sends;
      })
  -- a result is sent
  delivers :
      (s : System) (xs ys : List Capture) (result : Capture)
      → s.sends ≡ xs ++ result ∷ ys
      → Step s (record s { sends = xs ++ ys; done = s.done ++ result ∷ [] })

pub data Reach (s : System) : System → Type 0 where
  here : Reach s s
  next : {t u : System} → Reach s t → Step t u → Reach s u
