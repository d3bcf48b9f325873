-- ===== src/Notify/Worker/Accounts.antt =====
-- What becomes of each alert that a worker is given.
use congraph_log_watcher.Common.{
  ℕ, suc, ◌+◌, ◌<◌, ◌≤◌, ◌^◌, ◌≡◌, refl, ap, sym, subst, Bool, true, false, List, [], ◌∷◌, length,
  length-append, Option, Option-cases, inl, inr, ◌⊎◌, none, some, Time, ok, arith, if◌then◌else◌,
}
use congraph_log_watcher.Alert.{Alert}
use congraph_log_watcher.Notify.Worker.{
  Worker, Config, new_worker, submit, close, drop_one, allow, take_from, take, sent, storm_sent,
  count_result, storm_alert,
}

-- A call of the worker, or an event of its goroutines
pub data Event : Type 0 where
  submits : Alert → Event
  closes : Event
  takes : (cancelled : Bool) (now : Time) → Event
  sends storm_sends : (success : Bool) → Event

unfoldable pub apply : Worker → Event → Worker
unfolding submit close take sent storm_sent
apply w (submits alert) = (submit w alert).0
apply w closes = close w
apply w (takes cancelled now) = take w cancelled now
apply w (sends success) = sent w success
apply w (storm_sends success) = storm_sent w success

-- The events, the latest first
unfoldable pub apply_all : Worker → List Event → Worker
unfolding apply
apply_all w [] = w
apply_all w (e ∷ es) = apply (apply_all w es) e

-- The calls of `Submit`
unfoldable pub submissions : List Event → ℕ
submissions [] = 0
submissions (submits alert ∷ es) = suc (submissions es)
submissions (closes ∷ es) = submissions es
submissions (takes cancelled now ∷ es) = submissions es
submissions (sends success ∷ es) = submissions es
submissions (storm_sends success ∷ es) = submissions es

-- The alerts that are counted as sent, failed or dropped, or are not yet
abbrev pub settled : Worker → ℕ
settled w = w.stats.sent + w.stats.failed + w.stats.dropped

abbrev one_if : Option Alert → ℕ
one_if none = 0
one_if (some alert) = 1

abbrev pub waiting : Worker → ℕ
waiting w = length w.queue + one_if w.sending + length w.storms

List-cases : (xs : List Alert) → (xs ≡ []) ⊎ ((x : Alert) × (ys : List Alert) × (xs ≡ x ∷ ys))
List-cases [] = inl refl
List-cases (x ∷ ys) = inr (x, ys, refl)

-- Where `n` is what the worker was given
abbrev Balanced : ℕ → Worker → Type 0
Balanced n w = settled w + waiting w ≡ n + w.stats.storm_alerts

-- A worker that dropped an alert of `n`
drop_one-Balanced :
    (n : ℕ) (w : Worker)
    → n + w.stats.storm_alerts < 2 ^ 64
    → settled w + waiting w + 1 ≡ n + w.stats.storm_alerts
    → Balanced n (drop_one w) × ((drop_one w).stats.storm_alerts ≡ w.stats.storm_alerts)
unfolding drop_one
drop_one-Balanced n w h b = omega arith

allow-Balanced :
    (n : ℕ) (w : Worker) (alert : Alert) (now : Time)
    → n + w.stats.storm_alerts + 1 < 2 ^ 64
    → w.sending ≡ none
    → settled w + waiting w + 1 ≡ n + w.stats.storm_alerts
    → let (w', allowed) = allow w alert now in
      (settled w' + waiting w' + (if allowed then 1 else 0) ≡ n + w'.stats.storm_alerts)
      × (w'.sending ≡ none)
      × (w'.stats.storm_alerts ≤ w.stats.storm_alerts + 1)
unfolding allow drop_one
allow-Balanced n w alert now h s b =
    ground (arith, length-append w.storms (storm_alert alert now now ∷ []))

-- The worker's counts are those of `n` alerts and of at most `m` storms.
abbrev IsCounted : ℕ → ℕ → Worker → Type 0
IsCounted n m w = Balanced n w × (w.stats.storm_alerts ≤ m)

submit-IsCounted :
    (n m : ℕ) (w : Worker) (alert : Alert)
    → suc n + m < 2 ^ 64
    → IsCounted n m w
    → IsCounted (suc n) m (submit w alert).0
unfolding submit drop_one
submit-IsCounted n m w alert h b = ground (arith, length-append w.queue (alert ∷ []))

take_from_nil : (w : Worker) (cancelled : Bool) (now : Time) → take_from [] w cancelled now ≡ w
unfolding take_from
take_from_nil w cancelled now = refl

take_from-IsCounted :
    (n m : ℕ) (w : Worker) (alert : Alert) (rest : List Alert) (cancelled : Bool) (now : Time)
    → n + suc m < 2 ^ 64
    → w.sending ≡ none
    → w.queue ≡ alert ∷ rest
    → IsCounted n m w
    → IsCounted n (suc m) (take_from (alert ∷ rest) w cancelled now)
unfolding take_from drop_one
take_from-IsCounted n m w alert rest cancelled now h s q b =
    let popped : settled w + (length rest + one_if w.sending + length w.storms) + 1
        ≡ n + w.stats.storm_alerts =
      omega (arith, ap length q, b.0) in
    let after =
      allow-Balanced n (record w { queue = rest }) alert now (omega (arith, b.1)) s popped in
    ground (arith, after, b, popped)

take_open :
    (w : Worker) (xs : List Alert) (cancelled : Bool) (now : Time)
    → w.sending ≡ none
    → w.queue ≡ xs
    → take w cancelled now ≡ take_from xs w cancelled now
unfolding take
take_open w xs cancelled now s q = ground (arith, s, ap (λ l. take_from l w cancelled now) q)

take-IsCounted :
    (n m : ℕ) (w : Worker) (cancelled : Bool) (now : Time)
    → n + suc m < 2 ^ 64
    → IsCounted n m w
    → IsCounted n (suc m) (take w cancelled now)
unfolding take
take-IsCounted n m w cancelled now h b = elim (Option-cases w.sending) [
  | inr (alert, s) ↦ ground (arith, b)
  | inl s ↦ elim (List-cases w.queue) [
    | inl q ↦ ground (arith, take_open w [] cancelled now s q, take_from_nil w cancelled now, b)
    | inr (alert, rest, q) ↦
        let taken = take_from-IsCounted n m w alert rest cancelled now h s q b in
        subst (IsCounted n (suc m)) (sym (take_open w (alert ∷ rest) cancelled now s q)) taken
  ]
]

sent-IsCounted :
    (n m : ℕ) (w : Worker) (success : Bool)
    → n + m < 2 ^ 64
    → IsCounted n m w
    → IsCounted n m (sent w success)
unfolding sent count_result
sent-IsCounted n m w true h b = ground arith
sent-IsCounted n m w false h b = ground arith

storm_sent-IsCounted :
    (n m : ℕ) (w : Worker) (success : Bool)
    → n + m < 2 ^ 64
    → IsCounted n m w
    → IsCounted n m (storm_sent w success)
unfolding storm_sent count_result
storm_sent-IsCounted n m w true h b = ground arith
storm_sent-IsCounted n m w false h b = ground arith

-- The turns of the loop of `run`
turns : List Event → ℕ
turns [] = 0
turns (takes cancelled now ∷ es) = suc (turns es)
turns (submits alert ∷ es) = turns es
turns (closes ∷ es) = turns es
turns (sends success ∷ es) = turns es
turns (storm_sends success ∷ es) = turns es

submissions-turns : (es : List Event) → submissions es + turns es ≤ length es
unfolding submissions turns
submissions-turns [] = omega arith
submissions-turns (takes cancelled now ∷ es) = omega (arith, submissions-turns es)
submissions-turns (submits alert ∷ es) = omega (arith, submissions-turns es)
submissions-turns (closes ∷ es) = omega (arith, submissions-turns es)
submissions-turns (sends success ∷ es) = omega (arith, submissions-turns es)
submissions-turns (storm_sends success ∷ es) = omega (arith, submissions-turns es)

apply-IsCounted :
    (w : Worker) (e : Event) (es : List Event)
    → suc (length es) < 2 ^ 64
    → IsCounted (submissions es) (turns es) w
    → IsCounted (submissions (e ∷ es)) (turns (e ∷ es)) (apply w e)
unfolding apply submissions turns close
apply-IsCounted w (submits alert) es h b =
    submit-IsCounted (submissions es) (turns es) w alert (omega (arith, submissions-turns es)) b
apply-IsCounted w closes es h b = b
apply-IsCounted w (takes cancelled now) es h b =
    take-IsCounted (submissions es) (turns es) w cancelled now (omega (arith, submissions-turns es))
      b
apply-IsCounted w (sends success) es h b =
    sent-IsCounted (submissions es) (turns es) w success (omega (arith, submissions-turns es)) b
apply-IsCounted w (storm_sends success) es h b =
    storm_sent-IsCounted (submissions es) (turns es) w success (omega (arith, submissions-turns es))
      b

apply_all-IsCounted :
    (w : Worker) (es : List Event)
    → length es < 2 ^ 64
    → IsCounted 0 0 w
    → IsCounted (submissions es) (turns es) (apply_all w es)
unfolding apply_all submissions turns
apply_all-IsCounted w [] h b = b
apply_all-IsCounted w (e ∷ es) h b =
    apply-IsCounted (apply_all w es) e es h (apply_all-IsCounted w es (omega arith) b)

new_worker-IsCounted :
    {Notifier : Type 0} (c : Config Notifier) {w : Worker} → new_worker c ≡ ok w → IsCounted 0 0 w
unfolding new_worker
new_worker-IsCounted c h = ground arith

-- No alert is lost: after fewer than 2^64 events of a new worker, in any order, the alerts counted as
-- sent, failed or dropped, with those in the queue, in the loop's hands and in the hands of storm
-- senders, are as many as the calls of `Submit` and the storm alerts.
pub settled-apply_all :
    {Notifier : Type 0} (c : Config Notifier) {w : Worker} (es : List Event)
    → new_worker c ≡ ok w
    → length es < 2 ^ 64
    → settled (apply_all w es) + waiting (apply_all w es)
      ≡ submissions es + (apply_all w es).stats.storm_alerts
settled-apply_all c {w} es h l = (apply_all-IsCounted w es l (new_worker-IsCounted c h)).0
