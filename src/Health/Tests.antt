-- ===== src/Health/Tests.antt =====
-- The health at concrete reports.
use congraph_log_watcher.Common.{
  ◌≡◌, refl, true, false, List, [], ◌∷◌, none, some, text, pos, zero_time, text_eq,
}
use congraph_log_watcher.Samples.{at_time}
use congraph_log_watcher.Health.{new_health, longer_than}
use congraph_log_watcher.Health.History.{
  Change, apply_all, status_after, reported, reported-apply_all,
}

abbrev changes : List Change
changes =
    record { name = text "node"; attached = true; now = at_time 2 }
    ∷ record { name = text "other"; attached = false; now = at_time 3 }
    ∷ record { name = text "node"; attached = false; now = at_time 4 }
    ∷ record { name = text "node"; attached = false; now = at_time 9 }
    ∷ []

reported-apply_all_example :
    reported
      (apply_all (new_health (text "node" ∷ []) (pos 5) (pos 5) (at_time 1)) changes)
      (at_time 10)
      (text "node")
    ≡ elim (status_after (text "node") (some (at_time 1)) changes) [
      | none ↦ false
      | some u ↦ longer_than (at_time 10) u (pos 5)
    ]
unfolding zero_time text_eq
reported-apply_all_example =
    reported-apply_all (text "node" ∷ []) (pos 5) (pos 5) (at_time 1) (at_time 10) (text "node")
      changes refl refl (refl, (refl, (refl, (refl, tt))))
