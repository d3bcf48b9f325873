-- ===== src/Service/Tests.antt =====
-- Components that are numbers, in a world that writes down what is called.
use congraph_log_watcher.Common.{ℕ, ◌+◌, ◌==◌, List, [], ◌∷◌, none, some, if◌then◌else◌}
use congraph_log_watcher.Service.{World, run}
use congraph_log_watcher.Service.Order.{Runs, run_lem}

-- The third component does not start.
abbrev counted : World
counted = record {
  State = List ℕ;
  Component = ℕ;
  Error = ℕ;
  start = λ s c. ((c ∷ s), if c == 3 then some 3 else none);
  close = λ s c. (((10 + c) ∷ s), none);
  wait = λ s. s;
}

run_example : Runs counted [] [] (1 ∷ 2 ∷ 3 ∷ 4 ∷ []) (run counted [] (1 ∷ 2 ∷ 3 ∷ 4 ∷ []))
run_example = run_lem counted [] (1 ∷ 2 ∷ 3 ∷ 4 ∷ [])
