-- ===== src/Memory/Tests.antt =====
-- A memory of two turns, filled with three.
use ryvix.Common.{
  take_last, min, ℕ, ◌≡◌, ◌≤◌, ◌+◌, refl, List, [], ◌∷◌, All, arith, length, keep, leb,
}
use ryvix.Memory.{
  MemoryRole, WorkingTurn, Sessions, Call, records, run, get_recent_turns, prune_expired,
}
use ryvix.Memory.Refinement.{empty_log, log_run, get_recent_turns-log_run}
use ryvix.Memory.Laws.{Fits, run-Fits, prune_expired-Fresh}

abbrev said : ℕ → WorkingTurn
said at = record { role = MemoryRole.user; content = "hello"; timestamp = at }

abbrev calls : List (ℕ × Call)
calls = (10, records 1 (said 10)) ∷ (20, records 1 (said 20)) ∷ (30, records 1 (said 30)) ∷ []

recent_turns : get_recent_turns 2 1 10 (run 2 1000 [] calls) ≡ said 20 ∷ said 30 ∷ []
unfolding get_recent_turns run
recent_turns = refl

-- A capacity of zero does not bound the turns: `slice(-0)` keeps the whole array.
zero_capacity : get_recent_turns 0 1 10 (run 0 1000 [] calls) ≡ said 10 ∷ said 20 ∷ said 30 ∷ []
unfolding get_recent_turns run
zero_capacity = refl

run-Fits_example : All (Fits 2) (run 2 1000 [] calls)
run-Fits_example = run-Fits 2 1000 [] calls (omega arith) tt

abbrev filled : Sessions
filled = run 2 1000 [] calls

prune_expired-Fresh_example :
    All (λ r. 1500 ≤ r.1.last_active_at + 1000) (prune_expired 1000 1500 filled).1
    × ((prune_expired 1000 1500 filled).1 ≡ keep (λ r. leb 1500 (r.1.last_active_at + 1000)) filled)
    × ((prune_expired 1000 1500 filled).0 + length (prune_expired 1000 1500 filled).1
        ≡ length filled)
prune_expired-Fresh_example = prune_expired-Fresh 1000 1500 filled

-- The latest two of three turns, as if all were kept.
get_recent_turns-log_run_example :
    get_recent_turns 2 1 5 (run 2 1000 [] calls) ≡ take_last (min 5 2) (log_run empty_log calls 1)
get_recent_turns-log_run_example =
    get_recent_turns-log_run 2 1000 1 5 calls (omega arith) (omega arith) refl
