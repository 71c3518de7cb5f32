-- ===== src/Progress.antt =====
-- Stage events of a task and the wrapper that reports them: services/src/workspace/task-progress.ts.
-- `observer` and `work` are the caller's; `clock` reads `Date.now()`.
use ryvix.Common.{ℕ, ◌-◌, Option, none, some, List}
use ryvix.Common.Effect.{M, ok, err, throw, return, ◌>>◌}

pub data TaskStage : Type 0 where
  analysis workspace context planning editing install test typecheck lint build repair diff
        preview :
      TaskStage

pub data StageStatus : Type 0 where
  running passed failed skipped : StageStatus

-- `detail` is a list of UTF-16 code units.
pub record TaskProgress : Type 0 where
  pub stage : TaskStage
  pub status : StageStatus
  pub attempt : ℕ
  pub detail : Option (List ℕ)
  pub exit_code : Option ℕ
  pub duration_ms : Option ℕ

module _ {E W : Type 0} (observer : TaskProgress → M E W (Unit {0})) (clock : W → ℕ) where
  -- `emit`, with an observer present
  pub emit : TaskProgress → M E W (Unit {0})
  emit event = observer event

  abbrev pub running_event : TaskStage → ℕ → Option (List ℕ) → TaskProgress
  running_event stage attempt detail = record {
    stage = stage;
    status = running;
    attempt = attempt;
    detail = detail;
    exit_code = none;
    duration_ms = none;
  }

  abbrev pub failed_event : TaskStage → ℕ → ℕ → TaskProgress
  failed_event stage attempt elapsed = record {
    stage = stage;
    status = failed;
    attempt = attempt;
    detail = none;
    exit_code = none;
    duration_ms = some elapsed;
  }

  abbrev pub passed_event : TaskStage → ℕ → Option (List ℕ) → ℕ → TaskProgress
  passed_event stage attempt detail elapsed = record {
    stage = stage;
    status = passed;
    attempt = attempt;
    detail = detail;
    exit_code = none;
    duration_ms = some elapsed;
  }

  -- `started` is read after the first event; a failure of `work` is reported and thrown on.
  run_work : {A : Type 0} → TaskStage → ℕ → M E W A → Option (List ℕ) → ℕ → M E W A
  run_work stage attempt work detail started w = elim (work w) [
    | err e w' ↦ (observer (failed_event stage attempt (clock w' - started)) >> throw e) w'
    | ok a w' ↦ (observer (passed_event stage attempt detail (clock w' - started)) >> return a) w'
  ]

  unfoldable pub run : {A : Type 0} → TaskStage → ℕ → M E W A → Option (List ℕ) → M E W A
  unfolding run_work
  run stage attempt work detail w =
      (observer (running_event stage attempt detail) >> λ w'.
      run_work stage attempt work detail (clock w') w')
        w
