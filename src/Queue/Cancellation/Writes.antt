-- ===== src/Queue/Cancellation/Writes.antt =====
-- The calls of workers and of the clock, seen from a task that is gone or cancelled.
use ryvix.Common.{
  ℕ, suc, ◌≡◌, ◌≢◌, String, Bool, true, false, Option, none, some, List, [], ◌∷◌, ◌==◌, ◌+◌, ◌≤◌,
  if◌then◌else◌, arith, inl, inr, Option-cases, holds, ltb,
}
use ryvix.Common.Effect.{world, ◌>>◌, bind_keeps, if_keeps}
use ryvix.Common.Table.{Table, over, lookup, update, lookup-update, first_by_passes}
use ryvix.Progress.{TaskProgress}
use ryvix.Queue.Model.{Db, Task, TaskStatus, RepositoryJob, Artifact}
use ryvix.Queue.Base.{worker_host, transaction, holds_lease, set_task, set_job, audit, is_held}
use ryvix.Queue.Admission.{take_job, is_claimable, describe, next_job, claim_with, claim}
use ryvix.Queue.Worker.{progress, plan, record_event, advance, insert_plan, is_verification}
use ryvix.Queue.Finish.{
  complete, TaskResult, insert_artifact, update_session, day_ms, defer_quota, defer_row, fail,
  fail_checked, may_fail, fail_each, fail_row, deferred_task, may_defer,
}
use ryvix.Queue.Invariant.Coherence.{transaction_keeps, locked_keeps, held_rows, worker_host_keeps}
use ryvix.Queue.Invariant.Admission.{describe_rows}

abbrev pub is_cancelled : TaskStatus → Bool
is_cancelled TaskStatus.cancelled = true
is_cancelled _ = false

-- The row is gone or cancelled.
abbrev pub is_stopped : Option Task → Bool
is_stopped none = true
is_stopped (some t) = is_cancelled t.status

abbrev pub artifact_count : ℕ → List Artifact → ℕ
artifact_count id [] = 0
artifact_count id (a ∷ as') =
    if a.task_id == id then suc (artifact_count id as') else artifact_count id as'

module _ (id n : ℕ) where
  pub record Stays (db : Db) : Type 0 where
    pub stopped : is_stopped (lookup id db.tasks) ≡ true
    pub artifacts_kept : artifact_count id db.artifacts ≤ n

  pub stopped-update :
      (k : ℕ) (f : Task → Task) (tasks : Table Task)
      → is_stopped (lookup id tasks) ≡ true
      → (k ≡ id → is_stopped (over f (lookup id tasks)) ≡ true)
      → is_stopped (lookup id (update k f tasks)) ≡ true
  stopped-update k f tasks s h = rw (lookup-update k id f tasks) (ground (arith, h))

  -- A task under a held lease is another one.
  held_ne :
      (db : Db) (now worker task : ℕ) → Stays db → holds_lease db now worker task ≡ true → task ≢ id
  unfolding is_held
  held_ne db now worker task v held same =
      let (t, j, et, ej, h) = held_rows db now worker task held in ground (arith, v.stopped)

  pub complete-Stays :
      (db : Db) (now : ℕ) (job : RepositoryJob) (worker : ℕ) (result : TaskResult)
      → Stays db
      → Stays (world (complete now job worker result db))
  unfolding complete set_job set_task audit insert_artifact update_session
  complete-Stays db now job worker result v = locked_keeps Stays now job worker _ db v λ held.
      let other = held_ne db now worker job.task_id v held in
      record {
        stopped = stopped-update job.task_id _ db.tasks v.stopped (λ e. absurd (other e));
        artifacts_kept = ground (arith, v.artifacts_kept);
      }

  pub plan-Stays :
      (db : Db) (now : ℕ) (job : RepositoryJob) (worker plan_id : ℕ) (summary : String)
      (steps : List String)
      → Stays db
      → Stays (world (plan now job worker plan_id summary steps db))
  unfolding plan insert_plan set_task
  plan-Stays db now job worker plan_id summary steps v =
      locked_keeps Stays now job worker _ db v λ held. record {
        stopped =
            stopped-update job.task_id _ db.tasks v.stopped
              (λ e. absurd (held_ne db now worker job.task_id v held e));
        artifacts_kept = v.artifacts_kept;
      }

  pub progress-Stays :
      (db : Db) (now : ℕ) (job : RepositoryJob) (worker : ℕ) (event : TaskProgress)
      → Stays db
      → Stays (world (progress now job worker event db))
  unfolding progress record_event advance set_task
  progress-Stays db now job worker event v =
      locked_keeps Stays now job worker (record_event job event >> advance job event.stage) db v
        λ held.
          if_keeps Stays (is_verification event.stage) _ _
            (λ _. record {
              stopped =
                  stopped-update job.task_id _ db.tasks v.stopped
                    (λ e. absurd (held_ne db now worker job.task_id v held e));
              artifacts_kept = v.artifacts_kept;
            })
            (λ _. record { stopped = v.stopped; artifacts_kept = v.artifacts_kept })

  defer_row-Stays :
      (db : Db) (now wall retry_at : ℕ) (job : RepositoryJob) (worker : ℕ)
      → Stays db
      → holds_lease db now worker job.task_id ≡ true
      → Stays (world (defer_row wall retry_at job worker db))
  unfolding defer_row set_task set_job audit
  defer_row-Stays db now wall retry_at job worker v held =
      if_keeps Stays
        (holds (λ u. holds (may_defer worker u) (lookup job.task_id db.jobs))
          (lookup job.task_id db.tasks))
        _ _
        (λ _. record {
          stopped =
              stopped-update job.task_id deferred_task db.tasks v.stopped
                (λ e. absurd (held_ne db now worker job.task_id v held e));
          artifacts_kept = v.artifacts_kept;
        })
        (λ _. v)

  pub defer_quota-Stays :
      (db : Db) (now wall : ℕ) (job : RepositoryJob) (worker : ℕ) (retry_at : Option ℕ)
      → Stays db
      → Stays (world (defer_quota now wall job worker retry_at db))
  unfolding defer_quota
  defer_quota-Stays db now wall job worker none v = v
  defer_quota-Stays db now wall job worker (some retry_at) v =
      if_keeps Stays (ltb (wall + day_ms) retry_at) _ _ (λ _. v)
        (λ _.
          locked_keeps Stays now job worker (defer_row wall retry_at job worker) db v
            (defer_row-Stays db now wall retry_at job worker v))

  take_job-Stays :
      (db : Db) (now : ℕ) (locked : ℕ → Bool) (host : List ℕ) (worker k : ℕ) (job : RepositoryJob)
      → Stays db
      → is_claimable db now locked k ≡ true
      → describe db k ≡ some job
      → Stays (world (take_job now host worker job db))
  unfolding take_job is_claimable set_task set_job audit
  take_job-Stays db now locked host worker k job v c d =
      let (t, j, et, ej, same, _, _) = describe_rows db k job d in
      record {
        stopped =
            stopped-update job.task_id _ db.tasks v.stopped
              (λ e. absurd (ground (arith, v.stopped)));
        artifacts_kept = v.artifacts_kept;
      }

  claim_with-Stays :
      (db : Db) (now : ℕ) (locked : ℕ → Bool) (host : List ℕ) (worker : ℕ)
      → Stays db
      → Stays (world (claim_with now locked host worker db))
  unfolding claim_with next_job
  claim_with-Stays db now locked host worker v = elim (Option-cases (next_job db now locked)) [
    | inl e ↦ rw (e, world) v
    | inr (k, e) ↦ elim (Option-cases (describe db k)) [
      | inl d ↦ rw (e, world) (rw (d, world) v)
      | inr (job, d) ↦
          rw (e, world)
            (rw (d, world)
              (take_job-Stays db now locked host worker k job v (first_by_passes _ _ db.jobs k e)
                d))
    ]
  ]

  pub claim-Stays :
      (db : Db) (now : ℕ) (locked : ℕ → Bool) (host_id : Option (List ℕ)) (worker : ℕ)
      → Stays db
      → Stays (world (claim now locked host_id worker db))
  unfolding claim
  claim-Stays db now locked host_id worker v =
      bind_keeps Stays (worker_host host_id)
        (λ host. transaction (claim_with now locked host worker)) db
        (worker_host_keeps Stays db host_id v)
        (λ host d w.
          transaction_keeps Stays (claim_with now locked host worker) d w
            (claim_with-Stays d now locked host worker w))

  fail_row-Stays :
      (db : Db) (task project : ℕ) (details : String) (t : Task)
      → Stays db
      → Stays (world (fail_row task project details t db))
  unfolding fail_row set_task set_job audit
  fail_row-Stays db task project details t v = record {
    stopped = stopped-update task _ db.tasks v.stopped (λ e. ground (arith, v.stopped));
    artifacts_kept = v.artifacts_kept;
  }

  pub fail-Stays :
      (db : Db) (now task project worker : ℕ) (expired_only : Bool) (details : String)
      → Stays db
      → Stays (world (fail now task project worker expired_only details db))
  unfolding fail fail_checked
  fail-Stays db now task project worker expired_only details v =
      transaction_keeps Stays (fail_checked now task project worker expired_only details) db v
        (elim (Option-cases (lookup task db.tasks)) [
          | inl e ↦ rw (e, world) v
          | inr (t, e) ↦
              rw (e, world)
                (if_keeps Stays (holds (may_fail now worker expired_only) (lookup task db.jobs)) _ _
                  (λ _. fail_row-Stays db task project details t v) (λ _. v))
        ])

  pub fail_each-Stays :
      (db : Db) (now : ℕ) (rows : List (ℕ × Option ℕ × ℕ))
      → Stays db
      → Stays (world (fail_each now rows db))
  unfolding fail_each
  fail_each-Stays db now [] v = v
  fail_each-Stays db now ((task, none, project) ∷ rows) v = fail_each-Stays db now rows v
  fail_each-Stays db now ((task, some worker, project) ∷ rows) v =
      bind_keeps Stays (fail now task project worker true "") (λ _. fail_each now rows) db
        (fail-Stays db now task project worker true "" v) (λ _ d w. fail_each-Stays d now rows w)
