-- ===== src/Queue/Finish.antt =====
-- How a claimed job ends: quota deferral, completion, failure and the expiry of leases
-- (`deferQuota`, `complete`, `fail`, `expireLeases` of backend/src/services/repository-job-store.ts).
use ryvix.Common.{
  ℕ, ◌+◌, String, str_eq, Bool, true, false, not, ◌&&◌, ◌||◌, Option, none, some, List, [], ◌∷◌,
  ltb, ◌==◌, if◌then◌else◌, holds, max, take,
}
use ryvix.Common.Effect.{ok, return, ◌>>◌}
use ryvix.Common.Table.{Table, lookup, update}
use ryvix.Queue.Model.{
  Db, Task, Job, JobStatus, TaskStatus, ActorType, SessionStatus, RepositoryJob, is_working,
  is_running, is_past,
}
use ryvix.Queue.Base.{Tx, transaction, set_task, set_job, audit, lock}

abbrev pub day_ms : ℕ
day_ms = 86400000

abbrev is_planning : TaskStatus → Bool
is_planning TaskStatus.planning = true
is_planning _ = false

-- The WHERE clause of the UPDATE in `deferQuota`.
unfoldable pub may_defer : ℕ → Task → Job → Bool
may_defer worker t j =
    holds (λ w. w == worker) j.worker_id && is_planning t.status && ltb j.quota_retries 3

abbrev pub deferred_job : ℕ → ℕ → Job → Job
deferred_job wall retry_at j = record j {
  status = JobStatus.queued;
  worker_id = none;
  lease_expires_at = none;
  available_at = max (wall + 60000) retry_at;
  quota_retries = j.quota_retries + 1;
}

abbrev pub deferred_task : Task → Task
deferred_task t = record t {
  status = TaskStatus.queued;
  error_details = some "Waiting for model quota; automatic retry is scheduled.";
}

unfoldable pub defer_row : ℕ → ℕ → RepositoryJob → ℕ → Tx Bool
unfolding may_defer set_job set_task audit lookup
defer_row wall retry_at job worker db =
    if holds (λ t. holds (may_defer worker t) (lookup job.task_id db.jobs))
      (lookup job.task_id db.tasks)
    then (do
      set_job job.task_id (deferred_job wall retry_at)
      set_task job.task_id deferred_task
      audit job.project_id none ActorType.system job.task_id "task.quota.deferred" true
      return true)
        db
    else ok false db

-- `retry_at` is none where the source's number is not finite; `wall` is the worker's `Date.now()`.
unfoldable pub defer_quota : ℕ → ℕ → RepositoryJob → ℕ → Option ℕ → Tx Bool
unfolding transaction lock defer_row
defer_quota now wall job worker none db = ok false db
defer_quota now wall job worker (some retry_at) db =
    if ltb (wall + day_ms) retry_at
    then ok false db
    else transaction (lock now job worker >> defer_row wall retry_at job worker) db

-- What the sandbox run hands to `complete`.
pub record TaskResult : Type 0 where
  pub session_id : ℕ
  pub session_status : SessionStatus
  pub preview_url : Option String
  pub files : List String
  pub base_sha : String
  pub verification : String

unfoldable pub insert_artifact : RepositoryJob → TaskResult → Tx (Unit {0})
insert_artifact job result db = ok tt (record db {
  artifacts =
      record {
        task_id = job.task_id;
        repository_id = job.repository_id;
        base_commit_sha = result.base_sha;
        base_branch = job.default_branch;
        files = result.files;
        verification = result.verification;
      }
      ∷ db.artifacts;
})

-- `UPDATE workspace_sessions … WHERE id=$1 AND task_id=$4`
unfoldable pub update_session : RepositoryJob → TaskResult → Tx (Unit {0})
unfolding update
update_session job result db = ok tt (record db {
  sessions =
      update result.session_id
        (λ s.
          if s.task_id == job.task_id
          then record s { status = result.session_status; preview_url = result.preview_url }
          else s)
        db.sessions;
})

unfoldable pub complete : ℕ → RepositoryJob → ℕ → TaskResult → Tx (Unit {0})
unfolding transaction lock insert_artifact update_session set_task set_job audit
complete now job worker result = transaction do
  lock now job worker
  insert_artifact job result
  update_session job result
  set_task job.task_id (λ t. record t { status = TaskStatus.awaiting_approval })
  set_job job.task_id (λ j. record j { status = JobStatus.completed; lease_expires_at = none })
  audit job.project_id none ActorType.system job.task_id "task.execute.success" true

abbrev pub default_details : String
default_details = "Workspace execution interrupted or verification failed. No changes were shipped."

-- The WHERE clause of `fail`.
unfoldable pub may_fail : ℕ → ℕ → Bool → Job → Bool
may_fail now worker expired_only j =
    holds (λ w. w == worker) j.worker_id
    && is_running j.status
    && (not expired_only || is_past now j.lease_expires_at)

abbrev failed_status : TaskStatus → JobStatus
failed_status TaskStatus.cancelled = JobStatus.cancelled
failed_status _ = JobStatus.failed

unfoldable pub fail_row : ℕ → ℕ → String → Task → Tx (Unit {0})
unfolding set_task set_job audit
fail_row task project details t = do
  set_task task (λ u.
      if is_working u.status
      then record u {
        status = TaskStatus.failed;
        error_details = some (if str_eq details "" then default_details else details);
      }
      else u)
  set_job task (λ j. record j { status = failed_status t.status; lease_expires_at = none })
  audit project none ActorType.system task "task.execute.failure" false

unfoldable pub fail_checked : ℕ → ℕ → ℕ → ℕ → Bool → String → Tx (Unit {0})
unfolding may_fail fail_row lookup
fail_checked now task project worker expired_only details db = elim (lookup task db.tasks) [
  | none ↦ ok tt db
  | some t ↦
      if holds (may_fail now worker expired_only) (lookup task db.jobs)
      then fail_row task project details t db
      else ok tt db
]

-- An absent `errorDetails` is the empty text: both give way to the default.
unfoldable pub fail : ℕ → ℕ → ℕ → ℕ → Bool → String → Tx (Unit {0})
unfolding transaction fail_checked
fail now task project worker expired_only details =
    transaction (fail_checked now task project worker expired_only details)

-- The rows that `expireLeases` selects: running, with a lease that has passed.
abbrev is_expired : ℕ → Job → Bool
is_expired now j = is_running j.status && is_past now j.lease_expires_at

unfoldable pub expired_rows : Db → ℕ → Table Job → List (ℕ × Option ℕ × ℕ)
unfolding lookup
expired_rows db now [] = []
expired_rows db now ((id, j) ∷ rows) =
    let rest = expired_rows db now rows in
    elim (lookup id db.tasks) [
      | none ↦ rest
      | some t ↦ if is_expired now j then (id, j.worker_id, t.project_id) ∷ rest else rest
    ]

-- One `fail` for each; a comparison with a worker that is NULL selects nothing.
unfoldable pub fail_each : ℕ → List (ℕ × Option ℕ × ℕ) → Tx (Unit {0})
unfolding fail
fail_each now [] = return tt
fail_each now ((task, none, project) ∷ rows) = fail_each now rows
fail_each now ((task, some worker, project) ∷ rows) =
    fail now task project worker true "" >> fail_each now rows

unfoldable pub expire_leases : ℕ → Tx (Unit {0})
unfolding expired_rows fail_each
expire_leases now db = fail_each now (take 100 (expired_rows db now db.jobs)) db
