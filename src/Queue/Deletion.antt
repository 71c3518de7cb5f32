-- ===== src/Queue/Deletion.antt =====
-- Deletion of a finished task by its creator, through both transactions of `changeTaskLifecycle`
-- (web/utils/task-lifecycle.ts): what is left of the task, or why it stays.
mod Rows
use ryvix.Common.{
  ℕ, ◌≡◌, ◌≢◌, true, false, not, ◌&&◌, none, some, List, [], ◌∷◌, ◌==◌, if◌then◌else◌, holds, keep,
  min,
}
use ryvix.Common.Effect.{Done, ok, err}
use ryvix.Common.Table.{Table, lookup}
use ryvix.Queue.Model.{Db, Task, Session, SessionStatus}
use ryvix.Queue.Lifecycle.{
  delete, LifecycleError, not_found, not_finished, cleanup_pending, is_own, is_finished,
  is_destroyed, live_sessions, expire_sessions, log, requested_name,
}
use ryvix.Queue.Cancellation.Writes.{artifact_count}

-- The rows of a database without those of a task.
pub record IsDeleted (task : ℕ) (db db' : Db) : Type 0 where
  pub no_task : lookup task db'.tasks ≡ none
  pub no_job : lookup task db'.jobs ≡ none
  pub no_artifact : artifact_count task db'.artifacts ≡ 0
  pub no_session : (k : ℕ) (s : Session) → lookup k db'.sessions ≡ some s → s.task_id ≢ task
  pub other_tasks : (k : ℕ) → task ≢ k → lookup k db'.tasks ≡ lookup k db.tasks
  pub other_jobs : (k : ℕ) → task ≢ k → lookup k db'.jobs ≡ lookup k db.jobs
  pub other_artifacts :
      (k : ℕ)
      → task ≢ k
      → keep (λ a. a.task_id == k) db'.artifacts ≡ keep (λ a. a.task_id == k) db.artifacts
  pub other_sessions :
      (k : ℕ) (s : Session)
      → lookup k db.sessions ≡ some s
      → s.task_id ≢ task
      → lookup k db'.sessions ≡ some s

-- The rows of a database in which the sandboxes of a task expire at once.
pub record IsExpiring (now task : ℕ) (db db' : Db) : Type 0 where
  pub tasks_kept : db'.tasks ≡ db.tasks
  pub jobs_kept : db'.jobs ≡ db.jobs
  pub artifacts_kept : db'.artifacts ≡ db.artifacts
  pub sessions_after : db'.sessions ≡ expire_sessions now task db.sessions
  pub expiring :
      (k : ℕ) (s : Session)
      → lookup k db.sessions ≡ some s
      → s.task_id ≡ task
      → s.status ≢ SessionStatus.destroyed
      → lookup k db'.sessions
        ≡ some (record s { expires_at = min s.expires_at now; preview_url = none })

-- The four ways in which a deletion ends.
pub data Outcome (now task member organization : ℕ) (db : Db)
    : Done LifecycleError Db (Unit {0}) → Type 0 where
  missing :
      holds (is_own db member organization) (lookup task db.tasks) ≡ false
      → Outcome now task member organization db (err not_found db)
  unfinished :
      (t : Task)
      → lookup task db.tasks ≡ some t
      → is_own db member organization t ≡ true
      → is_finished t.status ≡ false
      → Outcome now task member organization db (err not_finished db)
  pending :
      (t : Task) (id : ℕ) (ids : List ℕ) (db' : Db)
      → lookup task db.tasks ≡ some t
      → is_own db member organization t ≡ true
      → is_finished t.status ≡ true
      → live_sessions task db.sessions ≡ id ∷ ids
      → IsExpiring now task db db'
      → Outcome now task member organization db (err cleanup_pending db')
  deleted :
      (t : Task) (db' : Db)
      → lookup task db.tasks ≡ some t
      → is_own db member organization t ≡ true
      → is_finished t.status ≡ true
      → live_sessions task db.sessions ≡ []
      → IsDeleted task db db'
      → Outcome now task member organization db (ok tt db')

-- The database after the first transaction.
requested : ℕ → ℕ → ℕ → ℕ → Db → Db
unfolding log expire_sessions
requested now task member project db =
    log project member task (requested_name delete)
      (record db { sessions = expire_sessions now task db.sessions })
