-- ===== src/Queue/Base.antt =====
-- backend/src/services/repository-job-store.ts: the transaction wrapper, the writes of single rows, and
-- the lock that every worker write takes first. `now` is the database's clock at the call. A failing
-- database is not modelled; a thrown error is, and rolls back.
use ryvix.Common.{ℕ, String, Bool, ◌&&◌, Option, none, some, List, ◌∷◌, ◌==◌, if◌then◌else◌, holds}
use ryvix.Common.Effect.{M, Done, ok, err}
use ryvix.Common.Table.{lookup, update}
use ryvix.Queue.Model.{
  Db, Task, Job, ActorType, AuditDetail, RepositoryJob, is_working, is_running, is_later,
  may_operate,
}
use ryvix.Queue.Text.{is_host_id}

pub data QueueError : Type 0 where
  access_denied no_connection queue_full lease_lost no_credentials no_host : QueueError

abbrev pub Tx : Type 0 → Type 0
Tx A = M QueueError Db A

-- BEGIN … COMMIT, and ROLLBACK on any error, which is thrown on.
abbrev pub settle : {E A : Type 0} → Db → Done E Db A → Done E Db A
settle db (ok a db') = ok a db'
settle db (err e _) = err e db

unfoldable pub transaction : {E A : Type 0} → M E Db A → M E Db A
transaction fn db = settle db (fn db)

unfoldable pub set_task : ℕ → (Task → Task) → Tx (Unit {0})
unfolding update
set_task id f db = ok tt (record db { tasks = update id f db.tasks })

unfoldable pub set_job : ℕ → (Job → Job) → Tx (Unit {0})
unfolding update
set_job id f db = ok tt (record db { jobs = update id f db.jobs })

-- `audit`, at an actor's identifier or none
unfoldable pub audit : ℕ → Option ℕ → ActorType → ℕ → String → Bool → Tx (Unit {0})
audit project actor kind task action success db = ok tt (record db {
  audit_events =
      record {
        project_id = project;
        actor_id = actor;
        actor_type = kind;
        action_name = action;
        subject = task;
        diff_summary = AuditDetail.about task;
        success = success;
      }
      ∷ db.audit_events;
})

-- The WHERE clause of `lock` over the two rows of a task.
unfoldable pub is_held : Db → ℕ → ℕ → Task → Job → Bool
is_held db now worker t j =
    holds (λ w. w == worker) j.worker_id
    && is_running j.status
    && is_later now j.lease_expires_at
    && is_working t.status
    && may_operate db t.project_id t.created_by

unfoldable pub holds_lease : Db → ℕ → ℕ → ℕ → Bool
unfolding is_held
holds_lease db now worker task =
    holds (λ t. holds (is_held db now worker t) (lookup task db.jobs)) (lookup task db.tasks)

-- `lock`: the task is live, leased to this worker, and its creator may still operate.
unfoldable pub lock : ℕ → RepositoryJob → ℕ → Tx (Unit {0})
unfolding holds_lease
lock now job worker db =
    if holds_lease db now worker job.task_id then ok tt db else err QueueError.lease_lost db

-- `workerHost`
unfoldable pub worker_host : Option (List ℕ) → Tx (List ℕ)
unfolding is_host_id
worker_host (some host) db = if is_host_id host then ok host db else err QueueError.no_host db
worker_host none db = err QueueError.no_host db
