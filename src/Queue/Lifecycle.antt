-- ===== src/Queue/Lifecycle.antt =====
-- Cancellation and deletion by the task's creator (`changeTaskLifecycle` of
-- web/utils/task-lifecycle.ts).
use ryvix.Common.{
  ℕ, String, Bool, true, false, not, ◌&&◌, Option, none, some, List, [], ◌∷◌, ◌==◌, if◌then◌else◌,
  holds, min, any, keep,
}
use ryvix.Common.Effect.{M, ok, err, return, ◌>>=◌, ◌>>◌}
use ryvix.Common.Table.{Table, lookup, update, remove}
use ryvix.Queue.Model.{
  Db, Task, Job, JobStatus, TaskStatus, ActorType, AuditDetail, Session, SessionStatus, is_active,
  may_operate,
}
use ryvix.Queue.Base.{transaction}

pub data Action : Type 0 where
  cancel delete : Action

pub data LifecycleError : Type 0 where
  not_found completed_task not_finished cleanup_pending task_changed : LifecycleError

abbrev pub Lx : Type 0 → Type 0
Lx A = M LifecycleError Db A

abbrev pub is_destroyed : SessionStatus → Bool
is_destroyed SessionStatus.destroyed = true
is_destroyed _ = false

-- The sandboxes of a task that are not destroyed.
unfoldable pub live_sessions : ℕ → Table Session → List ℕ
live_sessions task [] = []
live_sessions task ((id, s) ∷ rows) =
    if s.task_id == task && not (is_destroyed s.status)
    then id ∷ live_sessions task rows
    else live_sessions task rows

-- The UPDATE that expires them at once.
unfoldable pub expire_sessions : ℕ → ℕ → Table Session → Table Session
expire_sessions now task [] = []
expire_sessions now task ((id, s) ∷ rows) =
    if s.task_id == task && not (is_destroyed s.status)
    then (id, record s { expires_at = min s.expires_at now; preview_url = none })
      ∷ expire_sessions now task rows
    else (id, s) ∷ expire_sessions now task rows

-- The creator's own task, in the organization, in a role that may operate.
unfoldable pub is_own : Db → ℕ → ℕ → Task → Bool
unfolding may_operate lookup
is_own db member organization t =
    t.created_by == member
    && holds (λ org. org == organization) (lookup t.project_id db.projects)
    && may_operate db t.project_id member

abbrev is_completed : TaskStatus → Bool
is_completed TaskStatus.completed = true
is_completed _ = false

-- `['failed','cancelled','completed'].includes(status)`
abbrev pub is_finished : TaskStatus → Bool
is_finished TaskStatus.failed = true
is_finished TaskStatus.cancelled = true
is_finished TaskStatus.completed = true
is_finished _ = false

abbrev pub refusal : Action → TaskStatus → Option LifecycleError
refusal cancel s = if is_completed s then some completed_task else none
refusal delete s = if is_finished s then none else some not_finished

abbrev pub cancel_job : Job → Job
cancel_job j =
    if is_active j.status
    then record j { status = JobStatus.cancelled; lease_expires_at = none }
    else j

unfoldable pub apply_action : Action → ℕ → Db → Db
unfolding update
apply_action delete task db = db
apply_action cancel task db = record db {
  tasks = update task (λ t. record t { status = TaskStatus.cancelled }) db.tasks;
  jobs = update task cancel_job db.jobs;
}

abbrev pub requested_name : Action → String
requested_name cancel = "task.cancel.requested"
requested_name delete = "task.delete.requested"

abbrev pub success_name : Action → String
success_name cancel = "task.cancel.success"
success_name delete = "task.delete.success"

unfoldable pub log : ℕ → ℕ → ℕ → String → Db → Db
log project member task action db = record db {
  audit_events =
      record {
        project_id = project;
        actor_id = some member;
        actor_type = ActorType.user;
        action_name = action;
        subject = task;
        diff_summary = AuditDetail.about task;
        success = true;
      }
      ∷ db.audit_events;
}

-- The first transaction: the task's project, and its sandboxes that were live at the lock.
unfoldable pub request_row : ℕ → Action → ℕ → ℕ → ℕ → Lx (ℕ × List ℕ)
unfolding live_sessions expire_sessions apply_action log
request_row now action task member project db =
    ok (project, live_sessions task db.sessions)
      (log project member task (requested_name action)
        (apply_action action task (record db { sessions = expire_sessions now task db.sessions })))

unfoldable pub request_checked : ℕ → Action → ℕ → ℕ → ℕ → Lx (ℕ × List ℕ)
unfolding is_own request_row lookup
request_checked now action task member organization db = elim (lookup task db.tasks) [
  | none ↦ err not_found db
  | some t ↦
      if is_own db member organization t
      then elim (refusal action t.status) [
        | some e ↦ err e db
        | none ↦ request_row now action task member t.project_id db
      ]
      else err not_found db
]

unfoldable pub request : ℕ → Action → ℕ → ℕ → ℕ → Lx (ℕ × List ℕ)
unfolding transaction request_checked
request now action task member organization =
    transaction (request_checked now action task member organization)

-- The WHERE clause of the DELETE in the second transaction.
unfoldable pub may_delete : Db → ℕ → ℕ → ℕ → Bool
unfolding is_own live_sessions lookup
may_delete db task member organization =
    holds (λ t. is_own db member organization t && is_finished t.status) (lookup task db.tasks)
    && not (any (λ id. true) (live_sessions task db.sessions))

-- The sandboxes of other tasks.
unfoldable pub without_sessions : ℕ → Table Session → Table Session
without_sessions task [] = []
without_sessions task ((id, s) ∷ rows) =
    if s.task_id == task then without_sessions task rows else (id, s) ∷ without_sessions task rows

-- The DELETE with the rows that refer to the task ON DELETE CASCADE: its job, artifact, plans and
-- sandboxes.
unfoldable pub cascade : ℕ → Db → Db
unfolding remove without_sessions
cascade task db = record db {
  tasks = remove task db.tasks;
  jobs = remove task db.jobs;
  artifacts = keep (λ a. not (a.task_id == task)) db.artifacts;
  plans = keep (λ p. not (p.task_id == task)) db.plans;
  sessions = without_sessions task db.sessions;
}

unfoldable pub delete_task : ℕ → ℕ → ℕ → Lx (Unit {0})
unfolding may_delete cascade
delete_task task member organization db =
    if may_delete db task member organization then ok tt (cascade task db) else err task_changed db

unfoldable pub finish_in : Action → ℕ → ℕ → ℕ → Lx (Unit {0})
unfolding delete_task
finish_in cancel task member organization = return tt
finish_in delete task member organization = delete_task task member organization

unfoldable pub write_log : ℕ → ℕ → ℕ → String → Lx (Unit {0})
unfolding log
write_log project member task action db = ok tt (log project member task action db)

-- The second transaction.
unfoldable pub finish : Action → ℕ → ℕ → ℕ → ℕ → Lx (Unit {0})
unfolding transaction finish_in write_log
finish action project task member organization = transaction do
  finish_in action task member organization
  write_log project member task (success_name action)

abbrev pub wait_for_cleanup : Action → List ℕ → Lx (Unit {0})
wait_for_cleanup delete (id ∷ ids) db = err cleanup_pending db
wait_for_cleanup _ _ db = ok tt db

-- Both transactions in order, with none of another client between them.
unfoldable pub change_task_lifecycle : ℕ → Action → ℕ → ℕ → ℕ → Lx (Unit {0})
unfolding request finish
change_task_lifecycle now action task member organization = do
  (project, sessions) ← request now action task member organization
  wait_for_cleanup action sessions
  finish action project task member organization
