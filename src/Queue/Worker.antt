-- ===== src/Queue/Worker.antt =====
-- What the worker that claimed a job does with it: heartbeat, credentials, progress, session and
-- plan (backend/src/services/repository-job-store.ts).
use ryvix.Common.{
  ℕ, ◌+◌, String, str_eq, Bool, true, false, not, ◌&&◌, Option, none, some, List, [], ◌∷◌, ◌==◌,
  if◌then◌else◌, holds, take,
}
use ryvix.Common.Effect.{ok, err, return, ◌>>=◌, ◌>>◌}
use ryvix.Common.Table.{lookup, insert}
use ryvix.Progress.{TaskProgress, TaskStage, StageStatus}
use ryvix.Queue.Model.{
  Task, Job, TaskStatus, ActorType, AuditDetail, Session, Credential, RepositoryJob, is_working,
  is_running, is_later,
}
use ryvix.Queue.Base.{QueueError, Tx, transaction, set_task, set_job, lock, worker_host}
use ryvix.Queue.Admission.{is_unexpired, lease_ms}

-- The WHERE clause of `heartbeat`, which is one UPDATE outside a transaction.
unfoldable pub is_beating : ℕ → ℕ → Task → Job → Bool
is_beating now worker t j =
    holds (λ w. w == worker) j.worker_id
    && is_running j.status
    && is_later now j.lease_expires_at
    && is_working t.status

unfoldable pub heartbeat : ℕ → ℕ → ℕ → Tx Bool
unfolding is_beating set_job lookup
heartbeat now task worker db =
    if holds (λ t. holds (is_beating now worker t) (lookup task db.jobs)) (lookup task db.tasks)
    then (set_job task (λ j. record j { lease_expires_at = some (now + lease_ms) }) >> return true)
        db
    else ok false db

unfoldable pub first_unexpired : ℕ → List Credential → Option Credential
first_unexpired now [] = none
first_unexpired now (c ∷ cs) =
    if c.in_vault && is_unexpired now c then some c else first_unexpired now cs

abbrev pub secret_of : Option Credential → Option String
secret_of none = none
secret_of (some c) = c.decrypted_secret

unfoldable pub read_secret : ℕ → RepositoryJob → Tx String
unfolding first_unexpired
read_secret now job db = elim (secret_of (first_unexpired now (db.credentials job.project_id))) [
  | none ↦ err QueueError.no_credentials db
  | some secret ↦ if str_eq secret "" then err QueueError.no_credentials db else ok secret db
]

unfoldable pub credentials : ℕ → RepositoryJob → ℕ → Tx String
unfolding transaction lock read_secret
credentials now job worker = transaction (lock now job worker >> read_secret now job)

-- `...(event.detail?{detail:event.detail.slice(0,160)}:{})`
abbrev cut : Option (List ℕ) → Option (List ℕ)
cut none = none
cut (some []) = none
cut (some (c ∷ cs)) = some (take 160 (c ∷ cs))

-- The bounded copy of an event that is recorded: `detail` is cut to 160 code units.
unfoldable pub safe_event : TaskProgress → TaskProgress
safe_event event = record event { detail = cut event.detail }

abbrev is_failed : StageStatus → Bool
is_failed StageStatus.failed = true
is_failed _ = false

-- The stages that move the task to `verifying`.
abbrev pub is_verification : TaskStage → Bool
is_verification TaskStage.install = true
is_verification TaskStage.test = true
is_verification TaskStage.typecheck = true
is_verification TaskStage.lint = true
is_verification TaskStage.build = true
is_verification TaskStage.repair = true
is_verification TaskStage.diff = true
is_verification TaskStage.preview = true
is_verification _ = false

unfoldable pub record_event : RepositoryJob → TaskProgress → Tx (Unit {0})
unfolding safe_event
record_event job event db = ok tt (record db {
  audit_events =
      record {
        project_id = job.project_id;
        actor_id = none;
        actor_type = ActorType.system;
        action_name = "task.pipeline.progress";
        subject = job.task_id;
        diff_summary = AuditDetail.stage_event (safe_event event);
        success = not (is_failed event.status);
      }
      ∷ db.audit_events;
})

unfoldable pub advance : RepositoryJob → TaskStage → Tx (Unit {0})
unfolding set_task
advance job stage db =
    if is_verification stage
    then set_task job.task_id (λ t. record t { status = TaskStatus.verifying }) db
    else ok tt db

unfoldable pub progress : ℕ → RepositoryJob → ℕ → TaskProgress → Tx (Unit {0})
unfolding transaction lock record_event advance
progress now job worker event =
    transaction do lock now job worker; record_event job event; advance job event.stage

unfoldable pub insert_session : ℕ → Session → Tx (Unit {0})
unfolding insert
insert_session id s db = ok tt (record db { sessions = insert id s db.sessions })

-- `session`: the row of a new sandbox, owned by this worker's host.
unfoldable pub session : ℕ → RepositoryJob → ℕ → Option (List ℕ) → ℕ → Session → Tx (Unit {0})
unfolding transaction lock worker_host insert_session
session now job worker host_id id s = transaction do
  lock now job worker
  host ← worker_host host_id
  insert_session id
      (record s { task_id = job.task_id; project_id = job.project_id; worker_host_id = some host })

unfoldable pub insert_plan : RepositoryJob → ℕ → List String → Tx (Unit {0})
insert_plan job id steps db =
    ok tt
      (record db { plans = record { id = id; task_id = job.task_id; steps = steps } ∷ db.plans })

-- `plan`: `id` is the identifier that the database generates for the plan.
unfoldable pub plan : ℕ → RepositoryJob → ℕ → ℕ → String → List String → Tx (Unit {0})
unfolding transaction lock insert_plan set_task
plan now job worker id summary steps = transaction do
  lock now job worker
  insert_plan job id steps
  set_task job.task_id (λ t. record t {
    active_plan_id = some id;
    summary = some summary;
    status = TaskStatus.executing;
  })
