-- ===== src/Queue/Outcomes.antt =====
-- What `complete` and `deferQuota` of backend/src/services/repository-job-store.ts have checked and
-- written where they succeed.
use ryvix.Common.{
  ℕ, suc, ◌≡◌, ◌≢◌, ◌≤◌, ◌+◌, refl, true, none, some, ◌∷◌, ==_refl, arith, subst, ap, inl, inr,
  Bool-cases, Option, Option-cases, ◌==◌, ◌&&◌, if◌then◌else◌, ltb,
}
use ryvix.Common.Effect.{ok, world, ◌>>◌}
use ryvix.Common.Table.{lookup, update, lookup-update}
use ryvix.Queue.Model.{Db, Task, Job, JobStatus, TaskStatus, ActorType, RepositoryJob, Session}
use ryvix.Queue.Base.{Tx, transaction, settle, lock, holds_lease, is_held, set_task, set_job, audit}
use ryvix.Queue.Finish.{
  TaskResult, complete, insert_artifact, update_session, defer_quota, defer_row, may_defer,
  deferred_job, day_ms,
}
use ryvix.Queue.Invariant.Coherence.{held_rows}
use ryvix.Queue.Results.{settle-ok}

-- A transaction under `lock` that succeeds held the lease, and its body succeeded.
pub locked-ok :
    {A : Type 0} (now : ℕ) (job : RepositoryJob) (worker : ℕ) (f : Tx A) (db db' : Db) (a : A)
    → transaction (lock now job worker >> f) db ≡ ok a db'
    → (holds_lease db now worker job.task_id ≡ true) × (f db ≡ ok a db')
unfolding transaction lock
locked-ok now job worker f db db' a h = elim (Bool-cases (holds_lease db now worker job.task_id)) [
  | inl e ↦ (e, settle-ok db db' (f db) a (rw (e, settle, ◌>>◌) at h))
  | inr e ↦ absurd (cc (rw (e, settle, ◌>>◌) at h))
]

-- The row of a session behind a completion: the result's session of this task has the result's
-- status and address, and every other row is the old one.
abbrev pub session_after : RepositoryJob → TaskResult → Db → ℕ → Option Session
session_after job result db id = elim (lookup id db.sessions) [
  | none ↦ none
  | some s ↦
      if (id == result.session_id) && (s.task_id == job.task_id)
      then some (record s { status = result.session_status; preview_url = result.preview_url })
      else some s
]

updated_session :
    (job : RepositoryJob) (result : TaskResult) (db : Db) (id : ℕ)
    → lookup id (
        update result.session_id
          (λ s.
            if s.task_id == job.task_id
            then record s { status = result.session_status; preview_url = result.preview_url }
            else s)
          db.sessions)
      ≡ session_after job result db id
updated_session job result db id =
    rw (lookup-update result.session_id id _ db.sessions)
      (elim (Option-cases (lookup id db.sessions)) [
        | inl e ↦ rw e (ground arith)
        | inr (s, e) ↦ rw e (ground arith)
      ])

-- The rows after a completion, with those of all other tasks untouched.
pub record IsCompleted (job : RepositoryJob) (result : TaskResult) (db db' : Db) : Type 0 where
  pub task : Task
  pub had_task : lookup job.task_id db.tasks ≡ some task
  pub awaiting :
      lookup job.task_id db'.tasks ≡ some (record task { status = TaskStatus.awaiting_approval })
  pub row : Job
  pub had_job : lookup job.task_id db.jobs ≡ some row
  pub completed :
      lookup job.task_id db'.jobs
      ≡ some (record row { status = JobStatus.completed; lease_expires_at = none })
  pub published :
      db'.artifacts
      ≡ record {
        task_id = job.task_id;
        repository_id = job.repository_id;
        base_commit_sha = result.base_sha;
        base_branch = job.default_branch;
        files = result.files;
        verification = result.verification;
      }
        ∷ db.artifacts
  pub sessions : (id : ℕ) → lookup id db'.sessions ≡ session_after job result db id
  pub plans_kept : db'.plans ≡ db.plans
  pub other_tasks : (id : ℕ) → job.task_id ≢ id → lookup id db'.tasks ≡ lookup id db.tasks
  pub other_jobs : (id : ℕ) → job.task_id ≢ id → lookup id db'.jobs ≡ lookup id db.jobs

complete_body : ℕ → RepositoryJob → TaskResult → Tx (Unit {0})
unfolding insert_artifact update_session set_task set_job audit
complete_body now job result =
    insert_artifact job result
    >> (update_session job result
        >> (set_task job.task_id (λ t. record t { status = TaskStatus.awaiting_approval })
            >> (set_job job.task_id
                  (λ j. record j { status = JobStatus.completed; lease_expires_at = none })
                >> audit job.project_id none ActorType.system job.task_id "task.execute.success"
                    true)))

complete_body-IsCompleted :
    (db : Db) (now worker : ℕ) (job : RepositoryJob) (result : TaskResult)
    → holds_lease db now worker job.task_id ≡ true
    → IsCompleted job result db (world (complete_body now job result db))
unfolding complete_body insert_artifact update_session set_task set_job audit
complete_body-IsCompleted db now worker job result held =
    let (t, j, et, ej, h) = held_rows db now worker job.task_id held in
    record {
      task = t;
      had_task = et;
      awaiting =
          rw (lookup-update job.task_id job.task_id _ db.tasks, ==_refl job.task_id, et) refl;
      row = j;
      had_job = ej;
      completed =
          rw (lookup-update job.task_id job.task_id _ db.jobs, ==_refl job.task_id, ej) refl;
      published = refl;
      sessions = λ id. updated_session job result db id;
      plans_kept = refl;
      other_tasks = λ id ne. rw (lookup-update job.task_id id _ db.tasks) (ground arith);
      other_jobs = λ id ne. rw (lookup-update job.task_id id _ db.jobs) (ground arith);
    }

-- A completion that succeeds held a live lease of this worker on a task that its creator may
-- operate. The task then awaits approval and its job is completed and without a lease, with all
-- other columns as they were; one artifact with the result's fields is added for it; the result's
-- session, if it is of this task, takes the result's status and address; and no other task, job or
-- session changes, nor any plan.
pub complete-IsCompleted :
    (db db' : Db) (now worker : ℕ) (job : RepositoryJob) (result : TaskResult)
    → complete now job worker result db ≡ ok tt db'
    → (holds_lease db now worker job.task_id ≡ true) × IsCompleted job result db db'
unfolding complete complete_body
complete-IsCompleted db db' now worker job result h =
    let (held, e) = locked-ok now job worker (complete_body now job result) db db' tt h in
    (
      held,
      subst (IsCompleted job result db) (ap world e)
          (complete_body-IsCompleted db now worker job result held),
    )

defer_row-ok :
    (db db' : Db) (now wall worker retry_at : ℕ) (job : RepositoryJob) (t : Task) (j : Job)
    → lookup job.task_id db.tasks ≡ some t
    → lookup job.task_id db.jobs ≡ some j
    → is_held db now worker t j ≡ true
    → defer_row wall retry_at job worker db ≡ ok true db'
    → (lookup job.task_id db'.jobs ≡ some (deferred_job wall retry_at j))
      × (ltb j.quota_retries 3 ≡ true)
      × (j.status ≡ JobStatus.running)
unfolding defer_row may_defer is_held set_task set_job audit
defer_row-ok db db' now wall worker retry_at job t j et ej q h = (
  ground (arith, lookup-update job.task_id job.task_id (deferred_job wall retry_at) db.jobs),
  ground arith,
  ground arith,
)

-- A deferral that succeeds puts the job back in the queue at least a minute and at most a day after
-- the worker's clock, without a worker or lease, and counts it: three times in all.
pub defer_quota-bounds :
    (db db' : Db) (now wall worker retry_at : ℕ) (job : RepositoryJob)
    → defer_quota now wall job worker (some retry_at) db ≡ ok true db'
    → (before : Job) × (after : Job) × (lookup job.task_id db.jobs ≡ some before)
      × (lookup job.task_id db'.jobs ≡ some after)
      × (before.status ≡ JobStatus.running)
      × (after.status ≡ JobStatus.queued)
      × (after.worker_id ≡ none)
      × (after.lease_expires_at ≡ none)
      × (after.quota_retries ≡ suc before.quota_retries)
      × (after.quota_retries ≤ 3)
      × (wall + 60000 ≤ after.available_at)
      × (after.available_at ≤ wall + day_ms)
unfolding defer_quota
defer_quota-bounds db db' now wall worker retry_at job h =
    elim (Bool-cases (ltb (wall + day_ms) retry_at)) [
      | inl late ↦ absurd (cc (rw late at h))
      | inr soon ↦
          let (held, e) =
            locked-ok now job worker (defer_row wall retry_at job worker) db db' true
              (rw soon at h) in
          let (t, j, et, ej, q) = held_rows db now worker job.task_id held in
          let (row, few, ran) = defer_row-ok db db' now wall worker retry_at job t j et ej q e in
          (
            j,
            deferred_job wall retry_at j,
            ej,
            row,
            ran,
            refl,
            refl,
            refl,
            omega arith,
            ground arith,
            omega arith,
            ground arith,
          )
    ]
