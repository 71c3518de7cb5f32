-- ===== src/Queue/Admission.antt =====
-- Admission and claiming of jobs: `enqueue` and `claim` of
-- backend/src/services/repository-job-store.ts.
use ryvix.Common.{
  ℕ, ◌+◌, String, Bool, true, false, not, ◌&&◌, ◌||◌, Option, none, some, List, leb, ◌==◌,
  if◌then◌else◌, is_some, holds, any,
}
use ryvix.Common.Effect.{ok, err, return, ◌>>=◌, ◌>>◌}
use ryvix.Common.Table.{Table, lookup, insert, count, first_by}
use ryvix.Queue.Model.{
  Db, Task, Job, JobStatus, TaskStatus, TaskChannel, TaskType, ActorType, Credential, RepositoryJob,
  is_queued, is_active, may_operate, is_later,
}
use ryvix.Queue.Base.{QueueError, Tx, transaction, set_task, set_job, audit, worker_host}

-- The repository row, if it lies in a project of the organization that the user may operate.
unfoldable pub enqueue_scope : Db → ℕ → ℕ → ℕ → Option ℕ
unfolding lookup may_operate
enqueue_scope db repository organization member = elim (lookup repository db.repositories) [
  | none ↦ none
  | some r ↦
      if holds (λ org. org == organization) (lookup r.project_id db.projects)
        && may_operate db r.project_id member
      then some r.project_id
      else none
]

-- `cc.expires_at IS NULL OR cc.expires_at>now()`
abbrev pub is_unexpired : ℕ → Credential → Bool
is_unexpired now c = not (is_some c.expires_at) || is_later now c.expires_at

-- The jobs of a project that are queued or running, as `enqueue` counts them.
abbrev pub in_project : Table Task → ℕ → ℕ → Job → Bool
in_project tasks project id j =
    is_active j.status && holds (λ t. t.project_id == project) (lookup id tasks)

unfoldable pub active_count : Db → ℕ → ℕ
unfolding count
active_count db project = count (in_project db.tasks project) db.jobs

abbrev pub queue_limit : ℕ
queue_limit = 10

abbrev pub new_task : ℕ → ℕ → String → Task
new_task project member prompt = record {
  project_id = project;
  created_by = member;
  channel = TaskChannel.web;
  task_type = TaskType.coding;
  status = TaskStatus.queued;
  user_prompt = prompt;
  active_plan_id = none;
  summary = none;
  error_details = none;
}

abbrev pub new_job : ℕ → ℕ → Job
new_job now repository = record {
  repository_id = repository;
  status = JobStatus.queued;
  worker_id = none;
  worker_host_id = none;
  lease_expires_at = none;
  available_at = now;
  quota_retries = 0;
  created_at = now;
}

-- The two INSERTs; `id` is the identifier that the database generates.
unfoldable pub insert_task : ℕ → ℕ → ℕ → ℕ → ℕ → String → Tx (Unit {0})
unfolding insert
insert_task now id repository project member prompt db = ok tt (record db {
  tasks = insert id (new_task project member prompt) db.tasks;
  jobs = insert id (new_job now repository) db.jobs;
})

unfoldable pub enqueue_in : ℕ → ℕ → ℕ → ℕ → String → ℕ → Tx ℕ
unfolding active_count insert_task audit
enqueue_in now id repository member prompt project db =
    if any (is_unexpired now) (db.credentials project)
    then if leb queue_limit (active_count db project)
      then err QueueError.queue_full db
      else (do
        insert_task now id repository project member prompt
        audit project (some member) ActorType.user id "task.enqueue" true
        return id)
          db
    else err QueueError.no_connection db

unfoldable pub enqueue_checked : ℕ → ℕ → ℕ → ℕ → ℕ → String → Tx ℕ
unfolding enqueue_scope enqueue_in
enqueue_checked now id repository organization member prompt db =
    elim (enqueue_scope db repository organization member) [
      | none ↦ err QueueError.access_denied db
      | some project ↦ enqueue_in now id repository member prompt project db
    ]

unfoldable pub enqueue : ℕ → ℕ → ℕ → ℕ → ℕ → String → Tx ℕ
unfolding transaction enqueue_checked
enqueue now id repository organization member prompt =
    transaction (enqueue_checked now id repository organization member prompt)

-- The joined row of a job: its task, project and repository, the repository being the project's.
unfoldable pub describe : Db → ℕ → Option RepositoryJob
unfolding lookup
describe db id = elim (lookup id db.jobs) [
  | none ↦ none
  | some j ↦ elim (lookup id db.tasks) [
    | none ↦ none
    | some t ↦ elim (lookup t.project_id db.projects) [
      | none ↦ none
      | some org ↦ elim (lookup j.repository_id db.repositories) [
        | none ↦ none
        | some r ↦
            if r.project_id == t.project_id
            then some (record {
              task_id = id;
              repository_id = j.repository_id;
              project_id = t.project_id;
              organization_id = org;
              created_by = t.created_by;
              user_prompt = t.user_prompt;
              full_name = r.full_name;
              default_branch = r.default_branch;
            })
            else none
      ]
    ]
  ]
]

abbrev task_is_queued : TaskStatus → Bool
task_is_queued TaskStatus.queued = true
task_is_queued _ = false

-- The WHERE clause of `claim`; `locked` says which rows other transactions hold (SKIP LOCKED).
unfoldable pub is_claimable : Db → ℕ → (ℕ → Bool) → ℕ → Bool
unfolding describe lookup
is_claimable db now locked id =
    is_some (describe db id)
    && holds (λ j. is_queued j.status && leb j.available_at now) (lookup id db.jobs)
    && holds (λ t. task_is_queued t.status) (lookup id db.tasks)
    && not (locked id)

-- `created_at`, by which the claim orders
abbrev pub created : Db → ℕ → ℕ
created db id = elim (lookup id db.jobs) [ none ↦ 0 | some j ↦ j.created_at ]

unfoldable pub next_job : Db → ℕ → (ℕ → Bool) → Option ℕ
unfolding is_claimable first_by
next_job db now locked = first_by (is_claimable db now locked) (created db) db.jobs

abbrev pub lease_ms : ℕ
lease_ms = 45000

unfoldable pub take_job : ℕ → List ℕ → ℕ → RepositoryJob → Tx (Option RepositoryJob)
unfolding set_job set_task audit
take_job now host worker job = do
  set_job job.task_id (λ j. record j {
    status = JobStatus.running;
    worker_id = some worker;
    worker_host_id = some host;
    lease_expires_at = some (now + lease_ms);
  })
  set_task job.task_id (λ t. record t { status = TaskStatus.planning; error_details = none })
  audit job.project_id none ActorType.system job.task_id "task.execute.requested" true
  return (some job)

unfoldable pub claim_with : ℕ → (ℕ → Bool) → List ℕ → ℕ → Tx (Option RepositoryJob)
unfolding next_job describe take_job
claim_with now locked host worker db = elim (next_job db now locked) [
  | none ↦ ok none db
  | some id ↦ elim (describe db id) [
    | none ↦ ok none db
    | some job ↦ take_job now host worker job db
  ]
]

unfoldable pub claim : ℕ → (ℕ → Bool) → Option (List ℕ) → ℕ → Tx (Option RepositoryJob)
unfolding worker_host transaction claim_with
claim now locked host_id worker = do
  host ← worker_host host_id
  transaction (claim_with now locked host worker)
