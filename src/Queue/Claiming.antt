-- ===== src/Queue/Claiming.antt =====
-- Which job `claim` of backend/src/services/repository-job-store.ts takes, and when it takes none.
use ryvix.Common.{
  ℕ, ◌≡◌, ◌≢◌, sym, ◌∙◌, ◌≤◌, ◌+◌, refl, Bool, true, false, Option, none, some, List, arith, inl,
  inr, Bool-cases, ◌⊎◌, subst, Option-cases, is_some, ==_refl,
}
use ryvix.Common.Effect.{ok, err, world, ◌>>=◌}
use ryvix.Common.Table.{lookup, first_by_passes, first_by-none, first_by_least, lookup-update}
use ryvix.Queue.Model.{Db, Job, Task, TaskStatus, Repository, RepositoryJob, JobStatus}
use ryvix.Queue.Text.{is_host_id}
use ryvix.Queue.Base.{QueueError, worker_host, settle, transaction}
use ryvix.Queue.Admission.{
  claim, claim_with, take_job, next_job, created, is_claimable, describe, lease_ms,
}
use ryvix.Queue.Invariant.Admission.{describe_rows}

-- What a claim that returns a job has found and written.
pub record IsTaken (now : ℕ) (locked : ℕ → Bool) (worker : ℕ) (job : RepositoryJob) (db db' : Db)
    : Type 0 where
  pub claimable : is_claimable db now locked job.task_id ≡ true
  pub oldest :
      (id : ℕ)
      → is_some (lookup id db.jobs) ≡ true
      → is_claimable db now locked id ≡ true
      → created db job.task_id ≤ created db id
  pub row : Job
  pub found : lookup job.task_id db'.jobs ≡ some row
  pub running : row.status ≡ JobStatus.running
  pub owner : row.worker_id ≡ some worker
  pub lease : row.lease_expires_at ≡ some (now + lease_ms)

take_job-IsTaken :
    (db : Db) (now : ℕ) (locked : ℕ → Bool) (host : List ℕ) (worker id : ℕ) (job : RepositoryJob)
    → next_job db now locked ≡ some id
    → describe db id ≡ some job
    → IsTaken now locked worker job db (world (take_job now host worker job db))
unfolding take_job next_job
take_job-IsTaken db now locked host worker id job e d =
    let (t, j, et, ej, same, _, _) = describe_rows db id job d in
    record {
      claimable = rw same (first_by_passes _ _ db.jobs id e);
      oldest = λ i m c. rw same (first_by_least _ _ db.jobs id i e m c);
      row = record j {
        status = JobStatus.running;
        worker_id = some worker;
        worker_host_id = some host;
        lease_expires_at = some (now + lease_ms);
      };
      found =
          rw (lookup-update job.task_id job.task_id _ db.jobs, ==_refl job.task_id, same, ej) refl;
      running = refl;
      owner = refl;
      lease = refl;
    }

claimable_describes :
    (db : Db) (now : ℕ) (locked : ℕ → Bool) (id : ℕ)
    → is_claimable db now locked id ≡ true
    → describe db id ≢ none
unfolding is_claimable
claimable_describes db now locked id h e = ground arith

-- A claim finds nothing, or takes the job that it found.
claim_cases :
    (db : Db) (now : ℕ) (locked : ℕ → Bool) (host : List ℕ) (worker : ℕ)
    → ((next_job db now locked ≡ none)
        × (transaction (claim_with now locked host worker) db ≡ ok none db))
      ⊎ ((id : ℕ) × (job : RepositoryJob) × (next_job db now locked ≡ some id)
          × (describe db id ≡ some job)
          × (transaction (claim_with now locked host worker) db
              ≡ ok (some job) (world (take_job now host worker job db))))
unfolding transaction claim_with take_job next_job
claim_cases db now locked host worker = elim (Option-cases (next_job db now locked)) [
  | inl e ↦ inl (e, rw (e, settle))
  | inr (id, e) ↦ elim (Option-cases (describe db id)) [
    | inl d ↦ absurd (claimable_describes db now locked id (first_by_passes _ _ db.jobs id e) d)
    | inr (job, d) ↦ inr (id, job, e, d, rw (e, settle) (rw (d, settle)))
  ]
]

claim-host :
    (db : Db) (now : ℕ) (locked : ℕ → Bool) (host : List ℕ) (worker : ℕ)
    → is_host_id host ≡ true
    → claim now locked (some host) worker db ≡ transaction (claim_with now locked host worker) db
unfolding claim worker_host
claim-host db now locked host worker e = rw (e, ◌>>=◌)

claim-no_host :
    (db : Db) (now : ℕ) (locked : ℕ → Bool) (host : List ℕ) (worker : ℕ)
    → is_host_id host ≡ false
    → claim now locked (some host) worker db ≡ err QueueError.no_host db
unfolding claim worker_host
claim-no_host db now locked host worker e = rw (e, ◌>>=◌)

-- A claim that returns a job took it in the state `running`, for this worker and 45 seconds; the
-- job's task and row were queued, due and unlocked, and no such job was created earlier.
pub claim-IsTaken :
    (db db' : Db) (now : ℕ) (locked : ℕ → Bool) (host_id : Option (List ℕ)) (worker : ℕ)
    (job : RepositoryJob)
    → claim now locked host_id worker db ≡ ok (some job) db'
    → IsTaken now locked worker job db db'
unfolding claim worker_host
claim-IsTaken db db' now locked none worker job h = absurd (ground arith)
claim-IsTaken db db' now locked (some host) worker job h = elim (Bool-cases (is_host_id host)) [
  | inr e ↦ (cc (sym (claim-no_host db now locked host worker e) ∙ h))
  | inl e ↦ elim (claim_cases db now locked host worker) [
    | inl (_, r) ↦ (cc (sym r ∙ sym (claim-host db now locked host worker e) ∙ h))
    | inr (id, job', n, d, r) ↦
        let q = sym r ∙ sym (claim-host db now locked host worker e) ∙ h in
        let same : job' ≡ job = cc q in
        let reached : world (take_job now host worker job' db) ≡ db' = cc q in
        subst (λ x. IsTaken now locked worker job db x) reached
          (subst (λ y. IsTaken now locked worker y db (world (take_job now host worker job' db)))
            same (take_job-IsTaken db now locked host worker id job' n d))
  ]
]

none_claimable :
    (db db' : Db) (now : ℕ) (locked : ℕ → Bool) (host_id : Option (List ℕ)) (worker id : ℕ)
    → claim now locked host_id worker db ≡ ok none db'
    → is_some (lookup id db.jobs) ≡ true
    → (is_claimable db now locked id ≡ false) × (db' ≡ db)
unfolding claim worker_host
none_claimable db db' now locked none worker id h m = absurd (ground arith)
none_claimable db db' now locked (some host) worker id h m = elim (Bool-cases (is_host_id host)) [
  | inr e ↦ (cc (sym (claim-no_host db now locked host worker e) ∙ h))
  | inl e ↦ elim (claim_cases db now locked host worker) [
    | inl (n, r) ↦ (
      unfold next_job in first_by-none _ _ db.jobs id n m,
      cc (sym r ∙ sym (claim-host db now locked host worker e) ∙ h),
    )
    | inr (i, job, n, d, r) ↦ (cc (sym r ∙ sym (claim-host db now locked host worker e) ∙ h))
  ]
]

-- A claim that returns no job changes nothing, and then every job is locked that is queued and due
-- while its task is queued and its repository belongs to the project of the task.
pub claim-none :
    (db db' : Db) (now : ℕ) (locked : ℕ → Bool) (host_id : Option (List ℕ)) (worker id org : ℕ)
    (j : Job) (t : Task) (r : Repository)
    → claim now locked host_id worker db ≡ ok none db'
    → lookup id db.jobs ≡ some j
    → j.status ≡ JobStatus.queued
    → j.available_at ≤ now
    → lookup id db.tasks ≡ some t
    → t.status ≡ TaskStatus.queued
    → lookup t.project_id db.projects ≡ some org
    → lookup j.repository_id db.repositories ≡ some r
    → r.project_id ≡ t.project_id
    → (locked id ≡ true) × (db' ≡ db)
unfolding is_claimable describe
claim-none db db' now locked host_id worker id org j t r h ej sj due et st eo er same =
    let (refused, kept) = none_claimable db db' now locked host_id worker id h (rw ej refl) in
    (ground (arith, refused), kept)

-- While a job runs no claim takes it, whoever asks.
pub claim-running_ne :
    (db db' : Db) (now : ℕ) (locked : ℕ → Bool) (host_id : Option (List ℕ)) (worker : ℕ)
    (job : RepositoryJob) (id : ℕ) (j : Job)
    → lookup id db.jobs ≡ some j
    → j.status ≡ JobStatus.running
    → claim now locked host_id worker db ≡ ok (some job) db'
    → job.task_id ≢ id
unfolding is_claimable
claim-running_ne db db' now locked host_id worker job id j e s h same =
    let taken = claim-IsTaken db db' now locked host_id worker job h in
    ground (arith, subst (λ x. is_claimable db now locked x ≡ true) same taken.claimable)

-- Two claims that both return a job, the second on the database that the first left, never return
-- the same one, whatever their times, hosts and workers.
pub claim_twice :
    (db mid last : Db) (now later : ℕ) (locked locked' : ℕ → Bool)
    (host_id host_id' : Option (List ℕ)) (worker worker' : ℕ) (job job' : RepositoryJob)
    → claim now locked host_id worker db ≡ ok (some job) mid
    → claim later locked' host_id' worker' mid ≡ ok (some job') last
    → job'.task_id ≢ job.task_id
claim_twice db mid last now later locked locked' host_id host_id' worker worker' job job' h h' =
    let taken = claim-IsTaken db mid now locked host_id worker job h in
    claim-running_ne mid last later locked' host_id' worker' job' job.task_id taken.row taken.found
      taken.running h'
