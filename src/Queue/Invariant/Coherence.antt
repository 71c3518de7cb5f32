-- ===== src/Queue/Invariant/Coherence.antt =====
-- The invariant over the tables of tasks and jobs.
use ryvix.Common.{
  List, ℕ, ◌≡◌, refl, Bool, true, false, not, ◌&&◌, ◌||◌, Option, none, some, leb, is_some,
  if◌then◌else◌, arith, inl, inr, Option-cases,
}
use ryvix.Common.Effect.{M, Done, ok, err, world, ◌>>◌, if_keeps}
use ryvix.Common.Table.{
  Table, over, lookup, update, insert, remove, lookup-update, lookup-insert, lookup-remove,
}
use ryvix.Queue.Model.{
  Db, Task, Job, JobStatus, TaskStatus, RepositoryJob, is_working, is_running, is_queued,
}
use ryvix.Queue.Text.{is_host_id}
use ryvix.Queue.Base.{QueueError, Tx, settle, transaction, lock, is_held, holds_lease, worker_host}

abbrev pub is_paused : TaskStatus → Bool
is_paused TaskStatus.queued = true
is_paused _ = false

-- The statuses of a task beside that of its job. A completed job's task awaits approval and may be
-- shipped or cancelled later; a failed job's task may be cancelled later.
abbrev pub agrees : JobStatus → TaskStatus → Bool
agrees JobStatus.queued s = is_paused s
agrees JobStatus.running s = is_working s
agrees JobStatus.completed TaskStatus.awaiting_approval = true
agrees JobStatus.completed TaskStatus.completed = true
agrees JobStatus.completed TaskStatus.cancelled = true
agrees JobStatus.completed _ = false
agrees JobStatus.failed TaskStatus.failed = true
agrees JobStatus.failed TaskStatus.cancelled = true
agrees JobStatus.failed _ = false
agrees JobStatus.cancelled TaskStatus.cancelled = true
agrees JobStatus.cancelled _ = false

abbrev pub lease_fits : Job → Bool
lease_fits j =
    if is_running j.status
    then is_some j.lease_expires_at && is_some j.worker_id && is_some j.worker_host_id
    else not (is_some j.lease_expires_at) && (not (is_queued j.status) || not (is_some j.worker_id))

abbrev pub row_fits : Option Task → Option Job → Bool
row_fits t none = true
row_fits none (some j) = false
row_fits (some t) (some j) = agrees j.status t.status && lease_fits j && leb j.quota_retries 3

-- `Inv` reads the two tables only, so that a write elsewhere keeps it by computation.
pub record Coherent (tasks : Table Task) (jobs : Table Job) : Type 0 where
  pub fits : (id : ℕ) → row_fits (lookup id tasks) (lookup id jobs) ≡ true

abbrev pub Inv : Db → Type 0
Inv db = Coherent db.tasks db.jobs

module _ {tasks : Table Task} {jobs : Table Job} (v : Coherent tasks jobs) (k : ℕ) where
  pub update_both-Coherent :
      (f : Task → Task) (g : Job → Job)
      → row_fits (over f (lookup k tasks)) (over g (lookup k jobs)) ≡ true
      → Coherent (update k f tasks) (update k g jobs)
  update_both-Coherent f g h = record {
    fits = λ id.
        rw (lookup-update k id f tasks, lookup-update k id g jobs) (ground (arith, v.fits id));
  }

  pub update_task-Coherent :
      (f : Task → Task)
      → row_fits (over f (lookup k tasks)) (lookup k jobs) ≡ true
      → Coherent (update k f tasks) jobs
  update_task-Coherent f h = record {
    fits = λ id. rw (lookup-update k id f tasks) (ground (arith, v.fits id));
  }

  pub update_job-Coherent :
      (g : Job → Job)
      → row_fits (lookup k tasks) (over g (lookup k jobs)) ≡ true
      → Coherent tasks (update k g jobs)
  update_job-Coherent g h = record {
    fits = λ id. rw (lookup-update k id g jobs) (ground (arith, v.fits id));
  }

  pub insert_both-Coherent :
      (t : Task) (j : Job)
      → lookup k tasks ≡ none
      → row_fits (some t) (some j) ≡ true
      → Coherent (insert k t tasks) (insert k j jobs)
  insert_both-Coherent t j fresh h = record {
    fits = λ id.
        rw (lookup-insert k id t tasks, lookup-insert k id j jobs)
          (ground (arith, v.fits id, v.fits k));
  }

  pub remove_both-Coherent : Coherent (remove k tasks) (remove k jobs)
  remove_both-Coherent = record {
    fits = λ id. rw (lookup-remove k id tasks, lookup-remove k id jobs) (ground (arith, v.fits id));
  }

settle_keeps :
    {E A : Type 0} (P : Db → Type 0) (db : Db) (d : Done E Db A)
    → P db
    → P (world d)
    → P (world (settle db d))
settle_keeps P db (ok a db') before after = after
settle_keeps P db (err e db') before after = before

-- A property of the database that a transaction starts from and that its body keeps.
pub transaction_keeps :
    {E A : Type 0} (P : Db → Type 0) (f : M E Db A) (db : Db)
    → P db
    → P (world (f db))
    → P (world (transaction f db))
unfolding transaction
transaction_keeps P f db before after = settle_keeps P db (f db) before after

guard_keeps :
    {A : Type 0} (P : Db → Type 0) (f : Tx A) (db : Db) (held : Bool)
    → P db
    → (held ≡ true → P (world (f db)))
    → P (world (((λ d. if held then ok tt d else err QueueError.lease_lost d) >> f) db))
guard_keeps P f db true before after = after refl
guard_keeps P f db false before after = before

-- The same for a body under `lock`, which may use that the lease is held.
pub locked_keeps :
    {A : Type 0} (P : Db → Type 0) (now : ℕ) (job : RepositoryJob) (worker : ℕ) (f : Tx A) (db : Db)
    → P db
    → (holds_lease db now worker job.task_id ≡ true → P (world (f db)))
    → P (world (transaction (lock now job worker >> f) db))
unfolding lock
locked_keeps P now job worker f db before after =
    transaction_keeps P (lock now job worker >> f) db before
      (guard_keeps P f db (holds_lease db now worker job.task_id) before after)

-- The two rows behind a held lease.
pub held_rows :
    (db : Db) (now worker task : ℕ)
    → holds_lease db now worker task ≡ true
    → (t : Task) × (j : Job) × (lookup task db.tasks ≡ some t)
      × (lookup task db.jobs ≡ some j)
      × (is_held db now worker t j ≡ true)
unfolding holds_lease
held_rows db now worker task h = elim (Option-cases (lookup task db.tasks)) [
  | inl e ↦ absurd (ground arith)
  | inr (t, e) ↦ elim (Option-cases (lookup task db.jobs)) [
    | inl e' ↦ absurd (ground arith)
    | inr (j, e') ↦ (t, j, e, e', ground arith)
  ]
]

-- The check of the host's identifier reads nothing.
pub worker_host_keeps :
    (P : Db → Type 0) (db : Db) (host : Option (List ℕ)) → P db → P (world (worker_host host db))
unfolding worker_host
worker_host_keeps P db none v = v
worker_host_keeps P db (some host) v = if_keeps P (is_host_id host) _ _ (λ _. v) (λ _. v)
