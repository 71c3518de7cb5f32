-- ===== src/Queue/Invariant/Admission.antt =====
-- Admission and claiming keep the invariant.
use ryvix.Common.{
  ℕ, ◌≡◌, refl, String, Bool, true, Option, none, some, List, arith, inl, inr, any, leb, Bool-cases,
  Option-cases,
}
use ryvix.Common.Effect.{world, ◌>>=◌, if_keeps}
use ryvix.Common.Table.{lookup, first_by_passes}
use ryvix.Queue.Text.{is_host_id}
use ryvix.Queue.Model.{Db, Task, Job, RepositoryJob}
use ryvix.Queue.Base.{audit, worker_host}
use ryvix.Queue.Admission.{
  enqueue, enqueue_checked, enqueue_scope, enqueue_in, insert_task, describe, is_claimable,
  next_job, take_job, claim_with, claim, is_unexpired, queue_limit, active_count,
}
use ryvix.Queue.Invariant.Coherence.{
  Inv, update_both-Coherent, insert_both-Coherent, transaction_keeps,
}

pub describe_rows :
    (db : Db) (id : ℕ) (job : RepositoryJob)
    → describe db id ≡ some job
    → (t : Task) × (j : Job) × (lookup id db.tasks ≡ some t)
      × (lookup id db.jobs ≡ some j)
      × (job.task_id ≡ id)
      × (job.project_id ≡ t.project_id)
      × (job.created_by ≡ t.created_by)
unfolding describe
describe_rows db id job h = elim (Option-cases (lookup id db.jobs)) [
  | inl e ↦ absurd (ground arith)
  | inr (j, e) ↦ elim (Option-cases (lookup id db.tasks)) [
    | inl e' ↦ absurd (ground arith)
    | inr (t, e') ↦ (t, j, e', e, ground arith, ground arith, ground arith)
  ]
]

take_job-Inv :
    (db : Db) (now : ℕ) (locked : ℕ → Bool) (host : List ℕ) (worker id : ℕ) (job : RepositoryJob)
    → Inv db
    → is_claimable db now locked id ≡ true
    → describe db id ≡ some job
    → Inv (world (take_job now host worker job db))
unfolding take_job is_claimable
take_job-Inv db now locked host worker id job v c d =
    let (t, j, et, ej, same, _, _) = describe_rows db id job d in
    update_both-Coherent v job.task_id _ _ (ground (arith, v.fits id))

claim_with-Inv :
    (db : Db) (now : ℕ) (locked : ℕ → Bool) (host : List ℕ) (worker : ℕ)
    → Inv db
    → Inv (world (claim_with now locked host worker db))
unfolding claim_with next_job
claim_with-Inv db now locked host worker v = elim (Option-cases (next_job db now locked)) [
  | inl e ↦ rw (e, world) v
  | inr (id, e) ↦ elim (Option-cases (describe db id)) [
    | inl d ↦ rw (e, world) (rw (d, world) v)
    | inr (job, d) ↦
        rw (e, world)
          (rw (d, world)
            (take_job-Inv db now locked host worker id job v (first_by_passes _ _ db.jobs id e) d))
  ]
]

pub claim-Inv :
    (db : Db) (now : ℕ) (locked : ℕ → Bool) (host_id : Option (List ℕ)) (worker : ℕ)
    → Inv db
    → Inv (world (claim now locked host_id worker db))
unfolding claim worker_host
claim-Inv db now locked none worker v = v
claim-Inv db now locked (some host) worker v = elim (Bool-cases (is_host_id host)) [
  | inl e ↦
      rw (e, world, ◌>>=◌)
        (transaction_keeps Inv (claim_with now locked host worker) db v
          (claim_with-Inv db now locked host worker v))
  | inr e ↦ rw (e, world, ◌>>=◌) v
]

insert_task-Inv :
    (db : Db) (now id repository project member : ℕ) (prompt : String)
    → lookup id db.tasks ≡ none
    → Inv db
    → Inv (world (insert_task now id repository project member prompt db))
unfolding insert_task
insert_task-Inv db now id repository project member prompt fresh v =
    insert_both-Coherent v id _ _ fresh refl

pub enqueue-Inv :
    (db : Db) (now id repository organization member : ℕ) (prompt : String)
    → lookup id db.tasks ≡ none
    → Inv db
    → Inv (world (enqueue now id repository organization member prompt db))
unfolding enqueue enqueue_checked enqueue_in insert_task audit
enqueue-Inv db now id repository organization member prompt fresh v =
    transaction_keeps Inv (enqueue_checked now id repository organization member prompt) db v
      (elim (Option-cases (enqueue_scope db repository organization member)) [
        | inl e ↦ rw (e, world) v
        | inr (project, e) ↦
            rw (e, world)
              (if_keeps Inv (any (is_unexpired now) (db.credentials project)) _ _
                (λ _.
                  if_keeps Inv (leb queue_limit (active_count db project)) _ _ (λ _. v)
                    (λ _. insert_task-Inv db now id repository project member prompt fresh v))
                (λ _. v))
      ])
