-- ===== src/Queue/Results.antt =====
-- What a successful `enqueue` of backend/src/services/repository-job-store.ts establishes.
use ryvix.Common.{
  ℕ, suc, ◌≡◌, ◌≤◌, String, true, none, some, arith, inl, inr, Option-cases, is_some, any,
}
use ryvix.Common.Effect.{Done, ok, err}
use ryvix.Common.Table.{Table, lookup, insert, count, lookup-insert, count-insert, count_mono}
use ryvix.Queue.Model.{Db, Task, Job, may_operate}
use ryvix.Queue.Base.{transaction, settle, audit}
use ryvix.Queue.Admission.{
  enqueue, enqueue_checked, enqueue_in, enqueue_scope, insert_task, new_task, new_job, is_unexpired,
  active_count, in_project, queue_limit,
}
use ryvix.Queue.Invariant.Coherence.{Inv, Coherent}

pub settle-ok :
    {E A : Type 0} (db db' : Db) (d : Done E Db A) (a : A) → settle db d ≡ ok a db' → d ≡ ok a db'
settle-ok db db' (ok b w) a h = h
settle-ok db db' (err e w) a h = cc

project-insert :
    (tasks : Table Task) (id project k : ℕ) (t : Task) (r : Job)
    → is_some (lookup k tasks) ≡ true
    → in_project (insert id t tasks) project k r ≡ true
    → in_project tasks project k r ≡ true
project-insert tasks id project k t r v = rw (lookup-insert id k t tasks) (λ h. ground arith)

-- With the new rows a project has at most one active job more.
count_admitted :
    (tasks : Table Task) (jobs : Table Job) (id project : ℕ) (t : Task) (j : Job)
    → Coherent tasks jobs
    → count (in_project (insert id t tasks) project) (insert id j jobs)
      ≤ suc (count (in_project tasks project) jobs)
count_admitted tasks jobs id project t j v = ground (
  arith,
  count-insert (in_project (insert id t tasks) project) id j jobs,
  count_mono (in_project (insert id t tasks) project) (in_project tasks project) jobs
      (λ k r m h. project-insert tasks id project k t r (ground (arith, v.fits k)) h),
)

-- What an admission has checked and written.
pub record IsAdmitted (now id repository member : ℕ) (prompt : String) (db db' : Db) : Type 0 where
  pub project : ℕ
  pub allowed : may_operate db project member ≡ true
  pub connected : any (is_unexpired now) (db.credentials project) ≡ true
  pub bounded : active_count db' project ≤ queue_limit
  pub task : lookup id db'.tasks ≡ some (new_task project member prompt)
  pub job : lookup id db'.jobs ≡ some (new_job now repository)

scope-may_operate :
    (db : Db) (repository organization member project : ℕ)
    → enqueue_scope db repository organization member ≡ some project
    → may_operate db project member ≡ true
unfolding enqueue_scope
scope-may_operate db repository organization member project h = ground arith

enqueue_in-IsAdmitted :
    (db db' : Db) (now id repository member project r : ℕ) (prompt : String)
    → Inv db
    → lookup id db.tasks ≡ none
    → may_operate db project member ≡ true
    → enqueue_in now id repository member prompt project db ≡ ok r db'
    → IsAdmitted now id repository member prompt db db'
unfolding enqueue_in active_count insert_task audit
enqueue_in-IsAdmitted db db' now id repository member project r prompt v fresh allowed h =
    let t = new_task project member prompt in
    let j = new_job now repository in
    record {
      project = project;
      allowed = allowed;
      connected = ground arith;
      bounded = ground (arith, count_admitted db.tasks db.jobs id project t j v);
      task = ground (arith, lookup-insert id id t db.tasks);
      job = ground (arith, lookup-insert id id j db.jobs, v.fits id);
    }

-- Admission of a prompt that succeeds: the user may operate the project, which has a live GitHub
-- connection; the task and its job are queued under the new identifier, and the project has ten
-- active jobs at most afterwards.
pub enqueue-IsAdmitted :
    (db db' : Db) (now id repository organization member r : ℕ) (prompt : String)
    → Inv db
    → lookup id db.tasks ≡ none
    → enqueue now id repository organization member prompt db ≡ ok r db'
    → IsAdmitted now id repository member prompt db db'
unfolding enqueue enqueue_checked transaction
enqueue-IsAdmitted db db' now id repository organization member r prompt v fresh h =
    elim (Option-cases (enqueue_scope db repository organization member)) [
      | inl e ↦ absurd (ground arith)
      | inr (project, e) ↦
          enqueue_in-IsAdmitted db db' now id repository member project r prompt v fresh
            (scope-may_operate db repository organization member project e)
            (settle-ok db db' (enqueue_in now id repository member prompt project db) r
              (rw (e, settle) at h))
    ]
