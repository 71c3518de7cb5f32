-- ===== src/Queue/Invariant/Steps.antt =====
-- The writes of a worker, and the expiry of leases, keep the invariant.
use ryvix.Common.{
  ℕ, ◌≡◌, String, Bool, true, Option, none, some, List, [], ◌∷◌, arith, inl, inr, ◌+◌, ltb, take,
  Bool-cases, Option-cases, holds,
}
use ryvix.Common.Effect.{world, ◌>>=◌, bind_keeps, if_keeps}
use ryvix.Common.Table.{lookup, over}
use ryvix.Queue.Text.{is_host_id}
use ryvix.Progress.{TaskProgress}
use ryvix.Queue.Model.{Db, Task, RepositoryJob, Session}
use ryvix.Queue.Base.{set_task, set_job, audit, is_held, holds_lease, worker_host}
use ryvix.Queue.Admission.{lease_ms}
use ryvix.Queue.Worker.{
  heartbeat, is_beating, progress, record_event, is_verification, advance, session, insert_session,
  plan, insert_plan,
}
use ryvix.Queue.Finish.{
  day_ms, deferred_task, deferred_job, defer_quota, defer_row, may_defer, complete, TaskResult,
  insert_artifact, update_session, fail, may_fail, fail_row, fail_checked, fail_each, expired_rows,
  expire_leases,
}
use ryvix.Queue.Invariant.Coherence.{
  Inv, row_fits, update_both-Coherent, update_task-Coherent, update_job-Coherent, transaction_keeps,
  locked_keeps, held_rows,
}

heartbeat_fits :
    (db : Db) (now task worker : ℕ)
    → holds (λ t. holds (is_beating now worker t) (lookup task db.jobs)) (lookup task db.tasks)
      ≡ true
    → row_fits (lookup task db.tasks) (lookup task db.jobs) ≡ true
    → row_fits
        (lookup task db.tasks)
        (over (λ j. record j { lease_expires_at = some (now + lease_ms) }) (lookup task db.jobs))
      ≡ true
unfolding is_beating
heartbeat_fits db now task worker h v = ground arith

pub heartbeat-Inv :
    (db : Db) (now task worker : ℕ) → Inv db → Inv (world (heartbeat now task worker db))
unfolding heartbeat set_job
heartbeat-Inv db now task worker v =
    if_keeps Inv
      (holds (λ t. holds (is_beating now worker t) (lookup task db.jobs)) (lookup task db.tasks)) _
      _
      (λ beats.
        update_job-Coherent v task _ (heartbeat_fits db now task worker beats (v.fits task)))
      (λ _. v)

pub progress-Inv :
    (db : Db) (now : ℕ) (job : RepositoryJob) (worker : ℕ) (event : TaskProgress)
    → Inv db
    → Inv (world (progress now job worker event db))
unfolding progress record_event advance is_held
progress-Inv db now job worker event v = locked_keeps Inv now job worker _ db v λ held.
    let (t, j, et, ej, h) = held_rows db now worker job.task_id held in
    if_keeps Inv (is_verification event.stage) _ _
      (λ _. update_task-Coherent v job.task_id _ (ground (arith, v.fits job.task_id))) (λ _. v)

pub plan-Inv :
    (db : Db) (now : ℕ) (job : RepositoryJob) (worker id : ℕ) (summary : String)
    (steps : List String)
    → Inv db
    → Inv (world (plan now job worker id summary steps db))
unfolding plan insert_plan set_task is_held
plan-Inv db now job worker id summary steps v = locked_keeps Inv now job worker _ db v λ held.
    let (t, j, et, ej, h) = held_rows db now worker job.task_id held in
    update_task-Coherent v job.task_id _ (ground (arith, v.fits job.task_id))

pub complete-Inv :
    (db : Db) (now : ℕ) (job : RepositoryJob) (worker : ℕ) (result : TaskResult)
    → Inv db
    → Inv (world (complete now job worker result db))
unfolding complete set_job set_task audit insert_artifact update_session is_held
complete-Inv db now job worker result v = locked_keeps Inv now job worker _ db v λ held.
    let (t, j, et, ej, h) = held_rows db now worker job.task_id held in
    update_both-Coherent v job.task_id _ _ (ground (arith, v.fits job.task_id))

pub session-Inv :
    (db : Db) (now : ℕ) (job : RepositoryJob) (worker : ℕ) (host_id : Option (List ℕ)) (id : ℕ)
    (s : Session)
    → Inv db
    → Inv (world (session now job worker host_id id s db))
unfolding session insert_session worker_host
session-Inv db now job worker none id s v = locked_keeps Inv now job worker _ db v λ _. v
session-Inv db now job worker (some host) id s v = locked_keeps Inv now job worker _ db v λ _.
    elim (Bool-cases (is_host_id host)) [
      | inl e ↦ rw (e, world, ◌>>=◌) v
      | inr e ↦ rw (e, world, ◌>>=◌) v
    ]

defer_row-Inv :
    (db : Db) (now wall retry_at : ℕ) (job : RepositoryJob) (worker : ℕ)
    → Inv db
    → holds_lease db now worker job.task_id ≡ true
    → Inv (world (defer_row wall retry_at job worker db))
unfolding defer_row may_defer is_held
defer_row-Inv db now wall retry_at job worker v held =
    let (t, j, et, ej, h) = held_rows db now worker job.task_id held in
    if_keeps Inv
      (holds (λ u. holds (may_defer worker u) (lookup job.task_id db.jobs))
        (lookup job.task_id db.tasks))
      _ _
      (λ fits.
        update_both-Coherent v job.task_id deferred_task (deferred_job wall retry_at)
          (ground (arith, v.fits job.task_id)))
      (λ _. v)

pub defer_quota-Inv :
    (db : Db) (now wall : ℕ) (job : RepositoryJob) (worker : ℕ) (retry_at : Option ℕ)
    → Inv db
    → Inv (world (defer_quota now wall job worker retry_at db))
unfolding defer_quota
defer_quota-Inv db now wall job worker none v = v
defer_quota-Inv db now wall job worker (some retry_at) v =
    if_keeps Inv (ltb (wall + day_ms) retry_at) _ _ (λ _. v)
      (λ _.
        locked_keeps Inv now job worker (defer_row wall retry_at job worker) db v
          (defer_row-Inv db now wall retry_at job worker v))

fail_row-Inv :
    (db : Db) (now task project worker : ℕ) (expired_only : Bool) (details : String) (t : Task)
    → Inv db
    → lookup task db.tasks ≡ some t
    → holds (may_fail now worker expired_only) (lookup task db.jobs) ≡ true
    → Inv (world (fail_row task project details t db))
unfolding fail_row may_fail
fail_row-Inv db now task project worker expired_only details t v e h =
    update_both-Coherent v task _ _ (ground (arith, v.fits task))

pub fail-Inv :
    (db : Db) (now task project worker : ℕ) (expired_only : Bool) (details : String)
    → Inv db
    → Inv (world (fail now task project worker expired_only details db))
unfolding fail fail_checked
fail-Inv db now task project worker expired_only details v =
    transaction_keeps Inv (fail_checked now task project worker expired_only details) db v
      (elim (Option-cases (lookup task db.tasks)) [
        | inl e ↦ rw (e, world) v
        | inr (t, e) ↦
            rw (e, world)
              (if_keeps Inv (holds (may_fail now worker expired_only) (lookup task db.jobs)) _ _
                (fail_row-Inv db now task project worker expired_only details t v e) (λ _. v))
      ])

fail_each-Inv :
    (db : Db) (now : ℕ) (rows : List (ℕ × Option ℕ × ℕ))
    → Inv db
    → Inv (world (fail_each now rows db))
unfolding fail_each
fail_each-Inv db now [] v = v
fail_each-Inv db now ((task, none, project) ∷ rows) v = fail_each-Inv db now rows v
fail_each-Inv db now ((task, some worker, project) ∷ rows) v =
    bind_keeps Inv (fail now task project worker true "") (λ _. fail_each now rows) db
      (fail-Inv db now task project worker true "" v) (λ _ d w. fail_each-Inv d now rows w)

pub expire_leases-Inv : (db : Db) (now : ℕ) → Inv db → Inv (world (expire_leases now db))
unfolding expire_leases
expire_leases-Inv db now v = fail_each-Inv db now (take 100 (expired_rows db now db.jobs)) v
