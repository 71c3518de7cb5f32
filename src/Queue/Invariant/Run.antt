-- ===== src/Queue/Invariant/Run.antt =====
-- The invariant after any history of calls.
use ryvix.Common.{ℕ, List, [], ◌∷◌, Option, inl, inr, Option-cases, ◌&&◌, str_eq}
use ryvix.Common.Effect.{world, ◌>>=◌, bind_keeps, if_keeps}
use ryvix.Common.Table.{lookup}
use ryvix.Queue.Model.{Db, RepositoryJob}
use ryvix.Queue.Base.{worker_host}
use ryvix.Queue.Worker.{credentials, read_secret, first_unexpired, secret_of}
use ryvix.Queue.Sessions.{mark_destroyed, mark_row, is_on_host, is_live}
use ryvix.Queue.Run.{
  Call, enqueues, claims, beats, reads_token, reports, opens, plans, defers, completes, fails,
  expires, requests, finishes, marks, step, run,
}
use ryvix.Queue.Invariant.Coherence.{Inv, transaction_keeps, locked_keeps, worker_host_keeps}
use ryvix.Queue.Invariant.Admission.{enqueue-Inv, claim-Inv}
use ryvix.Queue.Invariant.Steps.{
  heartbeat-Inv, progress-Inv, session-Inv, plan-Inv, defer_quota-Inv, complete-Inv, fail-Inv,
  expire_leases-Inv,
}
use ryvix.Queue.Invariant.Lifecycle.{request-Inv, finish-Inv}

credentials-Inv :
    (db : Db) (now : ℕ) (job : RepositoryJob) (worker : ℕ)
    → Inv db
    → Inv (world (credentials now job worker db))
unfolding credentials read_secret
credentials-Inv db now job worker v =
    locked_keeps Inv now job worker (read_secret now job) db v λ _.
      elim (Option-cases (secret_of (first_unexpired now (db.credentials job.project_id)))) [
        | inl e ↦ rw (e, world) v
        | inr (secret, e) ↦ rw (e, world) (if_keeps Inv (str_eq secret "") _ _ (λ _. v) (λ _. v))
      ]

mark_row-Inv : (db : Db) (host : List ℕ) (id : ℕ) → Inv db → Inv (world (mark_row host id db))
unfolding mark_row
mark_row-Inv db host id v = elim (Option-cases (lookup id db.sessions)) [
  | inl e ↦ rw (e, world) v
  | inr (s, e) ↦
      rw (e, world) (if_keeps Inv (is_on_host host s && is_live s.status) _ _ (λ _. v) (λ _. v))
]

mark_destroyed-Inv :
    (db : Db) (host : Option (List ℕ)) (id : ℕ) → Inv db → Inv (world (mark_destroyed host id db))
unfolding mark_destroyed
mark_destroyed-Inv db host id v =
    transaction_keeps Inv (worker_host host >>= λ h. mark_row h id) db v (
      bind_keeps Inv (worker_host host) (λ h. mark_row h id) db (worker_host_keeps Inv db host v)
        (λ h d w. mark_row-Inv d h id w))

step-Inv : (db : Db) (c : ℕ × Call) → Inv db → Inv (step db c)
unfolding step
step-Inv db (now, enqueues id repository organization member prompt) v =
    elim (Option-cases (lookup id db.tasks)) [
      | inl e ↦ rw e (enqueue-Inv db now id repository organization member prompt e v)
      | inr (t, e) ↦ rw e v
    ]
step-Inv db (now, claims locked host worker) v = claim-Inv db now locked host worker v
step-Inv db (now, beats task worker) v = heartbeat-Inv db now task worker v
step-Inv db (now, reads_token job worker) v = credentials-Inv db now job worker v
step-Inv db (now, reports job worker event) v = progress-Inv db now job worker event v
step-Inv db (now, opens job worker host id s) v = session-Inv db now job worker host id s v
step-Inv db (now, plans job worker id summary steps) v =
    plan-Inv db now job worker id summary steps v
step-Inv db (now, defers wall job worker retry_at) v =
    defer_quota-Inv db now wall job worker retry_at v
step-Inv db (now, completes job worker result) v = complete-Inv db now job worker result v
step-Inv db (now, fails task project worker expired_only details) v =
    fail-Inv db now task project worker expired_only details v
step-Inv db (now, expires) v = expire_leases-Inv db now v
step-Inv db (now, requests action task member organization) v =
    request-Inv db now action task member organization v
step-Inv db (now, finishes action project task member organization) v =
    finish-Inv db action project task member organization v
step-Inv db (now, marks host id) v = mark_destroyed-Inv db host id v

-- From a database that meets the invariant every history of calls, at any times and by any
-- clients, leads to one that meets it: every job has its task, their statuses agree, exactly the
-- running jobs have a lease, each running job has a worker and a host and no queued job has a
-- worker, and no job was deferred more than three times.
pub run-Inv : (db : Db) (cs : List (ℕ × Call)) → Inv db → Inv (run db cs)
unfolding run
run-Inv db [] v = v
run-Inv db (c ∷ cs) v = run-Inv (step db c) cs (step-Inv db c v)
