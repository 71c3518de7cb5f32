-- ===== src/Queue/Cancellation/Requests.antt =====
-- The calls of web requests, and those that write no task, seen from a task that is gone or
-- cancelled.
use ryvix.Common.{
  ℕ, ◌≢◌, ◌≤◌, ◌==◌, String, Bool, not, Option, List, [], ◌∷◌, ◌&&◌, arith, keep, inl, inr, str_eq,
  Option-cases, holds, any, leb,
}
use ryvix.Common.Effect.{world, ◌>>=◌, ◌>>◌, bind_keeps, if_keeps}
use ryvix.Common.Table.{lookup, lookup-insert, lookup-remove}
use ryvix.Queue.Model.{Db, RepositoryJob, Session, Artifact}
use ryvix.Queue.Base.{worker_host, set_job}
use ryvix.Queue.Admission.{
  enqueue, enqueue_checked, enqueue_in, enqueue_scope, insert_task, is_unexpired, queue_limit,
  active_count,
}
use ryvix.Queue.Worker.{
  heartbeat, is_beating, credentials, read_secret, secret_of, first_unexpired, session,
  insert_session,
}
use ryvix.Queue.Lifecycle.{
  Action, cancel, delete, request, request_checked, request_row, apply_action, log, is_own, refusal,
  finish, finish_in, delete_task, cascade, may_delete, write_log, success_name,
}
use ryvix.Queue.Sessions.{mark_destroyed, mark_row, is_on_host, is_live}
use ryvix.Queue.Invariant.Coherence.{transaction_keeps, locked_keeps, worker_host_keeps}
use ryvix.Queue.Cancellation.Writes.{Stays, artifact_count, stopped-update}

-- Rows that are removed are not counted.
artifact_count-keep :
    (id : ℕ) (p : Artifact → Bool) (as' : List Artifact)
    → artifact_count id (keep p as') ≤ artifact_count id as'
artifact_count-keep id p [] = omega arith
artifact_count-keep id p (a ∷ as') = ground (arith, artifact_count-keep id p as')

module _ (id n : ℕ) where
  insert_task-Stays :
      (db : Db) (now k repository project member : ℕ) (prompt : String)
      → k ≢ id
      → Stays id n db
      → Stays id n (world (insert_task now k repository project member prompt db))
  unfolding insert_task
  insert_task-Stays db now k repository project member prompt other v = record {
    stopped = rw (lookup-insert k id _ db.tasks) (ground (arith, v.stopped));
    artifacts_kept = v.artifacts_kept;
  }

  pub enqueue-Stays :
      (db : Db) (now k repository organization member : ℕ) (prompt : String)
      → k ≢ id
      → Stays id n db
      → Stays id n (world (enqueue now k repository organization member prompt db))
  unfolding enqueue enqueue_checked enqueue_in insert_task
  enqueue-Stays db now k repository organization member prompt other v =
      let P = Stays id n in
      transaction_keeps P (enqueue_checked now k repository organization member prompt) db v
        (elim (Option-cases (enqueue_scope db repository organization member)) [
          | inl e ↦ rw (e, world) v
          | inr (project, e) ↦
              rw (e, world)
                (if_keeps P (any (is_unexpired now) (db.credentials project)) _ _
                  (λ _.
                    if_keeps P (leb queue_limit (active_count db project)) _ _ (λ _. v)
                      (λ _.
                        let w =
                          insert_task-Stays db now k repository project member prompt other v in
                        record { stopped = w.stopped; artifacts_kept = w.artifacts_kept }))
                  (λ _. v))
        ])

  pub heartbeat-Stays :
      (db : Db) (now task worker : ℕ)
      → Stays id n db
      → Stays id n (world (heartbeat now task worker db))
  unfolding heartbeat set_job
  heartbeat-Stays db now task worker v =
      if_keeps (Stays id n)
        (holds (λ t. holds (is_beating now worker t) (lookup task db.jobs)) (lookup task db.tasks))
        _ _ (λ _. record { stopped = v.stopped; artifacts_kept = v.artifacts_kept }) (λ _. v)

  pub credentials-Stays :
      (db : Db) (now : ℕ) (job : RepositoryJob) (worker : ℕ)
      → Stays id n db
      → Stays id n (world (credentials now job worker db))
  unfolding credentials read_secret
  credentials-Stays db now job worker v =
      locked_keeps (Stays id n) now job worker (read_secret now job) db v λ _.
        elim (Option-cases (secret_of (first_unexpired now (db.credentials job.project_id)))) [
          | inl e ↦ rw (e, world) v
          | inr (secret, e) ↦
              rw (e, world) (if_keeps (Stays id n) (str_eq secret "") _ _ (λ _. v) (λ _. v))
        ]

  pub session-Stays :
      (db : Db) (now : ℕ) (job : RepositoryJob) (worker : ℕ) (host : Option (List ℕ)) (k : ℕ)
      (s : Session)
      → Stays id n db
      → Stays id n (world (session now job worker host k s db))
  unfolding session insert_session
  session-Stays db now job worker host k s v = locked_keeps (Stays id n) now job worker _ db v λ _.
      bind_keeps (Stays id n) (worker_host host) _ db (worker_host_keeps (Stays id n) db host v)
        (λ h d w. record { stopped = w.stopped; artifacts_kept = w.artifacts_kept })

  mark_row-Stays :
      (db : Db) (host : List ℕ) (k : ℕ) → Stays id n db → Stays id n (world (mark_row host k db))
  unfolding mark_row
  mark_row-Stays db host k v = elim (Option-cases (lookup k db.sessions)) [
    | inl e ↦ rw (e, world) v
    | inr (s, e) ↦
        rw (e, world)
          (if_keeps (Stays id n) (is_on_host host s && is_live s.status) _ _
            (λ _. record { stopped = v.stopped; artifacts_kept = v.artifacts_kept }) (λ _. v))
  ]

  pub mark_destroyed-Stays :
      (db : Db) (host : Option (List ℕ)) (k : ℕ)
      → Stays id n db
      → Stays id n (world (mark_destroyed host k db))
  unfolding mark_destroyed
  mark_destroyed-Stays db host k v =
      transaction_keeps (Stays id n) (worker_host host >>= λ h. mark_row h k) db v (
        bind_keeps (Stays id n) (worker_host host) (λ h. mark_row h k) db
          (worker_host_keeps (Stays id n) db host v) (λ h d w. mark_row-Stays d h k w))

  request_row-Stays :
      (db : Db) (now : ℕ) (action : Action) (task member project : ℕ)
      → Stays id n db
      → Stays id n (world (request_row now action task member project db))
  unfolding request_row apply_action log
  request_row-Stays db now delete task member project v = record {
    stopped = v.stopped;
    artifacts_kept = v.artifacts_kept;
  }
  request_row-Stays db now cancel task member project v = record {
    stopped = stopped-update id n task _ db.tasks v.stopped (λ e. ground (arith, v.stopped));
    artifacts_kept = v.artifacts_kept;
  }

  pub request-Stays :
      (db : Db) (now : ℕ) (action : Action) (task member organization : ℕ)
      → Stays id n db
      → Stays id n (world (request now action task member organization db))
  unfolding request request_checked
  request-Stays db now action task member organization v =
      let P = Stays id n in
      transaction_keeps P (request_checked now action task member organization) db v
        (elim (Option-cases (lookup task db.tasks)) [
          | inl e ↦ rw (e, world) v
          | inr (t, e) ↦
              rw (e, world)
                (if_keeps P (is_own db member organization t) _ _
                  (λ _. elim (Option-cases (refusal action t.status)) [
                    | inl r ↦
                        rw (r, world) (request_row-Stays db now action task member t.project_id v)
                    | inr (x, r) ↦ rw (r, world) v
                  ])
                  (λ _. v))
        ])

  finish_in-Stays :
      (db : Db) (action : Action) (task member organization : ℕ)
      → Stays id n db
      → Stays id n (world (finish_in action task member organization db))
  unfolding finish_in delete_task cascade
  finish_in-Stays db cancel task member organization v = v
  finish_in-Stays db delete task member organization v =
      if_keeps (Stays id n) (may_delete db task member organization) _ _
        (λ _. record {
          stopped = rw (lookup-remove task id db.tasks) (ground (arith, v.stopped));
          artifacts_kept = omega (
            arith,
            artifact_count-keep id (λ a. not (a.task_id == task)) db.artifacts,
            v.artifacts_kept,
          );
        })
        (λ _. v)

  pub finish-Stays :
      (db : Db) (action : Action) (project task member organization : ℕ)
      → Stays id n db
      → Stays id n (world (finish action project task member organization db))
  unfolding finish write_log log
  finish-Stays db action project task member organization v =
      transaction_keeps (Stays id n)
        (finish_in action task member organization
          >> write_log project member task (success_name action))
        db v
        (bind_keeps (Stays id n) (finish_in action task member organization)
          (λ _. write_log project member task (success_name action)) db
          (finish_in-Stays db action task member organization v)
          (λ _ d w. record { stopped = w.stopped; artifacts_kept = w.artifacts_kept }))
