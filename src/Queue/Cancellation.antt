-- ===== src/Queue/Cancellation.antt =====
-- What later calls can do to a cancelled task: changeTaskLifecycle of web/utils/task-lifecycle.ts, whose
-- comment states that in-flight workers cannot publish artifacts, against the calls of Queue/Run.
pub mod Writes
mod Requests
use ryvix.Common.{
  ℕ, ◌≡◌, ◌≢◌, ◌≤◌, subst, List, [], ◌∷◌, Option-cases, inl, inr, arith, true, if◌then◌else◌,
  is_some, some, none, take, refl,
}
use ryvix.Common.Effect.{world, ok, err}
use ryvix.Common.Table.{lookup, lookup-update, over}
use ryvix.Queue.Model.{Db, Task}
use ryvix.Queue.Finish.{expire_leases, expired_rows}
use ryvix.Queue.Lifecycle.{
  cancel, request, request_checked, request_row, apply_action, log, is_own, refusal,
}
use ryvix.Queue.Run.{
  Call, enqueues, claims, beats, reads_token, reports, opens, plans, defers, completes, fails,
  expires, requests, finishes, marks, step, run,
}
use Writes.{
  Stays, is_stopped, artifact_count, complete-Stays, plan-Stays, progress-Stays, defer_quota-Stays,
  claim-Stays, fail-Stays, fail_each-Stays,
}
use Requests.{
  enqueue-Stays, heartbeat-Stays, credentials-Stays, session-Stays, mark_destroyed-Stays,
  request-Stays, finish-Stays,
}

-- The call does not create a task under this identifier.
abbrev pub Avoids : ℕ → Call → Type 0
Avoids id (enqueues k repository organization member prompt) = k ≢ id
Avoids id _ = Unit

abbrev pub AllAvoid : ℕ → List (ℕ × Call) → Type 0
AllAvoid id [] = Unit
AllAvoid id ((now, c) ∷ cs) = Avoids id c × AllAvoid id cs

module _ (id n : ℕ) where
  step-Stays :
      (db : Db) (now : ℕ) (c : Call) → Avoids id c → Stays id n db → Stays id n (step db (now, c))
  unfolding step expire_leases
  step-Stays db now (enqueues k repository organization member prompt) a v =
      elim (Option-cases (lookup k db.tasks)) [
        | inl e ↦ rw e (enqueue-Stays id n db now k repository organization member prompt a v)
        | inr (t, e) ↦ rw e v
      ]
  step-Stays db now (claims locked host worker) a v = claim-Stays id n db now locked host worker v
  step-Stays db now (beats task worker) a v = heartbeat-Stays id n db now task worker v
  step-Stays db now (reads_token job worker) a v = credentials-Stays id n db now job worker v
  step-Stays db now (reports job worker event) a v = progress-Stays id n db now job worker event v
  step-Stays db now (opens job worker host k s) a v =
      session-Stays id n db now job worker host k s v
  step-Stays db now (plans job worker k summary steps) a v =
      plan-Stays id n db now job worker k summary steps v
  step-Stays db now (defers wall job worker retry_at) a v =
      defer_quota-Stays id n db now wall job worker retry_at v
  step-Stays db now (completes job worker result) a v =
      complete-Stays id n db now job worker result v
  step-Stays db now (fails task project worker expired_only details) a v =
      fail-Stays id n db now task project worker expired_only details v
  step-Stays db now expires a v =
      fail_each-Stays id n db now (take 100 (expired_rows db now db.jobs)) v
  step-Stays db now (requests action task member organization) a v =
      request-Stays id n db now action task member organization v
  step-Stays db now (finishes action project task member organization) a v =
      finish-Stays id n db action project task member organization v
  step-Stays db now (marks host k) a v = mark_destroyed-Stays id n db host k v

  run-Stays :
      (db : Db) (cs : List (ℕ × Call)) → AllAvoid id cs → Stays id n db → Stays id n (run db cs)
  unfolding run
  run-Stays db [] a v = v
  run-Stays db ((now, c) ∷ cs) (a, as') v =
      run-Stays (step db (now, c)) cs as' (step-Stays db now c a v)

cancel_row-Stays :
    (db : Db) (now id member project : ℕ)
    → Stays id
        (artifact_count id db.artifacts)
        (world (request_row now cancel id member project db))
unfolding request_row apply_action log
cancel_row-Stays db now id member project = record {
  stopped = rw (lookup-update id id _ db.tasks) (ground arith);
  artifacts_kept = omega arith;
}

-- A request that succeeds has gone through all its checks.
request-ok :
    (db db' : Db) (now id member organization : ℕ) (r : ℕ × List ℕ)
    → request now cancel id member organization db ≡ ok r db'
    → (project : ℕ) × (world (request_row now cancel id member project db) ≡ db')
unfolding request request_checked request_row
request-ok db db' now id member organization r h = elim (Option-cases (lookup id db.tasks)) [
  | inl e ↦ absurd (ground arith)
  | inr (t, e) ↦ (t.project_id, ground arith)
]

-- Once the creator's cancellation of a task has committed, no later history of calls (claims,
-- progress, plans, completions, deferrals or failures by any workers, other requests, the clock)
-- gives the task another status than cancelled while it exists, or raises the number of its
-- artifacts. The calls create no new task under its identifier.
pub cancellation_is_final :
    (db db' : Db) (now id member organization : ℕ) (r : ℕ × List ℕ) (cs : List (ℕ × Call))
    → request now cancel id member organization db ≡ ok r db'
    → AllAvoid id cs
    → (is_stopped (lookup id (run db' cs).tasks) ≡ true)
      × (artifact_count id (run db' cs).artifacts ≤ artifact_count id db.artifacts)
cancellation_is_final db db' now id member organization r cs h a =
    let n = artifact_count id db.artifacts in
    let (project, e) = request-ok db db' now id member organization r h in
    let start : Stays id n db' = subst (Stays id n) e (cancel_row-Stays db now id member project) in
    let last = run-Stays id n db' cs a start in (last.stopped, last.artifacts_kept)
