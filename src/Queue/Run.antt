-- ===== src/Queue/Run.antt =====
-- Clients of the queue in any order: workers, web requests and the clock, one transaction at a time.
use ryvix.Common.{ℕ, String, Bool, Option, List, [], ◌∷◌, if◌then◌else◌, is_some}
use ryvix.Common.Effect.{world}
use ryvix.Common.Table.{lookup}
use ryvix.Progress.{TaskProgress}
use ryvix.Queue.Model.{Db, RepositoryJob, Session}
use ryvix.Queue.Admission.{enqueue, claim}
use ryvix.Queue.Worker.{heartbeat, credentials, progress, session, plan}
use ryvix.Queue.Finish.{TaskResult, defer_quota, complete, fail, expire_leases}
use ryvix.Queue.Lifecycle.{Action, request, finish}
use ryvix.Queue.Sessions.{mark_destroyed}

pub data Call : Type 0 where
  enqueues : (id repository organization member : ℕ) → String → Call
  claims : (locked : ℕ → Bool) → (host : Option (List ℕ)) → (worker : ℕ) → Call
  beats : (task worker : ℕ) → Call
  reads_token : RepositoryJob → (worker : ℕ) → Call
  reports : RepositoryJob → (worker : ℕ) → TaskProgress → Call
  opens : RepositoryJob → (worker : ℕ) → (host : Option (List ℕ)) → (id : ℕ) → Session → Call
  plans : RepositoryJob → (worker id : ℕ) → String → List String → Call
  defers : (wall : ℕ) → RepositoryJob → (worker : ℕ) → (retry_at : Option ℕ) → Call
  completes : RepositoryJob → (worker : ℕ) → TaskResult → Call
  fails : (task project worker : ℕ) → (expired_only : Bool) → String → Call
  expires : Call
  requests : Action → (task member organization : ℕ) → Call
  finishes : Action → (project task member organization : ℕ) → Call
  marks : (host : Option (List ℕ)) → (session : ℕ) → Call

-- The database after a call at time `now`. A generated task identifier is never one in use.
unfoldable pub step : Db → ℕ × Call → Db
unfolding lookup
step db (now, enqueues id repository organization member prompt) =
    if is_some (lookup id db.tasks)
    then db
    else world (enqueue now id repository organization member prompt db)
step db (now, claims locked host worker) = world (claim now locked host worker db)
step db (now, beats task worker) = world (heartbeat now task worker db)
step db (now, reads_token job worker) = world (credentials now job worker db)
step db (now, reports job worker event) = world (progress now job worker event db)
step db (now, opens job worker host id s) = world (session now job worker host id s db)
step db (now, plans job worker id summary steps) = world (plan now job worker id summary steps db)
step db (now, defers wall job worker retry_at) = world (defer_quota now wall job worker retry_at db)
step db (now, completes job worker result) = world (complete now job worker result db)
step db (now, fails task project worker expired_only details) =
    world (fail now task project worker expired_only details db)
step db (now, expires) = world (expire_leases now db)
step db (now, requests action task member organization) =
    world (request now action task member organization db)
step db (now, finishes action project task member organization) =
    world (finish action project task member organization db)
step db (now, marks host id) = world (mark_destroyed host id db)

unfoldable pub run : Db → List (ℕ × Call) → Db
unfolding step
run db [] = db
run db (c ∷ cs) = run (step db c) cs
