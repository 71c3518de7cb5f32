-- ===== src/Queue/Sessions.antt =====
-- The sandboxes that a worker host owns: `previewSessions`, `cleanupSessions` and `markDestroyed` of
-- backend/src/services/repository-job-store.ts.
use ryvix.Common.{
  ℕ, Bool, true, false, ◌&&◌, ◌||◌, Option, none, some, List, [], ◌∷◌, leb, ltb, if◌then◌else◌,
  is_some, holds, take,
}
use ryvix.Common.Effect.{ok, ◌>>=◌}
use ryvix.Common.Text.{same_text}
use ryvix.Common.Table.{Table, lookup, update}
use ryvix.Queue.Model.{Db, TaskStatus, ActorType, AuditDetail, Session, SessionStatus}
use ryvix.Queue.Base.{Tx, transaction, worker_host}

abbrev pub is_on_host : List ℕ → Session → Bool
is_on_host host s = holds (same_text host) s.worker_host_id

abbrev pub is_live : SessionStatus → Bool
is_live SessionStatus.destroyed = false
is_live _ = true

abbrev is_active_session : SessionStatus → Bool
is_active_session SessionStatus.active = true
is_active_session _ = false

abbrev is_stopped : TaskStatus → Bool
is_stopped TaskStatus.failed = true
is_stopped TaskStatus.cancelled = true
is_stopped _ = false

unfoldable pub select_sessions : (Session → Bool) → Table Session → List (ℕ × Session)
select_sessions p [] = []
select_sessions p ((id, s) ∷ rows) =
    if p s then (id, s) ∷ select_sessions p rows else select_sessions p rows

unfoldable pub is_restorable : ℕ → List ℕ → Session → Bool
unfolding same_text
is_restorable now host s =
    is_on_host host s && is_active_session s.status && is_some s.preview_url && ltb now s.expires_at

unfoldable pub preview_sessions : ℕ → Option (List ℕ) → Tx (List (ℕ × Session))
unfolding worker_host select_sessions is_restorable
preview_sessions now host_id = do
  host ← worker_host host_id
  λ db. ok (take 1000 (select_sessions (is_restorable now host) db.sessions)) db

-- Expired, or of a task that failed or was cancelled.
unfoldable pub needs_cleanup : Db → ℕ → List ℕ → Session → Bool
unfolding same_text lookup
needs_cleanup db now host s = elim (lookup s.task_id db.tasks) [
  | none ↦ false
  | some t ↦ is_on_host host s && is_live s.status && (leb s.expires_at now || is_stopped t.status)
]

unfoldable pub cleanup_sessions : ℕ → Option (List ℕ) → Tx (List (ℕ × Session))
unfolding worker_host select_sessions needs_cleanup
cleanup_sessions now host_id = do
  host ← worker_host host_id
  λ db. ok (take 100 (select_sessions (needs_cleanup db now host) db.sessions)) db

-- Sets the status of the session, and logs that, if it is this host's and not yet destroyed.
unfoldable pub mark_row : List ℕ → ℕ → Tx (Unit {0})
unfolding same_text lookup update
mark_row host id db = elim (lookup id db.sessions) [
  | none ↦ ok tt db
  | some s ↦
      if is_on_host host s && is_live s.status
      then ok tt (record db {
        sessions =
            update id (λ r. record r { status = SessionStatus.destroyed; preview_url = none })
              db.sessions;
        audit_events =
            record {
              project_id = s.project_id;
              actor_id = none;
              actor_type = ActorType.system;
              action_name = "workspace.cleanup.success";
              subject = id;
              diff_summary = AuditDetail.about id;
              success = true;
            }
            ∷ db.audit_events;
      })
      else ok tt db
]

unfoldable pub mark_destroyed : Option (List ℕ) → ℕ → Tx (Unit {0})
unfolding worker_host transaction mark_row
mark_destroyed host_id id = transaction do host ← worker_host host_id; mark_row host id
