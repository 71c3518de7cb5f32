-- ===== src/Queue/Deletion/Rows.antt =====
-- The rows of a task under the two transactions of its deletion (changeTaskLifecycle of
-- web/utils/task-lifecycle.ts).
use ryvix.Common.{
  ℕ, ◌≡◌, ◌≢◌, refl, not, ◌&&◌, some, List, [], ◌∷◌, ◌==◌, keep, min, arith, inl, inr, Bool-cases,
  false, none,
}
use ryvix.Common.Table.{Table, lookup}
use ryvix.Queue.Model.{Session, SessionStatus, Artifact}
use ryvix.Queue.Lifecycle.{is_destroyed, live_sessions, expire_sessions, without_sessions}
use ryvix.Queue.Cancellation.Writes.{artifact_count}

pub live_sessions-expire_sessions :
    (now task : ℕ) (rows : Table Session)
    → live_sessions task (expire_sessions now task rows) ≡ live_sessions task rows
unfolding live_sessions expire_sessions
live_sessions-expire_sessions now task [] = refl
live_sessions-expire_sessions now task ((k, s) ∷ rows) =
    elim (Bool-cases (s.task_id == task && not (is_destroyed s.status))) [
      | inl e ↦ rw (e) (rw (e) (rw (live_sessions-expire_sessions now task rows) refl))
      | inr e ↦ rw (e) (rw (e) (live_sessions-expire_sessions now task rows))
    ]

pub not_destroyed : (s : SessionStatus) → s ≢ SessionStatus.destroyed → is_destroyed s ≡ false
not_destroyed SessionStatus.provisioning h = refl
not_destroyed SessionStatus.active h = refl
not_destroyed SessionStatus.executing h = refl
not_destroyed SessionStatus.terminating h = refl
not_destroyed SessionStatus.destroyed h = absurd (h refl)

pub lookup-expire_sessions :
    (now task k : ℕ) (s : Session) (rows : Table Session)
    → lookup k rows ≡ some s
    → s.task_id ≡ task
    → is_destroyed s.status ≡ false
    → lookup k (expire_sessions now task rows)
      ≡ some (record s { expires_at = min s.expires_at now; preview_url = none })
unfolding lookup expire_sessions
lookup-expire_sessions now task k s [] h o l = absurd (cc h)
lookup-expire_sessions now task k s ((j, r) ∷ rows) h o l =
    elim (Bool-cases (r.task_id == task && not (is_destroyed r.status))) [
      | inl e ↦ rw (e) (ground (arith, lookup-expire_sessions now task k s rows))
      | inr e ↦ rw (e) (ground (arith, lookup-expire_sessions now task k s rows))
    ]

pub lookup-without_sessions :
    (task k : ℕ) (s : Session) (rows : Table Session)
    → lookup k (without_sessions task rows) ≡ some s
    → s.task_id ≢ task
unfolding lookup without_sessions
lookup-without_sessions task k s [] h = absurd (cc h)
lookup-without_sessions task k s ((j, r) ∷ rows) h =
    ground (arith, lookup-without_sessions task k s rows)

-- The sandboxes of other tasks go through both transactions as they are.
pub lookup-other_sessions :
    (now task k : ℕ) (s : Session) (rows : Table Session)
    → lookup k rows ≡ some s
    → s.task_id ≢ task
    → lookup k (without_sessions task (expire_sessions now task rows)) ≡ some s
unfolding lookup expire_sessions without_sessions
lookup-other_sessions now task k s [] h o = absurd (cc h)
lookup-other_sessions now task k s ((j, r) ∷ rows) h o =
    elim (Bool-cases (r.task_id == task && not (is_destroyed r.status))) [
      | inl e ↦ rw (e) (ground (arith, lookup-other_sessions now task k s rows))
      | inr e ↦ rw (e) (ground (arith, lookup-other_sessions now task k s rows))
    ]

pub keep-keep_other :
    (task k : ℕ) (as' : List Artifact)
    → task ≢ k
    → keep (λ a. a.task_id == k) (keep (λ a. not (a.task_id == task)) as')
      ≡ keep (λ a. a.task_id == k) as'
keep-keep_other task k [] ne = refl
keep-keep_other task k (a ∷ as') ne = ground (arith, keep-keep_other task k as')

pub artifact_count-keep_none :
    (task : ℕ) (as' : List Artifact)
    → artifact_count task (keep (λ a. not (a.task_id == task)) as') ≡ 0
artifact_count-keep_none task [] = refl
artifact_count-keep_none task (a ∷ as') = ground (arith, artifact_count-keep_none task as')
