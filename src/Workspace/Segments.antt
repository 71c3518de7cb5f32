-- ===== src/Workspace/Segments.antt =====
-- The manager of services/src/workspace/docker-workspace.manager.ts while several calls are under
-- way: what createSession, allocate, executeCommand and terminateSession do to the sessions and the
-- ports between two awaits. A segment runs without interruption, and segments of different calls
-- follow each other in any order. The steps behind an await that touch neither sessions nor ports
-- (side containers, files) are left out.
use ryvix.Common.{
  ℕ, Bool, true, false, not, ◌&&◌, none, some, List, [], ◌∷◌, ◌==◌, ltb, if◌then◌else◌,
}
use ryvix.Common.Table.{lookup, update}
use ryvix.Workspace.Model.{terminating, is_destroyed, is_usable, Manager, has, add, delete}
use ryvix.Workspace.Lifetime.{
  Options, search_port, new_session, register, set_allocating, set_status, destroy,
}
use ryvix.Workspace.Commands.{occupy, release}

-- Where the one creation stands that `allocating` lets in.
pub data Phase : Type 0 where
  idle measuring : Phase
  starting : (port : ℕ) → Phase

-- The manager with the creation and the terminations that are under way.
pub record Flight : Type 0 where
  pub manager : Manager
  pub phase : Phase
  pub ending : List ℕ

pub data Segment : Type 0 where
  enters : Segment
  measures : (free : Bool) → Segment
  places : (id task project : ℕ) → Options → (now : ℕ) → Segment
  abandons : Segment
  occupies : (id now : ℕ) → Segment
  releases begins ends gives_up : (id : ℕ) → Segment

-- `finally { this.allocating = false; }`
unfoldable pub leave : Flight → Flight
leave f = record f { manager = set_allocating false f.manager; phase = idle }

-- `createSession` from its test of `allocating` up to the measurement of the host.
unfoldable pub enter : Flight → Flight
enter f =
    if f.manager.allocating
    then f
    else record f { manager = set_allocating true f.manager; phase = measuring }

-- `allocate` at the port that its loop has found, up to its first call of Docker.
unfoldable pub reserve_at : ℕ → Flight → Flight
unfolding leave
reserve_at port f = if ltb 3999 port then leave f else record f {
  manager = record f.manager { allocated_ports = add port f.manager.allocated_ports };
  phase = starting port;
}

unfoldable pub reserve : Flight → Flight
unfolding reserve_at
reserve f = reserve_at (search_port f.manager.allocated_ports 900 3100) f

-- The measurement of the host is there; it may have thrown, like one without room.
unfoldable pub resume : Phase → Bool → Flight → Flight
unfolding reserve leave
resume measuring true f = reserve f
resume measuring false f = leave f
resume idle free f = f
resume (starting port) free f = f

-- The container of a creation has started.
unfoldable pub place : Phase → ℕ → ℕ → ℕ → Options → ℕ → Flight → Flight
unfolding leave
place (starting port) id task project options now f =
    leave (record f { manager = register id (new_session task project options now port) f.manager })
place idle id task project options now f = f
place measuring id task project options now f = f

-- The `catch` of `allocate`, behind its calls of Docker.
unfoldable pub abandon : Phase → Flight → Flight
unfolding leave
abandon (starting port) f = leave (record f {
  manager = record f.manager { allocated_ports = delete port f.manager.allocated_ports };
})
abandon idle f = f
abandon measuring f = f

-- `executeCommand` behind its checks of the arguments, up to its call of Docker.
unfoldable pub start_command : ℕ → ℕ → Flight → Flight
unfolding lookup update
start_command id now f = elim (lookup id f.manager.active_sessions) [
  | none ↦ f
  | some s ↦
      if is_usable s.status && ltb now s.expires_at && not (has id f.manager.busy)
      then record f { manager = occupy id f.manager }
      else f
]

-- `terminateSession` up to its first await.
unfoldable pub begin : ℕ → Flight → Flight
unfolding lookup update
begin id f = elim (lookup id f.manager.active_sessions) [
  | none ↦ f
  | some s ↦ if is_destroyed s.status then f else record f {
    manager = record (set_status id terminating f.manager) { timers = delete id f.manager.timers };
    ending = id ∷ f.ending;
  }
]

-- One of the terminations of a session is no longer under way.
unfoldable pub without_one : ℕ → List ℕ → List ℕ
without_one id [] = []
without_one id (k ∷ ks) = if k == id then ks else k ∷ without_one id ks

-- `terminateSession` behind its last call of Docker.
unfoldable pub end : ℕ → Flight → Flight
unfolding lookup update without_one
end id f =
    if has id f.ending
    then elim (lookup id f.manager.active_sessions) [
      | none ↦ f
      | some s ↦ record f {
        manager = destroy id s.preview_port f.manager;
        ending = without_one id f.ending;
      }
    ]
    else f

unfoldable pub step : Flight → Segment → Flight
unfolding enter resume place abandon start_command begin end without_one update
step f enters = enter f
step f (measures free) = resume f.phase free f
step f (places id task project options now) = place f.phase id task project options now f
step f abandons = abandon f.phase f
step f (occupies id now) = start_command id now f
step f (releases id) = record f { manager = release id f.manager }
step f (begins id) = begin id f
step f (ends id) = end id f
step f (gives_up id) = record f { ending = without_one id f.ending }

unfoldable pub interleave : Flight → List Segment → Flight
unfolding step
interleave f [] = f
interleave f (s ∷ ss) = interleave (step f s) ss
