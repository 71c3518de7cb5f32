-- ===== src/Workspace/Overlaps.antt =====
-- The ports of the sessions while calls of the manager overlap
-- (services/src/workspace/docker-workspace.manager.ts, in the segments of Workspace/Segments).
mod Held
mod Tests
use ryvix.Common.{
  ℕ, ◌≡◌, ◌≤◌, refl, subst, Bool, true, false, not, ◌&&◌, none, some, List, [], ◌∷◌, ltb, holds,
  arith, inl, inr, Bool-cases, Option-cases,
}
use ryvix.Common.Table.{Table, lookup, update, count, count-update_le, count-update_out}
use ryvix.Workspace.Model.{
  executing, terminating, destroyed, is_destroyed, is_usable, WorkspaceSession, has, add, delete,
}
use ryvix.Workspace.Lifetime.{Options, search_port, new_session}
use ryvix.Workspace.Commands.{settle}
use ryvix.Workspace.Execution.{is_destroyed-settle, live_usable}
use ryvix.Workspace.Starts.{Reserved, reserve_free}
use ryvix.Workspace.Ports.{
  uses, has-delete, PortsHeld, PortsHeld-insert, PortsHeld-delete, PortsHeld-update,
  PortsHeld-destroyed,
}
use ryvix.Workspace.Segments.{
  Phase, idle, measuring, starting, Flight, Segment, enters, measures, places, abandons, occupies,
  releases, begins, ends, gives_up, leave, enter, reserve, reserve_at, resume, place, abandon,
  start_command, begin, end, step, interleave,
}
use Held.{Kept, Sound, Sound-update, mark-Sound, Kept-destroyed}

abbrev Inv : Flight → Type 0
Inv f = Sound f.phase f.manager.active_sessions f.manager.allocated_ports

-- A termination that comes to its end finds its session not destroyed yet.
abbrev pub Once : Flight → Segment → Type 0
Once f (ends id) =
    has id f.ending ≡ true
    → holds (λ (s : WorkspaceSession). not (is_destroyed s.status))
        (lookup id f.manager.active_sessions)
      ≡ true
Once f _ = Unit

abbrev pub AllOnce : Flight → List Segment → Type 0
AllOnce f [] = Unit
AllOnce f (s ∷ ss) = Once f s × AllOnce (step f s) ss

module _ (f : Flight) (h : Inv f) where
  reserve_at-Inv :
      (port : ℕ)
      → (ltb 3999 port ≡ false
          → Reserved port f.manager.active_sessions (add port f.manager.allocated_ports))
      → Inv (reserve_at port f)
  unfolding reserve_at leave
  reserve_at-Inv port free = elim (Bool-cases (ltb 3999 port)) [
    | inl e ↦ rw (e) (h.0, tt)
    | inr e ↦ let r = free e in rw (e) (r.0, (r.1, r.2))
  ]

  reserve-Inv : Inv (reserve f)
  unfolding reserve
  reserve-Inv =
      reserve_at-Inv (search_port f.manager.allocated_ports 900 3100)
        (reserve_free f.manager.active_sessions f.manager.allocated_ports h.0)

  begin-Inv : (id : ℕ) → Inv (begin id f)
  unfolding begin
  begin-Inv id = elim (Option-cases (lookup id f.manager.active_sessions)) [
    | inl e ↦ rw (e, begin) h
    | inr (s, e) ↦ elim (Bool-cases (is_destroyed s.status)) [
      | inl d ↦ rw (e, begin) (rw (d) h)
      | inr d ↦
          rw (e, begin)
            (rw (d) (
              mark-Sound f.phase id (λ r. record r { status = terminating }) s
                f.manager.active_sessions f.manager.allocated_ports e d (λ r. refl) h))
    ]
  ]

  end-Inv : (id : ℕ) → Once f (ends id) → Inv (end id f)
  unfolding end
  end-Inv id once = elim (Bool-cases (has id f.ending)) [
    | inr e ↦ rw (e) h
    | inl e ↦ elim (Option-cases (lookup id f.manager.active_sessions)) [
      | inl q ↦ rw (e) (rw (q) h)
      | inr (s, q) ↦
          let live : is_destroyed s.status ≡ false = ground (arith, once e) in
          let g : WorkspaceSession → WorkspaceSession =
            λ r. record r { status = destroyed; preview_url = none } in
          let ss = f.manager.active_sessions in
          let ps = f.manager.allocated_ports in
          rw (e) (
            rw (q) (
              PortsHeld-destroyed id g s ss ps (λ p r. refl) q live h.0,
              Kept-destroyed f.phase id g s ss ps (λ p r. refl) q live h.1,
            ))
    ]
  ]

  start_command-Inv : (id now : ℕ) → Inv (start_command id now f)
  unfolding start_command
  start_command-Inv id now = elim (Option-cases (lookup id f.manager.active_sessions)) [
    | inl e ↦ rw (e, start_command) h
    | inr (s, e) ↦
        elim (Bool-cases
          (is_usable s.status && ltb now s.expires_at && not (has id f.manager.busy))) [
            | inr u ↦ rw (e, start_command) (rw (u) h)
            | inl u ↦
                let live = live_usable s.status (ground arith) in
                rw (e, start_command)
                  (rw (u) (
                    mark-Sound f.phase id (λ r. record r { status = executing }) s
                      f.manager.active_sessions f.manager.allocated_ports e live (λ r. refl) h))
          ]
  ]

  enter-Inv : Inv (enter f)
  unfolding enter
  enter-Inv = elim (Bool-cases f.manager.allocating) [ inl e ↦ rw (e) h | inr e ↦ rw (e) (h.0, tt) ]

resume-Inv : (phase : Phase) (free : Bool) (f : Flight) → Inv f → Inv (resume phase free f)
unfolding resume leave
resume-Inv measuring true f h = reserve-Inv f h
resume-Inv measuring false f h = (h.0, tt)
resume-Inv idle free f h = h
resume-Inv (starting port) free f h = h

place-Inv :
    (phase : Phase) (id task project : ℕ) (options : Options) (now : ℕ) (f : Flight)
    → Kept phase f.manager.active_sessions f.manager.allocated_ports
    → Inv f
    → Inv (place phase id task project options now f)
unfolding place leave
place-Inv (starting port) id task project options now f k h = (
  PortsHeld-insert id port (new_session task project options now port) f.manager.active_sessions
      f.manager.allocated_ports refl k.0 k.1 h.0,
  tt,
)
place-Inv idle id task project options now f k h = h
place-Inv measuring id task project options now f k h = h

abandon-Inv :
    (phase : Phase) (f : Flight)
    → Kept phase f.manager.active_sessions f.manager.allocated_ports
    → Inv f
    → Inv (abandon phase f)
unfolding abandon leave
abandon-Inv (starting port) f k h =
    (PortsHeld-delete port f.manager.active_sessions f.manager.allocated_ports k.0 h.0, tt)
abandon-Inv idle f k h = h
abandon-Inv measuring f k h = h

step-Inv : (f : Flight) (s : Segment) → Once f s → Inv f → Inv (step f s)
unfolding step
step-Inv f enters o h = enter-Inv f h
step-Inv f (measures free) o h = resume-Inv f.phase free f h
step-Inv f (places id task project options now) o h =
    place-Inv f.phase id task project options now f h.1 h
step-Inv f abandons o h = abandon-Inv f.phase f h.1 h
step-Inv f (occupies id now) o h = start_command-Inv f h id now
step-Inv f (releases id) o h =
    Sound-update f.phase id (λ r. record r { status = settle r.status }) f.manager.active_sessions
      f.manager.allocated_ports (λ p r k u. rw (is_destroyed-settle r.status) at u) h
step-Inv f (begins id) o h = begin-Inv f h id
step-Inv f (ends id) o h = end-Inv f h id o
step-Inv f (gives_up id) o h = h

-- However the segments of creations, commands and terminations are interleaved, and whichever of
-- them fail: no two sessions that are not destroyed hold one port, and each of their ports is
-- allocated, if that was so at the start, where the port of a creation that is under way, if there
-- is one, was allocated and held by no session, and if no termination comes to its end on a session
-- that another termination has destroyed meanwhile.
pub interleave-PortsHeld :
    (f : Flight) (segments : List Segment)
    → PortsHeld f.manager.active_sessions f.manager.allocated_ports
    → Kept f.phase f.manager.active_sessions f.manager.allocated_ports
    → AllOnce f segments
    → PortsHeld
        (interleave f segments).manager.active_sessions
        (interleave f segments).manager.allocated_ports
unfolding interleave
interleave-PortsHeld f [] h k o = h
interleave-PortsHeld f (s ∷ ss) h k o =
    let next = step-Inv f s o.0 (h, k) in interleave-PortsHeld (step f s) ss next.0 next.1 o.1
