-- ===== src/Workspace/Overlaps/Held.antt =====
-- The port of a creation that is under way, while sessions change
-- (services/src/workspace/docker-workspace.manager.ts).
use ryvix.Common.{
  ℕ, ◌≡◌, ◌≤◌, refl, subst, true, false, none, some, List, holds, arith, inl, inr, Option-cases,
}
use ryvix.Common.Table.{Table, lookup, update, count, count-update_le, count-update_out}
use ryvix.Workspace.Model.{destroyed, is_destroyed, WorkspaceSession, has, delete}
use ryvix.Workspace.Ports.{uses, has-delete, PortsHeld, PortsHeld-update}
use ryvix.Workspace.Segments.{Phase, idle, measuring, starting}

-- The port of a creation that is under way is allocated, and no session holds it.
abbrev pub Kept : Phase → Table WorkspaceSession → List ℕ → Type 0
Kept idle ss ps = Unit
Kept measuring ss ps = Unit
Kept (starting port) ss ps = (count (uses port) ss ≡ 0) × (has port ps ≡ true)

abbrev pub Sound : Phase → Table WorkspaceSession → List ℕ → Type 0
Sound phase ss ps = PortsHeld ss ps × Kept phase ss ps

Kept-update :
    (phase : Phase) (id : ℕ) (g : WorkspaceSession → WorkspaceSession) (ss : Table WorkspaceSession)
    (ps : List ℕ)
    → ((p : ℕ) (r : WorkspaceSession)
        → lookup id ss ≡ some r
        → uses p id (g r) ≡ true
        → uses p id r ≡ true)
    → Kept phase ss ps
    → Kept phase (update id g ss) ps
Kept-update idle id g ss ps keeps h = tt
Kept-update measuring id g ss ps keeps h = tt
Kept-update (starting port) id g ss ps keeps h =
    let fewer = count-update_le (uses port) id g ss (keeps port) in (omega (arith, fewer, h.0), h.1)

pub Sound-update :
    (phase : Phase) (id : ℕ) (g : WorkspaceSession → WorkspaceSession) (ss : Table WorkspaceSession)
    (ps : List ℕ)
    → ((p : ℕ) (r : WorkspaceSession)
        → lookup id ss ≡ some r
        → uses p id (g r) ≡ true
        → uses p id r ≡ true)
    → Sound phase ss ps
    → Sound phase (update id g ss) ps
Sound-update phase id g ss ps keeps h =
    (PortsHeld-update id g ss ps keeps h.0, Kept-update phase id g ss ps keeps h.1)

-- A change of the status of a session that is not destroyed.
pub mark-Sound :
    (phase : Phase) (id : ℕ) (g : WorkspaceSession → WorkspaceSession) (s : WorkspaceSession)
    (ss : Table WorkspaceSession) (ps : List ℕ)
    → lookup id ss ≡ some s
    → is_destroyed s.status ≡ false
    → ((r : WorkspaceSession) → (g r).preview_port ≡ r.preview_port)
    → Sound phase ss ps
    → Sound phase (update id g ss) ps
mark-Sound phase id g s ss ps found live same h =
    Sound-update phase id g ss ps
      (λ p r k u.
        let one : s ≡ r = cc (rw (found) at k) in
        let alive : is_destroyed r.status ≡ false =
          subst (λ (x : WorkspaceSession). is_destroyed x.status ≡ false) one live in
        let port = same r in ground (arith, u, alive, port))
      h

-- A session that holds a port is counted.
holder_counts :
    (id p : ℕ) (s : WorkspaceSession) (ss : Table WorkspaceSession)
    → lookup id ss ≡ some s
    → is_destroyed s.status ≡ false
    → s.preview_port ≡ some p
    → 1 ≤ count (uses p) ss
holder_counts id p s ss found live own =
    let held : uses p id s ≡ true = rw (live, own, holds) (ground arith) in
    let out =
      count-update_out (uses p) id (λ r. record r { status = destroyed }) s ss found held refl in
    omega (arith, out)

pub Kept-destroyed :
    (phase : Phase) (id : ℕ) (g : WorkspaceSession → WorkspaceSession) (s : WorkspaceSession)
    (ss : Table WorkspaceSession) (ps : List ℕ)
    → ((p : ℕ) (r : WorkspaceSession) → uses p id (g r) ≡ false)
    → lookup id ss ≡ some s
    → is_destroyed s.status ≡ false
    → Kept phase ss ps
    → Kept phase (update id g ss) (elim s.preview_port [ none ↦ ps | some p ↦ delete p ps ])
Kept-destroyed idle id g s ss ps dead found live h = tt
Kept-destroyed measuring id g s ss ps dead found live h = tt
Kept-destroyed (starting port) id g s ss ps dead found live h =
    let fewer =
      count-update_le (uses port) id g ss (λ r k u. absurd (ground (arith, dead port r, u))) in
    elim (Option-cases s.preview_port) [
      | inl e ↦ (omega (arith, fewer, h.0), rw (e) h.1)
      | inr (p, e) ↦
          let counted = holder_counts id p s ss found live e in
          (
            omega (arith, fewer, h.0),
            rw (e) (ground (arith, has-delete port p ps, counted, h.0, h.1)),
          )
    ]
