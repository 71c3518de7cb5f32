-- ===== src/Workspace/Starts.antt =====
-- What a `createSession` that no other call overlaps does to the sessions and the ports.
use ryvix.Common.{
  ℕ, ◌≡◌, refl, String, true, false, List, if◌then◌else◌, ltb, arith, ==_refl, Bool-cases, inl, inr,
  subst, ◌==◌,
}
use ryvix.Common.Effect.{err, Leads}
use ryvix.Common.Table.{Table, count}
use ryvix.Workspace.Model.{WorkspaceSession, Config, World, Docker, has, add, delete}
use ryvix.Workspace.Lifetime.{Options, search_port, create_session}
use ryvix.Workspace.Ports.{
  uses, has-add, has-delete, search_port-is_free, PortsHeld, PortsHeld-insert, PortsHeld-add,
  PortsHeld-delete,
}
use ryvix.Workspace.Effects.{Inv}
use ryvix.Workspace.Allocation.{State}
use ryvix.Workspace.Creation.{create_session-Leads}

-- A port that is allocated and that no session holds yet.
abbrev pub Reserved : ℕ → State
Reserved port sessions ports =
    PortsHeld sessions ports × (count (uses port) sessions ≡ 0) × (has port ports ≡ true)

pub reserve_free :
    (ss : Table WorkspaceSession) (ps : List ℕ)
    → PortsHeld ss ps
    → ltb 3999 (search_port ps 900 3100) ≡ false
    → Reserved (search_port ps 900 3100) ss (add (search_port ps 900 3100) ps)
reserve_free ss ps h e =
    let port = search_port ps 900 3100 in
    let free = search_port-is_free ps 900 3100 (omega arith) e in
    (
      PortsHeld-add port ss ps h,
      ground (arith, h port, free),
      rw (has-add port port ps, ==_refl port) refl,
    )

pub create_session-PortsHeld :
    (docker : Docker) (config : Config) (id : ℕ) (options : Options) (now : ℕ) (w : World)
    → Inv w
    → Leads Inv Inv (create_session docker config id options now w)
create_session-PortsHeld docker config id options now w h =
    create_session-Leads PortsHeld PortsHeld PortsHeld Reserved reserve_free
      (λ port ss ps k. PortsHeld-delete port ss ps k.1 k.0)
      (λ i port s ss ps own k. PortsHeld-insert i port s ss ps own k.1 k.2 k.0) (λ ss ps k. k)
      docker config id options now w h

-- The sessions and the allocated ports are those of the start.
module _ (ss0 : Table WorkspaceSession) (ps0 : List ℕ) where
  abbrev Same : State
  Same ss ps = (ss ≡ ss0) × ((p : ℕ) → has p ps ≡ has p ps0)

  abbrev Added : ℕ → State
  Added port ss ps =
      (ss ≡ ss0)
      × ((p : ℕ) → has p ps ≡ (if port == p then true else has p ps0))
      × (has port ps0 ≡ false)

  added :
      (ss : Table WorkspaceSession) (ps : List ℕ)
      → Same ss ps
      → ltb 3999 (search_port ps 900 3100) ≡ false
      → Added (search_port ps 900 3100) ss (add (search_port ps 900 3100) ps)
  added ss ps (same, ports) e =
      let port = search_port ps 900 3100 in
      let free = search_port-is_free ps 900 3100 (omega arith) e in
      (same, λ p. rw (has-add p port ps, ports p) refl, ground (arith, free, ports port))

  given_back :
      (port : ℕ) (ss : Table WorkspaceSession) (ps : List ℕ)
      → Added port ss ps
      → Same ss (delete port ps)
  given_back port ss ps (same, ports, free) = (
    same,
    λ p. elim (Bool-cases (port == p)) [
      | inl e ↦
          let eq : port ≡ p = ground arith in
          let gone : has p ps0 ≡ false = subst (λ x. has x ps0 ≡ false) eq free in
          ground (arith, has-delete p port ps, gone)
      | inr e ↦ ground (arith, has-delete p port ps, ports p)
    ],
  )

-- A creation that throws, for whatever reason and wherever it fails, leaves the sessions as they
-- were and allocates no port: the port that it took is given back.
pub create_session-err :
    (docker : Docker) (config : Config) (id : ℕ) (options : Options) (now : ℕ) (w w' : World)
    (error : String) (p : ℕ)
    → create_session docker config id options now w ≡ err error w'
    → (w'.manager.active_sessions ≡ w.manager.active_sessions)
      × (has p w'.manager.allocated_ports ≡ has p w.manager.allocated_ports)
create_session-err docker config id options now w w' error p h =
    let ss = w.manager.active_sessions in
    let ps = w.manager.allocated_ports in
    let leads =
      create_session-Leads (Same ss ps) (λ a b. Unit) (Same ss ps) (Added ss ps) (added ss ps)
        (given_back ss ps) (λ i port s a b own k. tt) (λ a b k. k) docker config id options now w
        (refl, λ q. refl) in
    let (same, ports) = rw (h, Leads) at leads in (same, ports p)
