-- ===== src/Workspace/Effects.antt =====
-- What a call of Docker leaves as it is: the sessions and the ports.
use ryvix.Common.{ℕ, String, not, ◌&&◌, ◌||◌, List, ◌==◌, if◌then◌else◌, Option-cases, inl, inr}
use ryvix.Common.Text.{Text, text, includes}
use ryvix.Common.Effect.{return, throw, ◌>>◌, Leads, bind-Leads, then-Leads, catch-Leads, if-Leads}
use ryvix.Common.Table.{Table}
use ryvix.Workspace.Model.{
  WorkspaceSession, remove_egress, remove_relay, Call, Reply, World, Docker, has, delete, modify,
  run, checked, attempt,
}
use ryvix.Workspace.Lifetime.{remove_object, remove_egress_broker, remove_preview_relay}
use ryvix.Workspace.Ports.{PortsHeld}

-- A property of the sessions and the ports.
abbrev pub On : (Table WorkspaceSession → List ℕ → Type 0) → World → Type 0
On P w = P w.manager.active_sessions w.manager.allocated_ports

module _ (P : Table WorkspaceSession → List ℕ → Type 0) (docker : Docker) where
  pub run-On : (c : Call) (w : World) → On P w → Leads (On P) (On P) (run docker c w)
  unfolding run
  run-On c w h = elim (Option-cases (docker w.calls c)) [
    | inl e ↦ rw (e, Leads) h
    | inr (r, e) ↦ rw (e, Leads) h
  ]

  pub checked-On : (c : Call) (w : World) → On P w → Leads (On P) (On P) (checked docker c w)
  unfolding checked
  checked-On c w h =
      bind-Leads (On P) (On P) (On P) (run docker c)
        (λ (r : Reply).
          if not (r.exit_code == 0) || r.timed_out then throw "Docker failed" else return r)
        w (run-On c w h)
        (λ r d k.
          if-Leads (On P) (On P) (not (r.exit_code == 0) || r.timed_out) (throw "Docker failed")
            (return r) d (λ e. k) (λ e. k))

  -- An attempt never throws.
  pub attempt-On :
      (X : World → Type 0) (c : Call) (w : World)
      → On P w
      → Leads (On P) X (attempt (run docker c) w)
  attempt-On X c w h =
      catch-Leads (On P) (On P) X (run docker c >> return tt) (λ e. return tt) w
        (then-Leads (On P) (On P) (On P) (run docker c) (return tt) w (run-On c w h) (λ d k. k))
        (λ e d k. k)

  pub remove_object-On :
      (c : Call) (missing : Text) (error : String) (w : World)
      → On P w
      → Leads (On P) (On P) (remove_object docker c missing error w)
  unfolding remove_object
  remove_object-On c missing error w h =
      bind-Leads (On P) (On P) (On P) (run docker c)
        (λ (r : Reply).
          if not (r.exit_code == 0) && not (includes r.stderr missing)
          then throw error
          else return tt)
        w (run-On c w h)
        (λ r d k.
          if-Leads (On P) (On P) (not (r.exit_code == 0) && not (includes r.stderr missing))
            (throw error) (return tt) d (λ e. k) (λ e. k))

  pub remove_egress_broker-On :
      (id : ℕ) (w : World) → On P w → Leads (On P) (On P) (remove_egress_broker docker id w)
  unfolding remove_egress_broker
  remove_egress_broker-On id w h =
      let removal =
        remove_object docker (remove_egress id) (text "No such container")
          "Egress broker cleanup failed" in
      let forget = modify (λ m. record m { egress = delete id m.egress }) in
      if-Leads (On P) (On P) (has id w.manager.egress) (removal >> forget) (return tt) w
        (λ e.
          then-Leads (On P) (On P) (On P) removal forget w
            (remove_object-On (remove_egress id) (text "No such container")
              "Egress broker cleanup failed" w h)
            (λ d k. k))
        (λ e. h)

  pub remove_preview_relay-On :
      (id : ℕ) (w : World) → On P w → Leads (On P) (On P) (remove_preview_relay docker id w)
  unfolding remove_preview_relay
  remove_preview_relay-On id w h =
      let removal =
        remove_object docker (remove_relay id) (text "No such container")
          "Preview relay cleanup failed" in
      let forget = modify (λ m. record m { relays = delete id m.relays }) in
      if-Leads (On P) (On P) (has id w.manager.relays) (removal >> forget) (return tt) w
        (λ e.
          then-Leads (On P) (On P) (On P) removal forget w
            (remove_object-On (remove_relay id) (text "No such container")
              "Preview relay cleanup failed" w h)
            (λ d k. k))
        (λ e. h)

-- Every port is held once, and only if it is allocated.
abbrev pub Inv : World → Type 0
Inv = On PortsHeld
