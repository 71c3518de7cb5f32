-- ===== src/Workspace/Termination.antt =====
-- The ports of the sessions behind a `terminateSession` that no other call overlaps, on every path.
use ryvix.Common.{
  ℕ, ◌≡◌, refl, subst, String, false, Option, none, some, List, Option-cases, inl, inr, ==_refl,
}
use ryvix.Common.Text.{text}
use ryvix.Common.Effect.{Done, M, return, ◌>>◌, Leads, then-Leads, if-Leads, Leads-map}
use ryvix.Common.Table.{Table, lookup, update, lookup-update}
use ryvix.Workspace.Model.{
  terminating, destroyed, is_destroyed, WorkspaceSession, remove_container, remove_network, World,
  Docker, delete, with_manager, modify,
}
use ryvix.Workspace.Lifetime.{
  set_status, remove_object, destroy, remove_egress_broker, remove_preview_relay, end_session,
  terminate_session,
}
use ryvix.Workspace.Ports.{PortsHeld, PortsHeld-update, PortsHeld-destroyed}
use ryvix.Workspace.Effects.{
  On, Inv, remove_object-On, remove_egress_broker-On, remove_preview_relay-On,
}

module _ (docker : Docker) (id : ℕ) where
  -- The session that is being terminated, behind the change of its status.
  abbrev Ending : Option ℕ → Table WorkspaceSession → List ℕ → Type 0
  Ending port sessions ports =
      PortsHeld sessions ports
      × (s : WorkspaceSession) × (lookup id sessions ≡ some s)
      × (is_destroyed s.status ≡ false)
      × (s.preview_port ≡ port)

  abbrev Kept : {A : Type 0} → Option ℕ → Done String World A → Type 0
  Kept port = Leads (On (Ending port)) Inv

  ending-Kept :
      {A : Type 0} (port : Option ℕ) (d : Done String World A)
      → Leads (On (Ending port)) (On (Ending port)) d
      → Kept port d
  ending-Kept port d h =
      Leads-map (On (Ending port)) (On (Ending port)) (On (Ending port)) Inv d (λ w k. k)
        (λ w k. k.0) h

  marked :
      (w : World) (s : WorkspaceSession)
      → lookup id w.manager.active_sessions ≡ some s
      → is_destroyed s.status ≡ false
      → Inv w
      → Ending s.preview_port
          (set_status id terminating w.manager).active_sessions
          w.manager.allocated_ports
  marked w s found live h =
      let sessions = w.manager.active_sessions in
      let f : WorkspaceSession → WorkspaceSession = λ r. record r { status = terminating } in
      let after : lookup id (update id f sessions) ≡ some (f s) =
        rw (lookup-update id id f sessions, ==_refl id, found) refl in
      (
        PortsHeld-update id f sessions w.manager.allocated_ports
            (λ p r k u.
              let same : s ≡ r = cc (rw (found) at k) in
              let alive : is_destroyed r.status ≡ false =
                subst (λ (x : WorkspaceSession). is_destroyed x.status ≡ false) same live in
              rw (alive) u)
            h,
        f s,
        after,
        refl,
        refl,
      )

  end_session-PortsHeld :
      (w : World) (s : WorkspaceSession)
      → lookup id w.manager.active_sessions ≡ some s
      → is_destroyed s.status ≡ false
      → Inv w
      → Leads Inv Inv (end_session docker id s.preview_port w)
  unfolding end_session
  end_session-PortsHeld w s found live h =
      let port : Option ℕ = s.preview_port in
      let T : World → Type 0 = On (Ending port) in
      let mark : M String World Unit =
        modify (λ m. record (set_status id terminating m) { timers = delete id m.timers }) in
      let egress : M String World Unit = remove_egress_broker docker id in
      let relay : M String World Unit = remove_preview_relay docker id in
      let container : M String World Unit =
        remove_object docker (remove_container id) (text "No such container")
          "Workspace container cleanup failed" in
      let network : M String World Unit =
        remove_object docker (remove_network id) (text "not found")
          "Workspace network cleanup failed" in
      let finish : M String World Unit = modify (destroy id port) in
      then-Leads T Inv Inv (mark >> egress >> relay >> container >> network) finish w
        (then-Leads T T Inv (mark >> egress >> relay >> container) network w
          (then-Leads T T Inv (mark >> egress >> relay) container w
            (then-Leads T T Inv (mark >> egress) relay w
              (then-Leads T T Inv mark egress w (marked w s found live h) (λ d k.
                ending-Kept port (egress d) (remove_egress_broker-On (Ending port) docker id d k)))
              (λ d k.
                ending-Kept port (relay d) (remove_preview_relay-On (Ending port) docker id d k)))
            (λ d k. ending-Kept port (container d) (
              remove_object-On (Ending port) docker (remove_container id) (text "No such container")
                "Workspace container cleanup failed" d k)))
          (λ d k. ending-Kept port (network d) (
            remove_object-On (Ending port) docker (remove_network id) (text "not found")
              "Workspace network cleanup failed" d k)))
        (λ d k. ended d k)
    where
      ended :
          (d : World)
          → On (Ending s.preview_port) d
          → Inv (with_manager (destroy id s.preview_port) d)
      ended d (held, t, at, alive, own) =
          let f : WorkspaceSession → WorkspaceSession =
            λ r. record r { status = destroyed; preview_url = none } in
          let sessions = d.manager.active_sessions in
          let ports = d.manager.allocated_ports in
          subst
            (λ (q : Option ℕ).
              PortsHeld (update id f sessions) (elim q [ none ↦ ports | some p ↦ delete p ports ]))
            own (PortsHeld-destroyed id f t sessions ports (λ p r. refl) at alive held)

  pub terminate_session-PortsHeld :
      (w : World) → Inv w → Leads Inv Inv (terminate_session docker id w)
  unfolding terminate_session
  terminate_session-PortsHeld w h = elim (Option-cases (lookup id w.manager.active_sessions)) [
    | inl e ↦ rw (e, Leads) h
    | inr (s, e) ↦
        rw (e, Leads)
          (if-Leads Inv Inv (is_destroyed s.status) (return tt)
            (end_session docker id s.preview_port) w (λ k. h)
            (λ k. end_session-PortsHeld w s e k h))
  ]
