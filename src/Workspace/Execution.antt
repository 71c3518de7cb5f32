-- ===== src/Workspace/Execution.antt =====
-- The ports of the sessions behind an `executeCommand` that no other call overlaps, on every path.
use ryvix.Common.{
  ℕ, ◌≡◌, refl, subst, String, true, false, not, ◌&&◌, some, ◌==◌, ◌-◌, min, leb, if◌then◌else◌,
  arith, Bool-cases, Option-cases, inl, inr,
}
use ryvix.Common.Text.{Text, same_text}
use ryvix.Common.Effect.{
  Done, Done-cases, ok-value, ok, err, M, return, throw, ◌>>=◌, ◌>>◌, Leads, bind-Leads, then-Leads,
  catch-Leads, if-Leads,
}
use ryvix.Common.Table.{lookup}
use ryvix.Workspace.Model.{
  is_usable, provisioning, executing, Status, active, terminating, destroyed, is_destroyed,
  WorkspaceSession, exec, Reply, Config, World, Docker, has, with_manager, modify, run, finally,
}
use ryvix.Workspace.Lifetime.{terminate_session}
use ryvix.Workspace.Ports.{PortsHeld, PortsHeld-update}
use ryvix.Workspace.Creation.{finally-Leads}
use ryvix.Workspace.Effects.{Inv, run-On}
use ryvix.Workspace.Termination.{terminate_session-PortsHeld}
use ryvix.Workspace.Commands.{
  static_check, usable_session, CommandResult, command_result, occupy, release, answer_command,
  attempt_command, is_bad_command, execute_in, settle, execute_command,
}

pub is_destroyed-settle : (s : Status) → is_destroyed (settle s) ≡ is_destroyed s
is_destroyed-settle provisioning = refl
is_destroyed-settle active = refl
is_destroyed-settle executing = refl
is_destroyed-settle terminating = refl
is_destroyed-settle destroyed = refl

pub live_usable : (s : Status) → is_usable s ≡ true → is_destroyed s ≡ false
live_usable provisioning h = refl
live_usable active h = refl
live_usable executing h = refl
live_usable terminating h = refl
live_usable destroyed h = absurd (cc h)

-- The check of a session changes nothing, and a session that passes it is not destroyed.
pub usable_session-ok :
    (id now : ℕ) (w d : World) (s : WorkspaceSession)
    → usable_session id now w ≡ ok s d
    → (d ≡ w) × (lookup id w.manager.active_sessions ≡ some s) × (is_destroyed s.status ≡ false)
unfolding usable_session
usable_session-ok id now w d s h = elim (Option-cases (lookup id w.manager.active_sessions)) [
  | inl e ↦ absurd (cc (rw (e, usable_session) at h))
  | inr (r, e) ↦ elim (Bool-cases (not (is_usable r.status))) [
    | inl u ↦ absurd (cc (rw (e, u, usable_session) at h))
    | inr u ↦ elim (Bool-cases (leb r.expires_at now)) [
      | inl x ↦ absurd (cc (rw (e, u, x, usable_session) at h))
      | inr x ↦
          let g : ◌≡◌ {A = Done String World WorkspaceSession} (ok r w) (ok s d) =
            rw (e, u, x, usable_session) at h in
          let same : r ≡ s = ok-value g in
          let live = live_usable r.status (ground arith) in
          (cc g, cc, subst (λ (y : WorkspaceSession). is_destroyed y.status ≡ false) same live)
    ]
  ]
]

usable_session-err :
    (id now : ℕ) (w d : World) (x : String) → usable_session id now w ≡ err x d → d ≡ w
unfolding usable_session
usable_session-err id now w d x h = elim (Option-cases (lookup id w.manager.active_sessions)) [
  | inl e ↦ cc (rw (e, usable_session) at h)
  | inr (r, e) ↦ elim (Bool-cases (not (is_usable r.status))) [
    | inl u ↦ cc (rw (e, u, usable_session) at h)
    | inr u ↦ elim (Bool-cases (leb r.expires_at now)) [
      | inl y ↦ cc (rw (e, u, y, usable_session) at h)
      | inr y ↦ absurd (cc (rw (e, u, y, usable_session) at h))
    ]
  ]
]

module _ (docker : Docker) (id : ℕ) where
  -- Neither status of a command brings a destroyed session back.
  occupy-Inv :
      (w : World) (s : WorkspaceSession)
      → lookup id w.manager.active_sessions ≡ some s
      → is_destroyed s.status ≡ false
      → Inv w
      → Inv (with_manager (occupy id) w)
  occupy-Inv w s found live h =
      PortsHeld-update id (λ r. record r { status = executing }) w.manager.active_sessions
        w.manager.allocated_ports
        (λ p r k u.
          let same : s ≡ r = cc (rw (found) at k) in
          let alive : is_destroyed r.status ≡ false =
            subst (λ (x : WorkspaceSession). is_destroyed x.status ≡ false) same live in
          rw (alive) u)
        h

  release-Inv : (w : World) → Inv w → Inv (with_manager (release id) w)
  release-Inv w h =
      PortsHeld-update id (λ r. record r { status = settle r.status }) w.manager.active_sessions
        w.manager.allocated_ports (λ p r k u. rw (is_destroyed-settle r.status) at u) h

  answer_command-PortsHeld :
      (command : Text) (r : Reply) (w : World)
      → Inv w
      → Leads Inv Inv (answer_command docker id command r w)
  unfolding answer_command
  answer_command-PortsHeld command r w h =
      let stop : M String World Unit =
        if r.timed_out then terminate_session docker id else return tt in
      then-Leads Inv Inv Inv stop (return (command_result command r)) w
        (if-Leads Inv Inv r.timed_out (terminate_session docker id) (return tt) w
          (λ e. terminate_session-PortsHeld docker id w h) (λ e. h))
        (λ d k. k)

  attempt_command-PortsHeld :
      (command : Text) (timeout : ℕ) (w : World)
      → Inv w
      → Leads Inv Inv (attempt_command docker id command timeout w)
  unfolding attempt_command
  attempt_command-PortsHeld command timeout w h =
      let execute : M String World Reply = run docker (exec id command timeout) in
      let recover : String → M String World CommandResult =
        λ error. terminate_session docker id >> throw error in
      catch-Leads Inv Inv Inv (execute >>= answer_command docker id command) recover w
        (bind-Leads Inv Inv Inv execute (answer_command docker id command) w
          (run-On PortsHeld docker (exec id command timeout) w h)
          (λ r d k. answer_command-PortsHeld command r d k))
        (λ error d k.
          then-Leads Inv Inv Inv (terminate_session docker id) (throw error) d
            (terminate_session-PortsHeld docker id d k) (λ x y. y))

  execute_in-PortsHeld :
      (command : Text) (timeout now : ℕ) (s : WorkspaceSession) (w : World)
      → lookup id w.manager.active_sessions ≡ some s
      → is_destroyed s.status ≡ false
      → Inv w
      → Leads Inv Inv (execute_in docker id command timeout now s w)
  unfolding execute_in
  execute_in-PortsHeld command timeout now s w found live h =
      let limit = min timeout (min 900000 (s.expires_at - now)) in
      let body : M String World CommandResult =
        finally (attempt_command docker id command limit) (release id) in
      let start : M String World Unit = modify (occupy id) in
      let bad_timeout : M String World CommandResult = throw "Invalid command timeout" in
      let timed : M String World CommandResult =
        if timeout == 0 then bad_timeout else start >> body in
      let taken : M String World CommandResult = throw "Workspace already executing a command" in
      if-Leads Inv Inv (is_bad_command command) (throw "Invalid command")
        (if has id w.manager.busy then taken else timed) w (λ e. h)
        (λ e.
          if-Leads Inv Inv (has id w.manager.busy) taken timed w (λ e. h)
            (λ e.
              if-Leads Inv Inv (timeout == 0) bad_timeout (start >> body) w (λ e. h)
                (λ e. then-Leads Inv Inv Inv start body w (occupy-Inv w s found live h) (λ d k.
                  finally-Leads Inv Inv (attempt_command docker id command limit) (release id) d
                    release-Inv release-Inv (attempt_command-PortsHeld command limit d k)))))

  pub execute_command-PortsHeld :
      (config : Config) (command : Text) (timeout now : ℕ) (w : World)
      → Inv w
      → Leads Inv Inv (execute_command docker config id command timeout now w)
  unfolding execute_command
  execute_command-PortsHeld config command timeout now w h =
      let body : WorkspaceSession → M String World CommandResult =
        execute_in docker id command timeout now in
      if-Leads Inv Inv (config.static_mode && not (same_text command static_check))
        (throw "Repository commands are disabled in static mode") (usable_session id now >>= body) w
        (λ e. h)
        (λ e. elim (Done-cases (usable_session id now w)) [
          | inl (s, d, u) ↦
              let (same, found, live) = usable_session-ok id now w d s u in
              rw (u, ◌>>=◌, same) (execute_in-PortsHeld command timeout now s w found live h)
          | inr (x, d, u) ↦ rw (u, ◌>>=◌, Leads, usable_session-err id now w d x u) h
        ])
