-- ===== src/Workspace/Commands.antt =====
-- Running a command in a workspace, and taking over a persisted one: executeCommand,
-- restoreSession, listSessions and getSession of
-- services/src/workspace/docker-workspace.manager.ts. Each of them runs here from its start to its
-- end; Workspace/Segments has the parts of executeCommand between two awaits.
use ryvix.Common.{
  ℕ, ◌-◌, min, String, Bool, false, not, ◌&&◌, ◌||◌, Option, none, some, List, [], ◌∷◌, ◌==◌, ltb,
  leb, if◌then◌else◌, length, str_eq, is_some, holds,
}
use ryvix.Common.Text.{Text, text, same_text, has_char}
use ryvix.Common.Effect.{ok, err, M, return, throw, ◌>>=◌, ◌>>◌, catch}
use ryvix.Common.Table.{Table, lookup, update, insert}
use ryvix.Workspace.Model.{
  Status, active, executing, is_executing, is_usable, WorkspaceSession, exec, inspect_container,
  inspect_relay, Container, Reply, Config, Manager, World, Docker, has, add, delete, modify, run,
  checked, finally,
}
use ryvix.Workspace.Lifetime.{set_status, terminate_session}

-- `session`: a session that can be used now.
unfoldable pub usable_session : ℕ → ℕ → M String World WorkspaceSession
unfolding lookup
usable_session id now w = elim (lookup id w.manager.active_sessions) [
  | none ↦ err "Workspace is not active" w
  | some s ↦
      if not (is_usable s.status)
      then err "Workspace is not active" w
      else if leb s.expires_at now
      then err "Workspace has expired" w
      else ok s w
]

pub record CommandResult : Type 0 where
  pub command : Text
  pub exit_code : ℕ
  pub stdout : Text
  pub stderr : Text
  pub success : Bool

abbrev pub static_check : Text
static_check = text "node /opt/ryvix/static-site.cjs check"

abbrev pub command_result : Text → Reply → CommandResult
command_result command r = record {
  command = command;
  exit_code = if r.timed_out then 124 else r.exit_code;
  stdout = r.stdout;
  stderr =
      if r.timed_out
      then text "Command exceeded time/output limit; workspace terminated"
      else r.stderr;
  success = r.exit_code == 0 && not r.timed_out;
}

-- `if (session.status === 'executing') session.status = 'active'`
abbrev pub settle : Status → Status
settle s = if is_executing s then active else s

abbrev pub release : ℕ → Manager → Manager
release id m = record m {
  busy = delete id m.busy;
  active_sessions = update id (λ s. record s { status = settle s.status }) m.active_sessions;
}

abbrev pub occupy : ℕ → Manager → Manager
occupy id m = record (set_status id executing m) { busy = add id m.busy }

-- What `executeCommand` does with Docker's answer.
unfoldable pub answer_command : Docker → ℕ → Text → Reply → M String World CommandResult
unfolding terminate_session
answer_command docker id command r =
    (if r.timed_out then terminate_session docker id else return tt)
    >> return (command_result command r)

-- The `try` and `catch` of `executeCommand`.
unfoldable pub attempt_command : Docker → ℕ → Text → ℕ → M String World CommandResult
unfolding run answer_command terminate_session
attempt_command docker id command timeout =
    catch (run docker (exec id command timeout) >>= answer_command docker id command)
      (λ error. terminate_session docker id >> throw error)

abbrev pub is_bad_command : Text → Bool
unfolding same_text
is_bad_command command = same_text command [] || ltb 8192 (length command) || has_char 0 command

-- `executeCommand` in a session that can be used.
unfoldable pub execute_in :
    Docker → ℕ → Text → ℕ → ℕ → WorkspaceSession → M String World CommandResult
unfolding attempt_command same_text
execute_in docker id command timeout now s w =
    (if is_bad_command command
        then throw "Invalid command"
        else if has id w.manager.busy
        then throw "Workspace already executing a command"
        else if timeout == 0
        then throw "Invalid command timeout"
        else modify (occupy id)
          >> finally
              (attempt_command docker id command (min timeout (min 900000 (s.expires_at - now))))
              (release id))
      w

-- `executeCommand`, with a timeout in milliseconds and the time at which it is called.
unfoldable pub execute_command : Docker → Config → ℕ → Text → ℕ → ℕ → M String World CommandResult
unfolding usable_session execute_in same_text
execute_command docker config id command timeout now =
    if config.static_mode && not (same_text command static_check)
    then throw "Repository commands are disabled in static mode"
    else usable_session id now >>= execute_in docker id command timeout now

-- A persisted row: `well_formed` says that its identifier and the container's name belong together
-- and that its expiry is a date.
pub record Persisted : Type 0 where
  pub id : ℕ
  pub session : WorkspaceSession
  pub well_formed : Bool

-- The labels and the state that a container of the session must have.
abbrev pub is_own_container : Persisted → Container → Bool
is_own_container p c =
    c.is_workspace
    && holds (λ i. i == p.id) c.session
    && c.task == p.session.task_id
    && c.project == p.session.project_id
    && c.is_running
    && c.is_plain_user

-- The binding of the preview's relay: one address on this host, with the session's port.
abbrev pub is_own_binding : Option ℕ → List (Bool × ℕ) → Bool
is_own_binding port ((is_local, bound) ∷ []) = is_local && holds (λ q. q == bound) port
is_own_binding port _ = false

abbrev pub is_own_relay : Persisted → Container → Bool
is_own_relay p c =
    holds (λ i. i == p.id) c.session
    && holds (str_eq "preview-relay") c.role
    && is_own_binding p.session.preview_port c.bindings

-- `JSON.parse(…)[0]` and a test of it
abbrev pub first_passes : (Container → Bool) → Reply → Bool
first_passes test r = elim r.containers [
  | none ↦ false
  | some cs ↦ elim cs [ [] ↦ false | ◌∷◌ c rest ↦ test c ]
]

abbrev pub adopt : Persisted → Manager → Manager
adopt p m = record m {
  active_sessions = insert p.id p.session m.active_sessions;
  allocated_ports = elim p.session.preview_port [
    | none ↦ m.allocated_ports
    | some q ↦ add q m.allocated_ports
  ];
  timers = p.id ∷ m.timers;
}

-- The check of the relay, where the session has a preview.
unfoldable pub restore_relay : Docker → Persisted → M String World Unit
unfolding checked
restore_relay docker p =
    if is_some p.session.preview_url
    then checked docker (inspect_relay p.id) >>= (λ (r : Reply).
      if not (first_passes (is_own_relay p) r)
      then throw "Preview relay identity mismatch"
      else modify (λ m. record m { relays = add p.id m.relays }))
    else return tt

-- `restoreSession` of a session that this worker does not hold.
unfoldable pub restore_missing : Docker → Persisted → M String World WorkspaceSession
unfolding checked restore_relay
restore_missing docker p =
    if not p.well_formed
    then throw "Invalid persisted workspace"
    else checked docker (inspect_container p.id) >>= (λ (r : Reply).
      if not (first_passes (is_own_container p) r)
      then throw "Workspace is not available on this worker"
      else restore_relay docker p >> modify (adopt p) >> return p.session)

-- `restoreSession`
unfoldable pub restore_session : Docker → Persisted → M String World WorkspaceSession
unfolding restore_missing lookup
restore_session docker p w = elim (lookup p.id w.manager.active_sessions) [
  | none ↦ restore_missing docker p w
  | some s ↦
      if not (s.task_id == p.session.task_id) || not (s.project_id == p.session.project_id)
      then err "Workspace identity mismatch" w
      else ok s w
]

-- `listSessions` and `getSession`
abbrev pub list_sessions : World → Table WorkspaceSession
list_sessions w = w.manager.active_sessions

unfoldable pub get_session : ℕ → World → Option WorkspaceSession
unfolding lookup
get_session id w = lookup id w.manager.active_sessions
