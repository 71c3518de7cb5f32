-- ===== src/Workspace/Model.antt =====
-- The state of the workspace manager (class DockerWorkspaceManager in
-- services/src/workspace/docker-workspace.manager.ts) and its calls of Docker. What Docker answers
-- to a call is a parameter, which may depend on all calls before it; the state keeps their order.
-- A container, its network and its side containers are named after the session, so a call names
-- the session. CPU is in hundredths of a core.
use ryvix.Common.{
  ℕ, String, Bool, true, false, not, ◌||◌, Option, none, some, List, [], ◌∷◌, ◌++◌, ◌==◌,
  if◌then◌else◌, any, keep,
}
use ryvix.Common.Text.{Text}
use ryvix.Common.Effect.{ok, err, M, return, throw, ◌>>=◌, ◌>>◌, catch}
use ryvix.Common.Table.{Table}

pub data Status : Type 0 where
  provisioning active executing terminating destroyed : Status

abbrev pub is_destroyed : Status → Bool
is_destroyed destroyed = true
is_destroyed _ = false

abbrev pub is_executing : Status → Bool
is_executing executing = true
is_executing _ = false

-- `['active', 'executing'].includes(status)`
abbrev pub is_usable : Status → Bool
is_usable active = true
is_usable executing = true
is_usable _ = false

pub record WorkspaceSession : Type 0 where
  pub task_id : ℕ
  pub project_id : ℕ
  pub profile_id : Option ℕ
  pub status : Status
  pub preview_url : Option String
  pub preview_port : Option ℕ
  pub allocated_cpu : ℕ
  pub allocated_ram_mb : ℕ
  pub created_at : ℕ
  pub expires_at : ℕ

pub data Call : Type 0 where
  list_containers : Call
  inspect_all : Call
  create_network : (id : ℕ) → Call
  run_container : (id cpu ram seconds : ℕ) → Call
  exec : (id : ℕ) → Text → (timeout : ℕ) → Call
  inspect_container : (id : ℕ) → Call
  inspect_relay : (id : ℕ) → Call
  write_file : (id : ℕ) (target content : Text) → Call
  delete_file_at read_file_at : (id : ℕ) (target : Text) → Call
  commit_snapshot : (id : ℕ) → Call
  remove_egress remove_relay remove_container remove_network : (id : ℕ) → Call

-- What `inspect` says of a container, as far as the code reads it. Memory is in mebibytes.
pub record Container : Type 0 where
  pub is_workspace : Bool
  pub session : Option ℕ
  pub task : ℕ
  pub project : ℕ
  pub role : Option String
  pub is_running : Bool
  pub is_plain_user : Bool
  pub cpu : ℕ
  pub memory : ℕ
  -- the bindings of port 3000: whether the address is 127.0.0.1, and the host's port
  pub bindings : List (Bool × ℕ)

pub record Reply : Type 0 where
  pub exit_code : ℕ
  pub stdout : Text
  pub stderr : Text
  pub timed_out : Bool
  -- the words of the output
  pub words : List Text
  -- `JSON.parse` of the output of `inspect`, where it is an array
  pub containers : Option (List Container)

pub record Manager : Type 0 where
  pub active_sessions : Table WorkspaceSession
  pub timers : List ℕ
  pub allocated_ports : List ℕ
  pub busy : List ℕ
  pub prepared : List ℕ
  pub relays : List ℕ
  pub egress : List ℕ
  pub allocating : Bool

pub record World : Type 0 where
  pub manager : Manager
  pub calls : List Call

-- Docker's answer, `none` where it cannot be started.
abbrev pub Docker : Type 0
Docker = List Call → Call → Option Reply

-- `Set.has`, `Set.add` and `Set.delete`
abbrev pub has : ℕ → List ℕ → Bool
has n = any (λ m. m == n)

abbrev pub add : ℕ → List ℕ → List ℕ
add n set = if has n set then set else n ∷ set

abbrev pub delete : ℕ → List ℕ → List ℕ
delete n = keep (λ m. not (m == n))

abbrev pub with_manager : (Manager → Manager) → World → World
with_manager f w = record w { manager = f w.manager }

abbrev pub modify : (Manager → Manager) → M String World Unit
modify f w = ok tt (with_manager f w)

-- `this.run`
unfoldable pub run : Docker → Call → M String World Reply
run docker c w =
    let after : World = record w { calls = w.calls ++ (c ∷ []) } in
    elim (docker w.calls c) [
      | none ↦ err "Docker CLI unavailable on this worker" after
      | some r ↦ ok r after
    ]

-- `this.checked`
unfoldable pub checked : Docker → Call → M String World Reply
unfolding run
checked docker c = run docker c >>= (λ (r : Reply).
    if not (r.exit_code == 0) || r.timed_out then throw "Docker failed" else return r)

-- `.catch(() => {})`
abbrev pub attempt : {A : Type 0} → M String World A → M String World Unit
attempt m = catch (m >> return tt) (λ e. return tt)

-- `try { m } finally { f }`
abbrev pub finally : {A : Type 0} → M String World A → (Manager → Manager) → M String World A
finally m f w = elim (m w) [
  | ok a w' ↦ ok a (with_manager f w')
  | err e w' ↦ err e (with_manager f w')
]

-- What the environment sets: a number is `none` where it is no integer, or for cores no number.
pub record Config : Type 0 where
  pub static_mode : Bool
  pub static_image : Option String
  pub allowed_images : List String
  pub max_sessions : Option (Option ℕ)
  pub memory_budget : Option ℕ
  pub cpu_budget : Option ℕ
