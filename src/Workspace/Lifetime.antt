-- ===== src/Workspace/Lifetime.antt =====
-- Creating and terminating a workspace: createSession, allocate and terminateSession of
-- services/src/workspace/docker-workspace.manager.ts. Each of them runs here from its start to its
-- end; Workspace/Segments has their parts between two awaits.
use ryvix.Common.{
  ℕ, zero, suc, ◌+◌, ◌*◌, String, Bool, true, false, not, ◌&&◌, ◌||◌, Option, none, some, List, ◌∷◌,
  ◌==◌, ltb, leb, if◌then◌else◌, any, str_eq, holds,
}
use ryvix.Common.Text.{Text, text, includes}
use ryvix.Common.Effect.{err, M, return, throw, ◌>>=◌, ◌>>◌, catch}
use ryvix.Common.Table.{lookup, update, insert}
use ryvix.Workspace.Budget.{workspace_capacity}
use ryvix.Workspace.Model.{
  Status, active, terminating, destroyed, is_destroyed, WorkspaceSession, create_network,
  run_container, remove_egress, remove_relay, remove_container, remove_network, Call, Reply, Config,
  Manager, World, Docker, has, add, delete, modify, run, checked, attempt, finally,
}

-- The options with their defaults filled in: an identifier is `none` where the text is empty, CPU is
-- in hundredths of a core, and the time to live in minutes.
pub record Options : Type 0 where
  pub task_id : Option ℕ
  pub project_id : Option ℕ
  pub profile_id : Option ℕ
  pub image : String
  pub cpu : ℕ
  pub ram : ℕ
  pub ttl : ℕ

-- The loop over the ports from `port` on, for at most `fuel` turns.
unfoldable pub search_port : List ℕ → ℕ → ℕ → ℕ
search_port ports zero port = port
search_port ports (suc fuel) port =
    let next = search_port ports fuel (port + 1) in
    if has port ports && leb port 3999 then next else port

-- The code for a failure while the containers start.
unfoldable pub give_back : {A : Type 0} → Docker → ℕ → ℕ → Bool → String → M String World A
unfolding run
give_back docker id port network_created error =
    attempt (run docker (remove_container id))
    >> (if network_created then attempt (run docker (remove_network id)) else return tt)
    >> modify (λ m. record m { allocated_ports = delete port m.allocated_ports })
    >> throw error

abbrev pub new_session : ℕ → ℕ → Options → ℕ → ℕ → WorkspaceSession
new_session task project options now port = record {
  task_id = task;
  project_id = project;
  profile_id = options.profile_id;
  status = active;
  preview_url = none;
  preview_port = some port;
  allocated_cpu = options.cpu;
  allocated_ram_mb = options.ram;
  created_at = now;
  expires_at = now + options.ttl * 60000;
}

abbrev pub register : ℕ → WorkspaceSession → Manager → Manager
register id s m = record m {
  active_sessions = insert id s m.active_sessions;
  timers = id ∷ m.timers;
}

-- `allocate`, with the identifier that `randomUUID` gives.
unfoldable pub allocate : Docker → ℕ → ℕ → ℕ → Options → ℕ → M String World WorkspaceSession
unfolding search_port give_back checked
allocate docker id task project options now w =
    let port = search_port w.manager.allocated_ports 900 3100 in
    let session = new_session task project options now port in
    (if ltb 3999 port
        then throw "Workspace preview ports exhausted"
        else modify (λ m. record m { allocated_ports = add port m.allocated_ports })
          >> catch (checked docker (create_network id)) (give_back docker id port false)
          >> catch (checked docker (run_container id options.cpu options.ram (options.ttl * 60)))
              (give_back docker id port true)
          >> modify (register id session)
          >> return session)
      w

abbrev pub static_cpu : ℕ
static_cpu = 25

abbrev pub static_memory_mb : ℕ
static_memory_mb = 192

-- `image !== process.env.RYVIX_WORKSPACE_STATIC_IMAGE || cpu !== STATIC_CPU || …`
abbrev pub off_profile : Config → Options → Bool
off_profile config o =
    not (holds (str_eq o.image) config.static_image)
    || not (o.cpu == static_cpu)
    || not (o.ram == static_memory_mb)

abbrev pub over_limits : Options → Bool
over_limits o =
    o.cpu == 0 || ltb 200 o.cpu || ltb o.ram 128 || ltb 4096 o.ram || o.ttl == 0 || ltb 15 o.ttl

abbrev pub set_allocating : Bool → Manager → Manager
set_allocating b m = record m { allocating = b }

-- `createSession` behind its checks of the arguments.
unfoldable pub create_checked :
    Docker → Config → ℕ → ℕ → ℕ → Options → ℕ → M String World WorkspaceSession
unfolding workspace_capacity allocate
create_checked docker config id task project options now w =
    (if w.manager.allocating
        then throw "Workspace allocation already in progress"
        else modify (set_allocating true)
          >> finally
              (workspace_capacity docker config options.cpu options.ram >>= (λ (free : Bool).
                if free
                then allocate docker id task project options now
                else throw "Workspace host capacity exhausted; retry after preview expiry"))
              (set_allocating false))
      w

-- `createSession` behind the check of the static profile.
unfoldable pub create_identified :
    Docker → Config → ℕ → Options → ℕ → Option ℕ → Option ℕ → M String World WorkspaceSession
unfolding create_checked
create_identified docker config id options now (some task) (some project) =
    if not (any (str_eq options.image) config.allowed_images)
    then throw "Workspace image is not approved"
    else if over_limits options
    then throw "Workspace resource limits exceeded"
    else create_checked docker config id task project options now
create_identified docker config id options now _ _ = throw "Task and project are required"

-- `createSession`
unfoldable pub create_session : Docker → Config → ℕ → Options → ℕ → M String World WorkspaceSession
unfolding create_identified
create_session docker config id options now =
    if config.static_mode && off_profile config options
    then throw "Static host only accepts its bounded static profile"
    else create_identified docker config id options now options.task_id options.project_id

abbrev pub set_status : ℕ → Status → Manager → Manager
set_status id status m = record m {
  active_sessions = update id (λ s. record s { status = status }) m.active_sessions;
}

-- One removal of `terminateSession`: a failure other than a missing object throws.
unfoldable pub remove_object : Docker → Call → Text → String → M String World Unit
unfolding run includes
remove_object docker call missing error = run docker call >>= (λ (r : Reply).
    if not (r.exit_code == 0) && not (includes r.stderr missing) then throw error else return tt)

-- The last statements of `terminateSession`.
abbrev pub destroy : ℕ → Option ℕ → Manager → Manager
destroy id port m = record m {
  active_sessions =
      update id (λ s. record s { status = destroyed; preview_url = none }) m.active_sessions;
  prepared = delete id m.prepared;
  allocated_ports = elim port [ none ↦ m.allocated_ports | some p ↦ delete p m.allocated_ports ];
}

unfoldable pub remove_egress_broker : Docker → ℕ → M String World Unit
unfolding remove_object
remove_egress_broker docker id w =
    (if has id w.manager.egress
        then remove_object docker (remove_egress id) (text "No such container")
            "Egress broker cleanup failed"
          >> modify (λ m. record m { egress = delete id m.egress })
        else return tt)
      w

unfoldable pub remove_preview_relay : Docker → ℕ → M String World Unit
unfolding remove_object
remove_preview_relay docker id w =
    (if has id w.manager.relays
        then remove_object docker (remove_relay id) (text "No such container")
            "Preview relay cleanup failed"
          >> modify (λ m. record m { relays = delete id m.relays })
        else return tt)
      w

-- `terminateSession` behind its guards.
unfoldable pub end_session : Docker → ℕ → Option ℕ → M String World Unit
unfolding remove_egress_broker remove_preview_relay remove_object update
end_session docker id port =
    modify (λ m. record (set_status id terminating m) { timers = delete id m.timers })
    >> remove_egress_broker docker id
    >> remove_preview_relay docker id
    >> remove_object docker (remove_container id) (text "No such container")
        "Workspace container cleanup failed"
    >> remove_object docker (remove_network id) (text "not found")
        "Workspace network cleanup failed"
    >> modify (destroy id port)

-- `terminateSession`
unfoldable pub terminate_session : Docker → ℕ → M String World Unit
unfolding end_session lookup
terminate_session docker id w = elim (lookup id w.manager.active_sessions) [
  | none ↦ err "Workspace not found" w
  | some session ↦
      (if is_destroyed session.status
          then return tt
          else end_session docker id session.preview_port)
        w
]
