-- ===== src/Workspace/Tests.antt =====
-- A worker with an empty host, one that takes over a session, and a Docker that answers every call.
use ryvix.Common.{map, ◌≤◌, ◌≡◌, refl, true, false, none, some, List, [], ◌∷◌, arith}
use ryvix.Common.Text.{Text, text}
use ryvix.Common.Effect.{ok, err, world}
use ryvix.Common.Table.{count, insert}
use ryvix.Workspace.Model.{
  list_containers, create_network, run_container, remove_container, remove_network, active,
  WorkspaceSession, Container, Reply, Config, World, Docker, has,
}
use ryvix.Workspace.Budget.{Budget, budget_of, workspace_capacity}
use ryvix.Workspace.Lifetime.{Options, search_port, create_session}
use ryvix.Workspace.Commands.{restore_session}
use ryvix.Workspace.Ports.{uses, search_port-least}
use ryvix.Workspace.Histories.{Request, creates, executes, terminates, run_all}
use ryvix.Sandbox.Paths.{ascii_lower}
use ryvix.Workspace.Files.{apply_diff}
use ryvix.Workspace.Writes.{Wrote, apply_diff-Wrote}
use ryvix.Workspace.Starts.{create_session-err}
use ryvix.Workspace.Capacity.{Admitted, workspace_capacity-Fits}

-- A persisted session of another run of the worker.
abbrev kept : WorkspaceSession
kept = record {
  task_id = 5;
  project_id = 6;
  profile_id = none;
  status = active;
  preview_url = none;
  preview_port = some 3100;
  allocated_cpu = 100;
  allocated_ram_mb = 512;
  created_at = 0;
  expires_at = 900000;
}

abbrev own_container : Container
own_container = record {
  is_workspace = true;
  session = some 9;
  task = 5;
  project = 6;
  role = none;
  is_running = true;
  is_plain_user = true;
  cpu = 100;
  memory = 512;
  bindings = [];
}

abbrev answer : Reply
answer = record {
  exit_code = 0;
  stdout = [];
  stderr = [];
  timed_out = false;
  words = [];
  containers = some (own_container ∷ []);
}

abbrev docker : Docker
docker calls c = some answer

abbrev config : Config
config = record {
  static_mode = false;
  static_image = none;
  allowed_images = "node" ∷ [];
  max_sessions = some (some 2);
  memory_budget = some 8192;
  cpu_budget = some 400;
}

abbrev start : World
start = record {
  manager = record {
    active_sessions = [];
    timers = [];
    allocated_ports = [];
    busy = [];
    prepared = [];
    relays = [];
    egress = [];
    allocating = false;
  };
  calls = [];
}

abbrev options : Options
options = record {
  task_id = some 3;
  project_id = some 6;
  profile_id = none;
  image = "node";
  cpu = 100;
  ram = 512;
  ttl = 15;
}

abbrev created : World
created = world (create_session docker config 1 options 1000 start)

abbrev restored : World
restored =
    world (restore_session docker (record { id = 9; session = kept; well_formed = true }) created)

-- The port of a session that is taken over may be another session's already.
shared_port : count (uses 3100) restored.manager.active_sessions ≡ 2
unfolding count create_session restore_session insert
shared_port = refl

abbrev requests : List Request
requests = creates 1 options 1000 ∷ executes 1 (text "ls") 500 2000 ∷ terminates 1 ∷ []

ports_free : (run_all docker config start requests).manager.allocated_ports ≡ []
unfolding run_all insert
ports_free = refl

search_port-least_example :
    (3100 ≤ search_port (3100 ∷ 3102 ∷ []) 900 3100)
    × (search_port (3100 ∷ 3102 ∷ []) 900 3100 ≤ 3103)
    × (has (search_port (3100 ∷ 3102 ∷ []) 900 3100) (3100 ∷ 3102 ∷ []) ≡ false)
search_port-least_example =
    search_port-least (3100 ∷ 3102 ∷ []) 3103 (omega arith) (omega arith) refl

abbrev measured : World
measured = world (workspace_capacity docker config 100 512 start)

measured_free : workspace_capacity docker config 100 512 start ≡ ok true measured
unfolding workspace_capacity
measured_free = refl

workspace_capacity-Fits_example :
    (b : Budget) × (budget_of config (some 2) ≡ some b) × Admitted docker config b 100 512 start
workspace_capacity-Fits_example =
    workspace_capacity-Fits docker config 100 512 (some 2) start measured refl measured_free

-- A Docker that starts no container.
abbrev broken : Docker
broken calls (run_container id cpu ram seconds) = none
broken calls _ = some answer

abbrev failed : World
failed = world (create_session broken config 1 options 1000 start)

-- The network that was created is removed again.
cleaned :
    failed.calls
    ≡ list_containers
      ∷ create_network 1
      ∷ run_container 1 100 512 900
      ∷ remove_container 1
      ∷ remove_network 1
      ∷ []
unfolding create_session
cleaned = refl

create_failed :
    create_session broken config 1 options 1000 start
    ≡ err "Docker CLI unavailable on this worker" failed
unfolding create_session
create_failed = refl

create_session-err_example :
    (failed.manager.active_sessions ≡ start.manager.active_sessions)
    × (has 3100 failed.manager.allocated_ports ≡ has 3100 start.manager.allocated_ports)
create_session-err_example =
    create_session-err broken config 1 options 1000 start failed
      "Docker CLI unavailable on this worker" 3100 create_failed

abbrev lower : Text → Text
lower = map ascii_lower

abbrev written : World
written = world (apply_diff docker lower config 1 2000 (text "src/a.ts") (some (text "x")) created)

write_done :
    apply_diff docker lower config 1 2000 (text "src/a.ts") (some (text "x")) created ≡ ok 1 written
unfolding apply_diff create_session insert
write_done = refl

apply_diff-Wrote_example : Wrote lower config 1 (text "src/a.ts") (some (text "x")) created written
apply_diff-Wrote_example =
    apply_diff-Wrote docker lower config 1 2000 (text "src/a.ts") (some (text "x")) 1 created
      written write_done
