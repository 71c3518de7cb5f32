-- ===== src/Workspace/Histories.antt =====
-- Histories of calls of the manager (services/src/workspace/docker-workspace.manager.ts) that run
-- one at a time: the next call starts when the one before it has returned or thrown. Calls that
-- overlap are in Workspace/Segments.
use ryvix.Common.{ℕ, List, [], ◌∷◌}
use ryvix.Common.Text.{Text}
use ryvix.Common.Effect.{world, world-Leads}
use ryvix.Workspace.Model.{Config, World, Docker}
use ryvix.Workspace.Lifetime.{Options, create_session, terminate_session}
use ryvix.Workspace.Commands.{execute_command}
use ryvix.Workspace.Ports.{PortsHeld}
use ryvix.Workspace.Effects.{Inv}
use ryvix.Workspace.Starts.{create_session-PortsHeld}
use ryvix.Workspace.Execution.{execute_command-PortsHeld}
use ryvix.Workspace.Termination.{terminate_session-PortsHeld}

-- A call of the manager; a timer that fires is a call of `terminateSession`.
pub data Request : Type 0 where
  creates : (id : ℕ) → Options → (now : ℕ) → Request
  executes : (id : ℕ) → Text → (timeout now : ℕ) → Request
  terminates : (id : ℕ) → Request

module _ (docker : Docker) (config : Config) where
  -- The state after a call, whether it returned or threw.
  unfoldable pub step : World → Request → World
  unfolding create_session execute_command terminate_session
  step w (creates id options now) = world (create_session docker config id options now w)
  step w (executes id command timeout now) =
      world (execute_command docker config id command timeout now w)
  step w (terminates id) = world (terminate_session docker id w)

  unfoldable pub run_all : World → List Request → World
  unfolding step
  run_all w [] = w
  run_all w (r ∷ rs) = run_all (step w r) rs

  step-Inv : (w : World) (r : Request) → Inv w → Inv (step w r)
  unfolding step
  step-Inv w (creates id options now) h =
      world-Leads Inv (create_session docker config id options now w)
        (create_session-PortsHeld docker config id options now w h)
  step-Inv w (executes id command timeout now) h =
      world-Leads Inv (execute_command docker config id command timeout now w)
        (execute_command-PortsHeld docker id config command timeout now w h)
  step-Inv w (terminates id) h =
      world-Leads Inv (terminate_session docker id w) (terminate_session-PortsHeld docker id w h)

  -- Whatever Docker answers, no history of creations, commands and terminations that run one at a
  -- time, each of which may fail anywhere, makes two sessions that are not destroyed hold one port,
  -- or one of them hold a port that is not allocated, if none did at the start.
  pub run_all-PortsHeld :
      (w : World) (rs : List Request)
      → PortsHeld w.manager.active_sessions w.manager.allocated_ports
      → PortsHeld (run_all w rs).manager.active_sessions (run_all w rs).manager.allocated_ports
  unfolding run_all
  run_all-PortsHeld w [] h = h
  run_all-PortsHeld w (r ∷ rs) h = run_all-PortsHeld (step w r) rs (step-Inv w r h)
