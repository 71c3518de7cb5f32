-- ===== src/Workspace/Overlaps/Tests.antt =====
-- Two creations and a termination that overlap, and two terminations of one session.
use ryvix.Common.{◌≡◌, refl, true, false, none, some, List, [], ◌∷◌, arith}
use ryvix.Common.Table.{count, lookup, update, insert}
use ryvix.Workspace.Lifetime.{Options, search_port}
use ryvix.Workspace.Ports.{uses, PortsHeld}
use ryvix.Workspace.Segments.{
  idle, Flight, Segment, enters, measures, places, occupies, releases, begins, ends, interleave,
}
use ryvix.Workspace.Overlaps.{interleave-PortsHeld}

abbrev fresh : Flight
fresh = record {
  manager = record {
    active_sessions = [];
    timers = [];
    allocated_ports = [];
    busy = [];
    prepared = [];
    relays = [];
    egress = [];
    allocating = false;
  };
  phase = idle;
  ending = [];
}

abbrev options : Options
options = record {
  task_id = some 5;
  project_id = some 6;
  profile_id = none;
  image = "node:22-alpine";
  cpu = 100;
  ram = 512;
  ttl = 15;
}

-- A second session is created while the first is terminated under its command.
abbrev overlapping : List Segment
overlapping =
    enters
    ∷ measures true
    ∷ places 1 5 6 options 1000
    ∷ occupies 1 2000
    ∷ begins 1
    ∷ enters
    ∷ measures true
    ∷ ends 1
    ∷ releases 1
    ∷ places 2 5 6 options 3000
    ∷ []

interleave-PortsHeld_example :
    PortsHeld
      (interleave fresh overlapping).manager.active_sessions
      (interleave fresh overlapping).manager.allocated_ports
unfolding interleave lookup update insert search_port
interleave-PortsHeld_example =
    interleave-PortsHeld fresh overlapping (λ p. unfold count in omega arith) tt
      (tt, (tt, (tt, (tt, (tt, (tt, (tt, (λ h. refl, (tt, (tt, tt))))))))))

-- Two terminations of session 1 overlap, and session 2 is created before the second ends.
abbrev doubled : List Segment
doubled =
    enters
    ∷ measures true
    ∷ places 1 5 6 options 1000
    ∷ begins 1
    ∷ begins 1
    ∷ ends 1
    ∷ enters
    ∷ measures true
    ∷ places 2 5 6 options 3000
    ∷ ends 1
    ∷ enters
    ∷ measures true
    ∷ places 3 5 6 options 4000
    ∷ []

-- The port of session 2 is freed under it, and session 3 gets it too.
doubled_port : count (uses 3100) (interleave fresh doubled).manager.active_sessions ≡ 2
unfolding interleave lookup update insert search_port count
doubled_port = refl
