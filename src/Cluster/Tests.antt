-- ===== src/Cluster/Tests.antt =====
-- A cluster of three nodes, one of which is attacked.
use ryvix.Common.{ℕ, refl, Bool, true, false, none, some, [], ◌∷◌, ◌+◌}
use ryvix.Common.Effect.{Done, ok, world}
use ryvix.Cluster.{
  ClusterNode, NodeStatus, Capability, Analysis, ClusterError, Cluster, SecurityIncident, call,
  respond, new_incident,
}
use ryvix.Cluster.Laws.{report, IsContained, respond-IsContained}

-- The agents count their calls.
abbrev execute : ℕ → Capability → ℕ → Done ClusterError ℕ Bool
execute node capability w = ok true (w + 1)

abbrev is_blocked : ℕ → ℕ → ℕ → Bool
is_blocked node ip w = false

abbrev clock : ℕ → ℕ
clock w = w

abbrev up : ℕ → ClusterNode
up host = record { hostname = host; last_seen = 0; status = NodeStatus.online }

abbrev three : Cluster ℕ Bool
three = record { nodes = (1, up 11) ∷ (2, up 12) ∷ (3, up 13) ∷ []; incidents = []; agents = 0 }

abbrev attack : Analysis
attack = record {
  is_threat = true;
  threat_type = 6;
  attacker_ip = some 99;
  invoke_action = none;
  invoke_ip = none;
}

abbrev incident : SecurityIncident Bool
incident = new_incident 4 12 attack true (some (report (11 ∷ 13 ∷ [])))

respond-IsContained_example :
    IsContained execute is_blocked clock 2 12 99 attack three
      (world (respond execute is_blocked clock 2 12 attack three))
      incident
respond-IsContained_example =
    respond-IsContained execute is_blocked clock 2 12 99 attack three
      (world (respond execute is_blocked clock 2 12 attack three)) incident refl
      (unfold respond call in refl)
