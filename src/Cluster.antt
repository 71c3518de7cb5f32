-- ===== src/Cluster.antt =====
-- The response to a threat in a cluster: services/src/connector/cluster-security.coordinator.ts.
-- The agents, the analysis of a node's events and the clock are parameters; identifiers, hosts,
-- addresses and threat types are only compared or copied, and are numbers. Calls that overlap are
-- not modelled: each runs to its end.
pub mod Laws
mod Tests
use ryvix.Common.{
  ℕ, ◌+◌, Bool, true, false, not, ◌&&◌, ◌||◌, Option, none, some, List, [], ◌∷◌, ◌++◌, ◌==◌,
  if◌then◌else◌, is_some, length,
}
use ryvix.Common.Effect.{M, Done, ok, err, return, throw, ◌>>=◌, ◌>>◌}
use ryvix.Common.Table.{Table, lookup, update, insert}

pub data NodeStatus : Type 0 where
  online degraded offline : NodeStatus

-- The agent of a node is known by the node's identifier.
pub record ClusterNode : Type 0 where
  pub hostname : ℕ
  pub last_seen : ℕ
  pub status : NodeStatus

-- What an agent is asked to do.
pub data Capability : Type 0 where
  invoked : (action : ℕ) → (ip : Option ℕ) → (reason : ℕ) → Capability
  block_ip : (ip : Option ℕ) → (reason : ℕ) → Capability
  cluster_ip_block : (ip source_host : ℕ) → Capability

-- What the local engine says: `is_threat` is its severity being other than none and its type known.
pub record Analysis : Type 0 where
  pub is_threat : Bool
  pub threat_type : ℕ
  pub attacker_ip : Option ℕ
  pub invoke_action : Option ℕ
  pub invoke_ip : Option ℕ

pub record Broadcast : Type 0 where
  pub peers_notified : ℕ
  pub nodes_blocked : List ℕ

pub record SecurityIncident (R : Type 0) : Type 0 where
  pub target_host : ℕ
  pub threat_type : ℕ
  pub offending_ip : Option ℕ
  pub local_action : R
  pub broadcast : Option Broadcast
  pub triggered_at : ℕ

pub data ClusterError : Type 0 where
  unregistered agent_failed : ClusterError

-- The coordinator, which owns the map of nodes and the log, beside the rest of the world.
pub record Cluster (W R : Type 0) : Type 0 where
  pub nodes : Table ClusterNode
  pub incidents : List (SecurityIncident R)
  pub agents : W

-- `a || b` on optional addresses
abbrev pub or_else : Option ℕ → Option ℕ → Option ℕ
or_else (some x) y = some x
or_else none y = y

abbrev pub offending : Analysis → Option ℕ
offending a = or_else a.attacker_ip a.invoke_ip

abbrev pub chosen : Analysis → Capability
chosen a = elim a.invoke_action [
  | none ↦ block_ip (or_else a.attacker_ip a.invoke_ip) a.threat_type
  | some action ↦ invoked action (or_else a.attacker_ip a.invoke_ip) a.threat_type
]

abbrev pub new_incident :
    {R : Type 0} → ℕ → ℕ → Analysis → R → Option Broadcast → SecurityIncident R
new_incident now host a r b = record {
  target_host = host;
  threat_type = a.threat_type;
  offending_ip = offending a;
  local_action = r;
  broadcast = b;
  triggered_at = now;
}

module _ {W R : Type 0} where
  -- `registerNode`
  unfoldable pub register_node : ℕ → ℕ → ℕ → M ClusterError (Cluster W R) (Unit {0})
  unfolding lookup update insert
  register_node now id host c =
      let node : ClusterNode = record { hostname = host; last_seen = now; status = online } in
      ok tt (record c {
        nodes =
            if is_some (lookup id c.nodes)
            then update id (λ _. node) c.nodes
            else insert id node c.nodes;
      })

  -- `node.lastSeen = …`
  unfoldable pub see : ℕ → ℕ → M ClusterError (Cluster W R) (Unit {0})
  unfolding update
  see now id c = ok tt (record c { nodes = update id (λ n. record n { last_seen = now }) c.nodes })

  unfoldable pub log_incident : SecurityIncident R → M ClusterError (Cluster W R) (Unit {0})
  log_incident i c = ok tt (record c { incidents = c.incidents ++ (i ∷ []) })

module _ {W R : Type 0} (execute : ℕ → Capability → W → Done ClusterError W R) where
  -- `agent.executeCapability`, which acts on the agents only
  unfoldable pub call : ℕ → Capability → M ClusterError (Cluster W R) R
  call node capability c = elim (execute node capability c.agents) [
    | ok r w ↦ ok r (record c { agents = w })
    | err e w ↦ err e (record c { agents = w })
  ]

  -- One peer, and then the others.
  unfoldable pub notify_peer :
      ℕ → ℕ → ℕ → ℕ → M ClusterError (Cluster W R) (List ℕ) → M ClusterError (Cluster W R) (List ℕ)
  unfolding call
  notify_peer peer hostname ip host rest = do
    call peer (cluster_ip_block ip host)
    hosts ← rest
    return (hostname ∷ hosts)

  -- The loop over the peers.
  unfoldable pub notify : ℕ → ℕ → ℕ → Table ClusterNode → M ClusterError (Cluster W R) (List ℕ)
  unfolding notify_peer
  notify node ip host [] = return []
  notify node ip host ((peer, p) ∷ rows) =
      let rest = notify node ip host rows in
      if peer == node then rest else notify_peer peer p.hostname ip host rest

  unfoldable pub broadcast_to : ℕ → Option ℕ → ℕ → M ClusterError (Cluster W R) (Option Broadcast)
  unfolding notify
  broadcast_to node none host c = ok none c
  broadcast_to node (some ip) host c =
      (notify node ip host c.nodes >>= λ hosts.
      return (some (record { peers_notified = length hosts; nodes_blocked = hosts })))
        c

module _ {W R : Type 0} (execute : ℕ → Capability → W → Done ClusterError W R)
    (is_blocked : ℕ → ℕ → W → Bool) (clock : W → ℕ) where
  -- The address is blocked on the node itself, unless its agent says that it is.
  unfoldable pub block_local : ℕ → Option ℕ → ℕ → M ClusterError (Cluster W R) (Unit {0})
  unfolding call
  block_local node none reason c = ok tt c
  block_local node (some ip) reason c =
      if is_blocked node ip c.agents
      then ok tt c
      else (call execute node (block_ip (some ip) reason) >> return tt) c

  unfoldable pub log_threat :
      ℕ → Analysis → R → Option Broadcast → M ClusterError (Cluster W R) (SecurityIncident R)
  unfolding log_incident
  log_threat host a r b c =
      (log_incident (new_incident (clock c.agents) host a r b)
          >> return (new_incident (clock c.agents) host a r b))
        c

  unfoldable pub respond : ℕ → ℕ → Analysis → M ClusterError (Cluster W R) (SecurityIncident R)
  unfolding block_local broadcast_to log_threat
  respond node host a = do
    r ← call execute node (chosen a)
    block_local node (offending a) a.threat_type
    b ← broadcast_to execute node (offending a) host
    log_threat host a r b

  unfoldable pub respond_if :
      Bool → ℕ → ℕ → Analysis → M ClusterError (Cluster W R) (Option (SecurityIncident R))
  unfolding respond
  respond_if true node host a = respond node host a >>= λ i. return (some i)
  respond_if false node host a = return none

  -- `processNodeTelemetryAndLogs`, with the answer of the analysis
  unfoldable pub process : ℕ → Analysis → M ClusterError (Cluster W R) (Option (SecurityIncident R))
  unfolding respond_if see lookup
  process node a c = elim (lookup node c.nodes) [
    | none ↦ err unregistered c
    | some n ↦ (see (clock c.agents) node >> respond_if a.is_threat node n.hostname a) c
  ]
