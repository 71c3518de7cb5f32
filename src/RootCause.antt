-- ===== src/RootCause.antt =====
-- The root cause of a wave of failures: ai/src/cascading-root-cause.ts. The map of services is a
-- list in the order of insertion. The parameter `upper` is the runtime's `toUpperCase`; the two
-- explanations in prose are records of what they name.
pub mod Ranks
pub mod Laws
mod Tests
use ryvix.Common.{
  ℕ, zero, suc, ◌+◌, Bool, true, false, not, ◌||◌, Option, none, some, List, [], ◌∷◌, ◌++◌, ltb,
  if◌then◌else◌, length, any, keep, map,
}
use ryvix.Common.Text.{Text, text, same_text, includes}

pub record ServiceDependencyNode : Type 0 where
  pub service_id : Text
  pub service_name : Text
  pub archetype : Text
  pub depends_on : List Text

pub record ServiceFailureEvent : Type 0 where
  pub service_id : Text
  pub failure_type : Text
  pub log_summary : Text
  pub timestamp : ℕ

-- Why a step is taken, with the names that the sentence holds.
pub data Rationale : Type 0 where
  isolated_failure : Rationale
  primary_trigger : (failure_type service_id : Text) → Rationale
  restoring_client : (service_id : Text) → Rationale

pub record RemediationStep : Type 0 where
  pub step : ℕ
  pub service_id : Text
  pub action : Text
  pub command : Text
  pub rationale : Rationale

pub data Explanation : Type 0 where
  isolated : (service_id failure_type : Text) → Explanation
  cascading : (service_id failure_type : Text) → List Text → Explanation

pub record CascadingAnalysisResult : Type 0 where
  pub originating_root_service : Text
  pub originating_failure_type : Text
  pub affected_downstream_services : List Text
  pub is_cascading_outage : Bool
  pub explanation : Explanation
  pub topological_remediation_plan : List RemediationStep

abbrev pub Graph : Type 0
Graph = List ServiceDependencyNode

-- `registerService`: `Map.set`
unfoldable pub register_service : ServiceDependencyNode → Graph → Graph
unfolding same_text
register_service node [] = node ∷ []
register_service node (n ∷ graph) =
    let rest = register_service node graph in
    if same_text n.service_id node.service_id then node ∷ graph else n ∷ rest

abbrev node_of : Text → Text → Text → List Text → ServiceDependencyNode
node_of id name archetype parents = record {
  service_id = id;
  service_name = name;
  archetype = archetype;
  depends_on = parents;
}

-- `initializeDefaultTopology`
unfoldable pub default_topology : Graph
unfolding register_service
default_topology =
    register_service
      (node_of (text "primary-db") (text "PostgreSQL Relational Primary") (text "DATABASE_HOST") [])
      (register_service
        (node_of (text "redis-cache") (text "Redis Session & Query Cache")
          (text "CACHE_MESSAGE_BROKER") [])
        (register_service
          (node_of (text "app-backend") (text "Core API Backend (Node/Go/Python)")
            (text "APPLICATION_RUNTIME") (text "redis-cache" ∷ text "primary-db" ∷ []))
          (register_service
            (node_of (text "edge-proxy") (text "Nginx Ingress Proxy") (text "WEB_EDGE_PROXY")
              (text "app-backend" ∷ []))
            [])))

-- `dependencyGraph.get`
unfoldable pub find_node : Text → Graph → Option ServiceDependencyNode
unfolding same_text
find_node id [] = none
find_node id (n ∷ graph) = if same_text n.service_id id then some n else find_node id graph

-- `failingServiceIds.has`
abbrev pub is_failing : List ServiceFailureEvent → Text → Bool
is_failing events id = any (λ e. same_text e.service_id id) events

-- `activeDeps`: the dependencies that fail as well.
unfoldable pub active_deps : Graph → List ServiceFailureEvent → Text → ℕ
unfolding find_node
active_deps graph events id = elim (find_node id graph) [
  | none ↦ 0
  | some node ↦ length (keep (is_failing events) node.depends_on)
]

-- `activeDeps < minDependencies`, which starts at infinity.
abbrev pub below : ℕ → Option ℕ → Bool
below n none = true
below n (some m) = ltb n m

-- The loop that looks for the root: its state is the root so far and its dependencies.
unfoldable pub choose_root :
    (Text → ℕ) → ServiceFailureEvent → Option ℕ → List ServiceFailureEvent → ServiceFailureEvent
choose_root deps root least [] = root
choose_root deps root least (e ∷ es) =
    let taken = choose_root deps e (some (deps e.service_id)) es in
    let left = choose_root deps root least es in
    if below (deps e.service_id) least then taken else left

-- `getRemediationForFailure`
unfoldable pub get_remediation_for_failure : (Text → Text) → Text → Text → Text
unfolding includes
get_remediation_for_failure upper service_id failure_type =
    if includes (upper failure_type) (text "DEADLOCK")
      || includes (upper failure_type) (text "DATABASE")
    then text
        "SELECT pg_terminate_backend(pid) FROM pg_stat_activity WHERE state = \"idle in transaction\""
    else if includes (upper failure_type) (text "OOM")
        || includes (upper failure_type) (text "REDIS")
    then text "redis-cli config set maxmemory-policy allkeys-lru && redis-cli memory purge"
    else text "systemctl restart " ++ service_id

-- The loop over the downstream services, from a step number on.
unfoldable pub downstream_steps : ℕ → List Text → List RemediationStep
downstream_steps step [] = []
downstream_steps step (id ∷ ids) =
    record {
      step = step;
      service_id = id;
      action = text "DRAIN_AND_RECONNECT";
      command = text "systemctl restart " ++ id ++ text " || true";
      rationale = restoring_client id;
    }
    ∷ downstream_steps (suc step) ids

abbrev pub downstream_of : ServiceFailureEvent → List ServiceFailureEvent → List Text
downstream_of root events =
    map (λ e. e.service_id) (keep (λ e. not (same_text e.service_id root.service_id)) events)

abbrev pub root_of : Graph → ServiceFailureEvent → List ServiceFailureEvent → ServiceFailureEvent
root_of graph e es = choose_root (active_deps graph (e ∷ es)) e none (e ∷ es)

abbrev pub isolated_result : ServiceFailureEvent → CascadingAnalysisResult
isolated_result single = record {
  originating_root_service = single.service_id;
  originating_failure_type = single.failure_type;
  affected_downstream_services = [];
  is_cascading_outage = false;
  explanation = isolated single.service_id single.failure_type;
  topological_remediation_plan =
      record {
        step = 1;
        service_id = single.service_id;
        action = text "REMEDIATE_ISOLATED";
        command = text "systemctl restart " ++ single.service_id;
        rationale = isolated_failure;
      }
      ∷ [];
}

abbrev pub cascading_result :
    (Text → Text) → ServiceFailureEvent → List Text → CascadingAnalysisResult
cascading_result upper root downstream = record {
  originating_root_service = root.service_id;
  originating_failure_type = root.failure_type;
  affected_downstream_services = downstream;
  is_cascading_outage = true;
  explanation = cascading root.service_id root.failure_type downstream;
  topological_remediation_plan =
      record {
        step = 1;
        service_id = root.service_id;
        action = text "FIX_ORIGINATING_ROOT_CAUSE";
        command = get_remediation_for_failure upper root.service_id root.failure_type;
        rationale = primary_trigger root.failure_type root.service_id;
      }
      ∷ downstream_steps 2 downstream;
}

-- `diagnoseAlertWave`, which throws at an empty wave.
unfoldable pub diagnose_alert_wave :
    (Text → Text) → Graph → List ServiceFailureEvent → Option CascadingAnalysisResult
unfolding active_deps choose_root same_text get_remediation_for_failure downstream_steps
diagnose_alert_wave upper graph [] = none
diagnose_alert_wave upper graph (single ∷ []) = some (isolated_result single)
diagnose_alert_wave upper graph (e ∷ f ∷ es) =
    let root = root_of graph e (f ∷ es) in
    some (cascading_result upper root (downstream_of root (e ∷ f ∷ es)))
