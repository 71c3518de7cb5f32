-- ===== src/Recovery.antt =====
-- Policy-controlled self-healing: services/src/self-healing/self-healing.engine.ts.
-- Messages are values of `RecoveryError` and `Refusal` in place of the formatted texts; the JSON of
-- `verification_result` is the record `Verification`; identifiers made from the clock are left out.
pub mod Laws
mod Tests
use ryvix.Common.{
  ℕ, String, str_eq, Bool, true, false, not, ◌&&◌, Option, none, some, List, [], ◌∷◌, ltb, leb,
  if◌then◌else◌, any,
}
use ryvix.Common.Effect.{M, Done, ok, err}

pub data RiskLevel : Type 0 where
  level_0_readonly level_1_safe level_2_stateful level_3_high_risk : RiskLevel

pub record ActionDefinition : Type 0 where
  pub name : String
  pub risk_level : RiskLevel
  pub requires_approval : Bool
  pub timeout_seconds : ℕ

abbrev define : String → RiskLevel → Bool → ℕ → ActionDefinition
define name level approval timeout = record {
  name = name;
  risk_level = level;
  requires_approval = approval;
  timeout_seconds = timeout;
}

-- RECOVERY_ACTION_REGISTRY
abbrev pub registry : List ActionDefinition
registry =
    define "health_check" level_0_readonly false 30
    ∷ define "collect_logs" level_0_readonly false 60
    ∷ define "collect_metrics" level_0_readonly false 30
    ∷ define "restart_service" level_1_safe false 60
    ∷ define "clear_temp_cache" level_1_safe false 60
    ∷ define "restart_container" level_2_stateful false 120
    ∷ define "rollback_deployment" level_2_stateful false 300
    ∷ define "reboot_server" level_3_high_risk true 600
    ∷ define "drop_connections" level_3_high_risk true 60
    ∷ []

unfoldable pub find_action : String → List ActionDefinition → Option ActionDefinition
find_action name [] = none
find_action name (d ∷ ds) = if str_eq d.name name then some d else find_action name ds

-- The properties that every plain JavaScript object inherits: a subscript by such a name finds a
-- value, whose `requiresApproval` is undefined.
abbrev inherited_names : List String
inherited_names =
    "constructor" ∷ "__proto__" ∷ "hasOwnProperty" ∷ "isPrototypeOf" ∷ "propertyIsEnumerable"
    ∷ "toString" ∷ "toLocaleString" ∷ "valueOf" ∷ "__defineGetter__" ∷ "__defineSetter__"
    ∷ "__lookupGetter__" ∷ "__lookupSetter__" ∷ []

unfoldable pub is_inherited : String → Bool
is_inherited name = any (λ n. str_eq n name) inherited_names

pub data Refusal : Type 0 where
  unrecognized needs_approval : Refusal

-- What the subscript finds decides: an own entry, or else whether the name is inherited.
abbrev pub decide : Option ActionDefinition → Bool → Bool → Option Refusal
decide (some d) inherited approved =
    if d.requires_approval && not approved then some needs_approval else none
decide none inherited approved = if inherited then none else some unrecognized

-- `validateRecoveryPlan`: none where the action is allowed.
unfoldable pub validate_recovery_plan : String → Bool → Option Refusal
unfolding find_action is_inherited
validate_recovery_plan name approved =
    decide (find_action name registry) (is_inherited name) approved

pub data IncidentStatus : Type 0 where
  open_incident diagnosing recovering resolved escalated : IncidentStatus

pub record Incident : Type 0 where
  pub id : ℕ
  pub status : IncidentStatus
  pub resolved_at : Option ℕ

pub data RunStatus : Type 0 where
  executing verified failed : RunStatus

pub record Verification : Type 0 where
  pub healthy : Bool
  pub verified_at : Option ℕ
  pub error : Option String

pub record RecoveryRun : Type 0 where
  pub recovery_plan_id : ℕ
  pub server_id : ℕ
  pub action_name : String
  pub attempt_number : ℕ
  pub status : RunStatus
  pub verification_result : Option Verification
  pub started_at : ℕ
  pub completed_at : Option ℕ

pub record RecoveryAudit : Type 0 where
  pub timestamp : ℕ
  pub organization_id : ℕ
  pub project_id : ℕ
  pub action_name : String
  pub target_id : ℕ
  pub attempt : ℕ
  pub run_status : RunStatus
  pub incident_status : IncidentStatus
  pub success : Bool

pub data RecoveryError : Type 0 where
  circuit_breaker : (attempt : ℕ) → RecoveryError
  policy_violation : Refusal → RecoveryError

pub record ExecutionResult : Type 0 where
  pub run : RecoveryRun
  pub incident_updated : Incident
  pub audit_event : RecoveryAudit

abbrev pub max_attempts : ℕ
max_attempts = 3

-- The caller's arguments.
pub record Request : Type 0 where
  pub plan_id : ℕ
  pub action_name : String
  pub attempt_number : ℕ
  pub server_id : ℕ
  pub project_id : ℕ
  pub organization_id : ℕ
  pub is_approved_by_human : Bool

-- The executor's answer, or the message of the error that it threw.
abbrev pub Answer : Type 0 → Type 0
Answer W = Done String W Bool

abbrev pub succeeded : {W : Type 0} → Answer W → Bool
succeeded (ok b w) = b
succeeded (err e w) = false

abbrev pub message : {W : Type 0} → Answer W → Option String
message (ok b w) = none
message (err e w) = some e

abbrev pub left : {W : Type 0} → Answer W → W
left (ok b w) = w
left (err e w) = w

abbrev error_or_default : Option String → String
error_or_default none = "Verification probe failed post-execution"
error_or_default (some e) = if str_eq e "" then "Verification probe failed post-execution" else e

-- The incident after the verification phase.
unfoldable pub settle_incident : ℕ → ℕ → Bool → Incident → Incident
settle_incident now attempt true i = record i { status = resolved; resolved_at = some now }
settle_incident now attempt false i = record i {
  status = if leb max_attempts attempt then escalated else recovering;
}

unfoldable pub complete_run : Request → ℕ → ℕ → Bool → Option String → RecoveryRun
complete_run r started now success e = record {
  recovery_plan_id = r.plan_id;
  server_id = r.server_id;
  action_name = r.action_name;
  attempt_number = r.attempt_number;
  status = if success then verified else failed;
  verification_result = some (
      if success
      then record { healthy = true; verified_at = some now; error = none }
      else record { healthy = false; verified_at = none; error = some (error_or_default e) });
  started_at = started;
  completed_at = some now;
}

unfoldable pub report : Request → ℕ → RecoveryRun → Incident → Bool → ExecutionResult
report r now run i success = record {
  run = run;
  incident_updated = i;
  audit_event = record {
    timestamp = now;
    organization_id = r.organization_id;
    project_id = r.project_id;
    action_name = r.action_name;
    target_id = i.id;
    attempt = r.attempt_number;
    run_status = run.status;
    incident_status = i.status;
    success = success;
  };
}

-- The caller's incident, which the engine mutates, beside the rest of the world.
module _ {W : Type 0} (clock : W → ℕ) (executor : W → Answer W) where
  -- Phases 3 to 6.
  unfoldable pub execute_allowed :
      Request → ℕ → Incident × W → Done RecoveryError (Incident × W) ExecutionResult
  unfolding settle_incident complete_run report
  execute_allowed r started (i, w) =
      let answer = executor w in
      let now = clock (left answer) in
      let success = succeeded answer in
      let i' = settle_incident now r.attempt_number success i in
      ok (report r now (complete_run r started now success (message answer)) i' success)
        (i', left answer)

  -- `executeRecoveryRun`
  unfoldable pub execute_recovery_run :
      Request → Incident × W → Done RecoveryError (Incident × W) ExecutionResult
  unfolding validate_recovery_plan execute_allowed
  execute_recovery_run r (i, w) =
      if ltb max_attempts r.attempt_number
      then err (circuit_breaker r.attempt_number) (record i { status = escalated }, w)
      else elim (validate_recovery_plan r.action_name r.is_approved_by_human) [
        | some refusal ↦ err (policy_violation refusal) (i, w)
        | none ↦ execute_allowed r (clock w) (i, w)
      ]
