-- ===== src/Monitor.antt =====
-- The outage monitor: services/src/monitoring/external-monitor.ts. Identifiers
-- are numbers, times are milliseconds, and texts that are assembled from values are records of
-- those values. Of a server only the fields that are read are kept. The parameter `sha256` is the
-- hash of the inputs; the two identifiers are those that `randomUUID` gives.
pub mod Laws
mod Tests
use ryvix.Common.{
  ℕ, ◌+◌, ◌-◌, ◌*◌, ◌/◌, String, Bool, true, false, not, ◌&&◌, Option, none, some, ltb,
  if◌then◌else◌,
}

pub record Server : Type 0 where
  pub id : ℕ
  pub environment_id : ℕ
  pub hostname : String
  pub status : String

pub record ProbeResult : Type 0 where
  pub is_reachable : Bool
  pub status_code : Option ℕ
  pub latency_ms : ℕ
  pub error : Option String

pub data Diagnosis : Type 0 where
  healthy agent_service_crashed complete_server_outage : Diagnosis

pub data Severity : Type 0 where
  p1_critical p2_high : Severity

pub data IncidentType : Type 0 where
  service_crash unreachable_host : IncidentType

-- A title, with the host name that it ends in.
pub data Title : Type 0 where
  agent_unreachable outage_detected : (hostname : String) → Title

-- The title of a notification: `[RYVIX ALERT] `, and the incident's.
pub data AlertTitle : Type 0 where
  ryvix_alert : (incident_title : Title) → AlertTitle

-- `ai_diagnosis`: the milliseconds since the heartbeat may be negative, so both times are kept.
pub record Explanation : Type 0 where
  pub diagnosis : Diagnosis
  pub last_heartbeat : ℕ
  pub evaluated_at : ℕ
  pub is_reachable : Bool
  pub latency_ms : ℕ

pub record Incident : Type 0 where
  pub id : ℕ
  pub environment_id : ℕ
  pub server_id : ℕ
  pub title : Title
  pub incident_type : IncidentType
  pub severity : Severity
  pub status : String
  pub ai_diagnosis : Explanation
  pub created_at : ℕ

pub data Channel : Type 0 where
  whatsapp gmail : Channel

-- `alert_${server}_${diagnosis}_${window}`
pub record AlertKey : Type 0 where
  pub server_id : ℕ
  pub diagnosis : Diagnosis
  pub window : ℕ

pub record Notification : Type 0 where
  pub id : ℕ
  pub organization_id : ℕ
  pub recipient_id : String
  pub channel : Channel
  pub title : AlertTitle
  pub body : Explanation
  pub status : String
  pub idempotency_key : AlertKey
  pub created_at : ℕ

-- What is hashed for the audit.
pub record HashInput : Type 0 where
  pub server_id : ℕ
  pub organization_id : ℕ
  pub project_id : ℕ
  pub last_heartbeat_at : ℕ
  pub external_probe : ProbeResult
  pub evaluated_at : ℕ

pub record AuditEvent : Type 0 where
  pub timestamp : ℕ
  pub organization_id : ℕ
  pub project_id : ℕ
  pub actor_id : String
  pub action_name : String
  pub target_entity : String
  pub target_id : ℕ
  pub parameters_hash : ℕ
  pub previous_status : String
  pub status : String
  pub correlation_id : ℕ

pub record OutageEvaluationResult : Type 0 where
  pub server_id : ℕ
  pub previous_status : String
  pub new_status : String
  pub diagnosis : Diagnosis
  pub incident_created : Option Incident
  pub notification_dispatched : Option Notification
  pub audit_event : Option AuditEvent

-- The arguments of `evaluateServerHealth`.
pub record Evaluation : Type 0 where
  pub server : Server
  pub last_heartbeat_at : ℕ
  pub organization_id : ℕ
  pub project_id : ℕ
  pub external_probe : ProbeResult
  pub current_time : ℕ
  pub incident_id : ℕ
  pub notification_id : ℕ

abbrev pub default_threshold : ℕ
default_threshold = 90

-- `elapsedSeconds > this.heartbeatThresholdSeconds`
abbrev pub is_heartbeat_stale : ℕ → Evaluation → Bool
is_heartbeat_stale threshold e = ltb (e.last_heartbeat_at + threshold * 1000) e.current_time

-- The differential diagnosis of a server that is not healthy.
abbrev pub crashed : ℕ → Evaluation → Bool
crashed threshold e = is_heartbeat_stale threshold e && e.external_probe.is_reachable

abbrev pub diagnosis_of : ℕ → Evaluation → Diagnosis
diagnosis_of threshold e =
    if crashed threshold e then agent_service_crashed else complete_server_outage

abbrev pub severity_of : ℕ → Evaluation → Severity
severity_of threshold e = if crashed threshold e then p2_high else p1_critical

abbrev pub title_of : ℕ → Evaluation → Title
title_of threshold e =
    if crashed threshold e
    then agent_unreachable e.server.hostname
    else outage_detected e.server.hostname

abbrev pub is_critical : Severity → Bool
is_critical p1_critical = true
is_critical p2_high = false

unfoldable pub incident_of : ℕ → Evaluation → Incident
incident_of threshold e = record {
  id = e.incident_id;
  environment_id = e.server.environment_id;
  server_id = e.server.id;
  title = title_of threshold e;
  incident_type = if crashed threshold e then service_crash else unreachable_host;
  severity = severity_of threshold e;
  status = "open";
  ai_diagnosis = record {
    diagnosis = diagnosis_of threshold e;
    last_heartbeat = e.last_heartbeat_at;
    evaluated_at = e.current_time;
    is_reachable = e.external_probe.is_reachable;
    latency_ms = e.external_probe.latency_ms;
  };
  created_at = e.current_time;
}

unfoldable pub notification_of : ℕ → Evaluation → Notification
unfolding incident_of
notification_of threshold e = record {
  id = e.notification_id;
  organization_id = e.organization_id;
  recipient_id = "ops_oncall";
  channel = if is_critical (severity_of threshold e) then whatsapp else gmail;
  title = ryvix_alert (title_of threshold e);
  body = (incident_of threshold e).ai_diagnosis;
  status = "queued";
  idempotency_key = record {
    server_id = e.server.id;
    diagnosis = diagnosis_of threshold e;
    window = e.current_time / 300000;
  };
  created_at = e.current_time;
}

unfoldable pub audit_of : (HashInput → ℕ) → ℕ → Evaluation → AuditEvent
unfolding incident_of
audit_of sha256 threshold e = record {
  timestamp = e.current_time;
  organization_id = e.organization_id;
  project_id = e.project_id;
  actor_id = "system_monitor";
  action_name = "incident.created";
  target_entity = "server";
  target_id = e.server.id;
  parameters_hash = sha256 (record {
    server_id = e.server.id;
    organization_id = e.organization_id;
    project_id = e.project_id;
    last_heartbeat_at = e.last_heartbeat_at;
    external_probe = e.external_probe;
    evaluated_at = e.current_time;
  });
  previous_status = e.server.status;
  status = "success";
  correlation_id = (incident_of threshold e).id;
}

-- `evaluateServerHealth`
unfoldable pub evaluate_server_health : (HashInput → ℕ) → ℕ → Evaluation → OutageEvaluationResult
unfolding incident_of notification_of audit_of
evaluate_server_health sha256 threshold e =
    if not (is_heartbeat_stale threshold e) && e.external_probe.is_reachable
    then record {
      server_id = e.server.id;
      previous_status = e.server.status;
      new_status = "healthy";
      diagnosis = healthy;
      incident_created = none;
      notification_dispatched = none;
      audit_event = none;
    }
    else record {
      server_id = e.server.id;
      previous_status = e.server.status;
      new_status = "unreachable";
      diagnosis = diagnosis_of threshold e;
      incident_created = some (incident_of threshold e);
      notification_dispatched = some (notification_of threshold e);
      audit_event = some (audit_of sha256 threshold e);
    }
