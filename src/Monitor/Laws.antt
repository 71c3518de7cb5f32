-- ===== src/Monitor/Laws.antt =====
-- Which outages `evaluateServerHealth` of services/src/monitoring/external-monitor.ts raises, and
-- how its three drafts refer to each other.
use ryvix.Common.{
  ℕ, ◌+◌, ◌*◌, ◌≤◌, ◌≡◌, ◌↔◌, refl, Bool, true, false, not, ◌&&◌, none, some, if◌then◌else◌, arith,
  Bool-cases, inl, inr,
}
use ryvix.Monitor.{
  Diagnosis, healthy, agent_service_crashed, complete_server_outage, Severity, p1_critical, p2_high,
  whatsapp, gmail, ryvix_alert, Incident, Notification, AuditEvent, OutageEvaluationResult,
  Evaluation, HashInput, is_heartbeat_stale, crashed, evaluate_server_health, is_critical,
  diagnosis_of, severity_of, incident_of, notification_of, audit_of,
}

-- How a case ends: its diagnosis, urgency and channel, by what was observed.
pub data Case (stale reachable : Bool) : Diagnosis → Severity → Type 0 where
  agent_down : stale ≡ true → reachable ≡ true → Case stale reachable agent_service_crashed p2_high
  host_down : reachable ≡ false → Case stale reachable complete_server_outage p1_critical

-- The drafts of one outage: the incident and the audit event name the server, and so does the key
-- of the notification; the audit event names the incident, and the notification has its title behind
-- the mark of an alert, and its text.
abbrev pub Coherent :
    Evaluation → OutageEvaluationResult → Incident → Notification → AuditEvent → Type 0
Coherent e r i n a =
    (r.incident_created ≡ some i)
    × (r.notification_dispatched ≡ some n)
    × (r.audit_event ≡ some a)
    × (i.server_id ≡ e.server.id)
    × (a.target_id ≡ e.server.id)
    × (a.correlation_id ≡ i.id)
    × (n.body ≡ i.ai_diagnosis)
    × (n.title ≡ ryvix_alert i.title)
    × (n.idempotency_key.server_id ≡ e.server.id)
    × (n.idempotency_key.diagnosis ≡ r.diagnosis)
    × (n.organization_id ≡ e.organization_id)
    × ((n.channel ≡ whatsapp) ↔ (i.severity ≡ p1_critical))

pub data Outcome (threshold : ℕ) (e : Evaluation) (r : OutageEvaluationResult) : Type 0 where
  no_outage :
      e.current_time ≤ e.last_heartbeat_at + threshold * 1000
      → e.external_probe.is_reachable ≡ true
      → r.diagnosis ≡ healthy
      → r.incident_created ≡ none
      → r.notification_dispatched ≡ none
      → r.audit_event ≡ none
      → Outcome threshold e r
  outage :
      (i : Incident) (n : Notification) (a : AuditEvent)
      → Case (is_heartbeat_stale threshold e) e.external_probe.is_reachable r.diagnosis i.severity
      → Coherent e r i n a
      → Outcome threshold e r

channel_iff :
    (s : Severity) → ((if is_critical s then whatsapp else gmail) ≡ whatsapp) ↔ (s ≡ p1_critical)
channel_iff p1_critical = (λ h. refl, λ h. refl)
channel_iff p2_high = (λ h. absurd (cc h), λ h. absurd (cc h))

evaluate_server_health-Coherent :
    (sha256 : HashInput → ℕ) (threshold : ℕ) (e : Evaluation)
    → (not (is_heartbeat_stale threshold e) && e.external_probe.is_reachable) ≡ false
    → Coherent e
        (evaluate_server_health sha256 threshold e)
        (incident_of threshold e)
        (notification_of threshold e)
        (audit_of sha256 threshold e)
unfolding evaluate_server_health incident_of notification_of audit_of
evaluate_server_health-Coherent sha256 threshold e h = rw (h) (
  refl,
  refl,
  refl,
  refl,
  refl,
  refl,
  refl,
  refl,
  refl,
  refl,
  refl,
  channel_iff (severity_of threshold e),
)

raised :
    (sha256 : HashInput → ℕ) (threshold : ℕ) (e : Evaluation)
    → (not (is_heartbeat_stale threshold e) && e.external_probe.is_reachable) ≡ false
    → Case
        (is_heartbeat_stale threshold e)
        e.external_probe.is_reachable
        (diagnosis_of threshold e)
        (severity_of threshold e)
    → Outcome threshold e (evaluate_server_health sha256 threshold e)
unfolding evaluate_server_health incident_of
raised sha256 threshold e h c =
    outage (incident_of threshold e) (notification_of threshold e) (audit_of sha256 threshold e)
      (rw (h) c) (evaluate_server_health-Coherent sha256 threshold e h)

quiet :
    (sha256 : HashInput → ℕ) (threshold : ℕ) (e : Evaluation)
    → (not (is_heartbeat_stale threshold e) && e.external_probe.is_reachable) ≡ true
    → e.current_time ≤ e.last_heartbeat_at + threshold * 1000
    → e.external_probe.is_reachable ≡ true
    → Outcome threshold e (evaluate_server_health sha256 threshold e)
unfolding evaluate_server_health
quiet sha256 threshold e h fresh reached =
    no_outage fresh reached (rw (h) refl) (rw (h) refl) (rw (h) refl) (rw (h) refl)

-- Every evaluation ends in one of two ways. If the heartbeat is within the threshold and the probe
-- reaches the server, it is healthy and nothing is raised. Otherwise an incident of the server is
-- drafted, an audit event that names both, and a notification with the incident's title, marked as
-- an alert, and its text, whose key has the server and the diagnosis. It is a crash of the agent, of
-- the second severity, if the heartbeat is stale and the server is reached, and an outage of the
-- server, of the first severity, if it is not reached, however recent its heartbeat is; only the
-- latter goes out by WhatsApp.
pub evaluate_server_health-Outcome :
    (sha256 : HashInput → ℕ) (threshold : ℕ) (e : Evaluation)
    → Outcome threshold e (evaluate_server_health sha256 threshold e)
unfolding evaluate_server_health incident_of notification_of audit_of
evaluate_server_health-Outcome sha256 threshold e =
    elim (Bool-cases e.external_probe.is_reachable) [
      | inl p ↦ elim (Bool-cases (is_heartbeat_stale threshold e)) [
        | inl s ↦
            let t : crashed threshold e ≡ true = ground arith in
            raised sha256 threshold e (ground arith) (rw (t) (agent_down s p))
        | inr s ↦ quiet sha256 threshold e (ground arith) (ground arith) p
      ]
      | inr p ↦
          let t : crashed threshold e ≡ false = ground arith in
          raised sha256 threshold e (ground arith) (rw (t) (host_down p))
    ]
