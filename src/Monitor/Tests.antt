-- ===== src/Monitor/Tests.antt =====
-- A server whose heartbeat is recent and whose endpoint does not answer, and one that is well.
use ryvix.Common.{ℕ, ◌≡◌, refl, Bool, true, false, none}
use ryvix.Monitor.{
  Evaluation, HashInput, healthy, complete_server_outage, default_threshold, evaluate_server_health,
}
use ryvix.Monitor.Laws.{Outcome, evaluate_server_health-Outcome}

abbrev hash : HashInput → ℕ
hash h = h.server_id

abbrev observed : Bool → Evaluation
observed answers = record {
  server = record { id = 7; environment_id = 2; hostname = "web-1"; status = "healthy" };
  last_heartbeat_at = 1000000;
  organization_id = 1;
  project_id = 3;
  external_probe = record {
    is_reachable = answers;
    status_code = none;
    latency_ms = 40;
    error = none;
  };
  current_time = 1005000;
  incident_id = 11;
  notification_id = 12;
}

well : (evaluate_server_health hash default_threshold (observed true)).diagnosis ≡ healthy
unfolding evaluate_server_health
well = refl

-- The heartbeat is five seconds old, and the server still counts as down.
fresh_outage :
    (evaluate_server_health hash default_threshold (observed false)).diagnosis
    ≡ complete_server_outage
unfolding evaluate_server_health
fresh_outage = refl

evaluate_server_health-Outcome_example :
    Outcome 90 (observed false) (evaluate_server_health hash 90 (observed false))
evaluate_server_health-Outcome_example = evaluate_server_health-Outcome hash 90 (observed false)
