-- ===== src/RootCause/Tests.antt =====
-- The default services, of which the edge proxy, the backend and the database fail.
use ryvix.Common.{ℕ, ◌==◌, arith, ◌≡◌, refl, true, none, some, List, [], ◌∷◌, if◌then◌else◌, map}
use ryvix.Common.Text.{Text, text, same_text}
use ryvix.RootCause.{
  ServiceFailureEvent, RemediationStep, CascadingAnalysisResult, default_topology, downstream_steps,
  is_failing, active_deps, cascading_result, diagnose_alert_wave,
}
use ryvix.RootCause.Ranks.{IsRanked}
use ryvix.RootCause.Laws.{
  IsNumbered, is_planned, diagnose_alert_wave-active_deps, diagnose_alert_wave-is_planned,
}

abbrev alert : Text → ServiceFailureEvent
alert id = record {
  service_id = id;
  failure_type = text "DEADLOCK";
  log_summary = [];
  timestamp = 0;
}

abbrev events : List ServiceFailureEvent
events = alert (text "edge-proxy") ∷ alert (text "app-backend") ∷ alert (text "primary-db") ∷ []

abbrev same : Text → Text
same s = s

-- The edge proxy ranks above the backend, and the backend above its stores.
abbrev rank : Text → ℕ
rank [] = 0
rank (c ∷ cs) = if c == b'e' then 2 else if c == b'a' then 1 else 0

abbrev found : CascadingAnalysisResult
found =
    cascading_result same (alert (text "primary-db")) (text "edge-proxy" ∷ text "app-backend" ∷ [])

-- The proxy is restarted before the backend that it depends on.
plan_order :
    map (λ (s : RemediationStep). s.service_id) found.topological_remediation_plan
    ≡ text "primary-db" ∷ text "edge-proxy" ∷ text "app-backend" ∷ []
unfolding downstream_steps
plan_order = refl

empty_wave : diagnose_alert_wave same default_topology [] ≡ none
unfolding diagnose_alert_wave
empty_wave = refl

diagnosed : diagnose_alert_wave same default_topology events ≡ some found
unfolding diagnose_alert_wave default_topology
diagnosed = refl

default_topology-IsRanked : IsRanked rank default_topology
unfolding default_topology
default_topology-IsRanked = ((omega arith, tt), ((omega arith, (omega arith, tt)), (tt, (tt, tt))))

diagnose_alert_wave-active_deps_example :
    (is_failing events (text "primary-db") ≡ true)
    × (active_deps default_topology events (text "primary-db") ≡ 0)
diagnose_alert_wave-active_deps_example =
    diagnose_alert_wave-active_deps rank same default_topology events found
      default_topology-IsRanked diagnosed

diagnose_alert_wave-is_planned_example :
    IsNumbered 1 found.topological_remediation_plan
    × (is_planned found.topological_remediation_plan (text "app-backend") ≡ true)
diagnose_alert_wave-is_planned_example =
    diagnose_alert_wave-is_planned same default_topology events found (text "app-backend") diagnosed
      (unfold same_text in refl)
