-- ===== src/Recovery/Tests.antt =====
-- A restart that succeeds, and the third failure of one.
use ryvix.Common.{ℕ, ◌≡◌, refl, true, false, none, ◌↔◌, ◌+◌}
use ryvix.Common.Effect.{err}
use ryvix.Recovery.{
  validate_recovery_plan, Incident, open_incident, Request, Answer, execute_recovery_run,
}
use ryvix.Recovery.Laws.{
  is_allowed, validate_recovery_plan_iff, Outcome, execute_recovery_run-Outcome,
}

-- A property that every object inherits is taken for a registered action.
validate_recovery_plan_iff_example :
    (validate_recovery_plan "constructor" false ≡ none) ↔ (is_allowed "constructor" false ≡ true)
validate_recovery_plan_iff_example = validate_recovery_plan_iff "constructor" false

allows_constructor : validate_recovery_plan "constructor" false ≡ none
unfolding validate_recovery_plan
allows_constructor = refl

abbrev clock : ℕ → ℕ
clock w = w

abbrev failing : ℕ → Answer ℕ
failing w = err "exit 1" (w + 10)

abbrev restart : Request
restart = record {
  plan_id = 1;
  action_name = "restart_service";
  attempt_number = 3;
  server_id = 2;
  project_id = 5;
  organization_id = 9;
  is_approved_by_human = false;
}

abbrev outage : Incident
outage = record { id = 4; status = open_incident; resolved_at = none }

execute_recovery_run-Outcome_example :
    Outcome clock failing restart outage 100
      (execute_recovery_run clock failing restart (outage, 100))
execute_recovery_run-Outcome_example = execute_recovery_run-Outcome clock failing restart outage 100
