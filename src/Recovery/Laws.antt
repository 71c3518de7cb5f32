-- ===== src/Recovery/Laws.antt =====
-- What the policy allows and how a run ends: services/src/self-healing/self-healing.engine.ts.
use ryvix.Common.{
  ℕ, zero, suc, ◌≡◌, ◌<◌, ◌≤◌, refl, ◌↔◌, inl, inr, String, str_eq, List, [], ◌∷◌, any, not, ◌&&◌,
  ◌||◌, Bool, true, false, Option, none, some, arith, Option-cases, Bool-cases, if◌then◌else◌, leb,
  ltb,
}
use ryvix.Common.Effect.{Done, ok, err}
use ryvix.Recovery.{
  ActionDefinition, Refusal, registry, find_action, is_inherited, decide, validate_recovery_plan,
  Incident, resolved, escalated, recovering, verified, failed, Request, Answer, RecoveryError,
  circuit_breaker, policy_violation, ExecutionResult, max_attempts, succeeded, left,
  settle_incident, complete_run, report, execute_allowed, execute_recovery_run,
}

abbrev is_among : String → List String → Bool
is_among name = any (λ n. str_eq n name)

-- The actions that need nobody's approval, and those that a human has to approve.
abbrev pub safe_actions : List String
safe_actions =
    "health_check" ∷ "collect_logs" ∷ "collect_metrics" ∷ "restart_service" ∷ "clear_temp_cache"
    ∷ "restart_container" ∷ "rollback_deployment" ∷ []

abbrev pub guarded_actions : List String
guarded_actions = "reboot_server" ∷ "drop_connections" ∷ []

-- Whether an action may run, by its name alone.
abbrev pub is_allowed : String → Bool → Bool
is_allowed name approved =
    is_among name safe_actions
    || (is_among name guarded_actions && approved)
    || (not (is_among name guarded_actions) && is_inherited name)

-- The n-th entry of the registry.
abbrev entry : ℕ → List ActionDefinition → Option ActionDefinition
entry n [] = none
entry zero (d ∷ ds) = some d
entry (suc n) (d ∷ ds) = entry n ds

-- The first entry that a name matches decides.
first_match :
    (health logs metrics service cache container rollback reboot connections inherited
      approved : Bool)
    → (decide
          (if health
            then entry 0 registry
            else if logs
            then entry 1 registry
            else if metrics
            then entry 2 registry
            else if service
            then entry 3 registry
            else if cache
            then entry 4 registry
            else if container
            then entry 5 registry
            else if rollback
            then entry 6 registry
            else if reboot
            then entry 7 registry
            else if connections
            then entry 8 registry
            else none)
          inherited
          approved
        ≡ none)
      ↔ ((any
              (λ (b : Bool). b)
              (health ∷ logs ∷ metrics ∷ service ∷ cache ∷ container ∷ rollback ∷ [])
            || (any (λ (b : Bool). b) (reboot ∷ connections ∷ []) && approved)
            || (not (any (λ (b : Bool). b) (reboot ∷ connections ∷ [])) && inherited))
          ≡ true)
first_match true _ _ _ _ _ _ _ _ i a = (λ h. refl, λ h. refl)
first_match false true _ _ _ _ _ _ _ i a = (λ h. refl, λ h. refl)
first_match false false true _ _ _ _ _ _ i a = (λ h. refl, λ h. refl)
first_match false false false true _ _ _ _ _ i a = (λ h. refl, λ h. refl)
first_match false false false false true _ _ _ _ i a = (λ h. refl, λ h. refl)
first_match false false false false false true _ _ _ i a = (λ h. refl, λ h. refl)
first_match false false false false false false true _ _ i a = (λ h. refl, λ h. refl)
first_match false false false false false false false true _ i a = ground arith
first_match false false false false false false false false true i a = ground arith
first_match false false false false false false false false false i a = ground arith

-- A name may run without approval exactly if it is one of the seven harmless actions of the registry
-- or one of the names that every object inherits; with a human's approval the two guarded actions
-- may run too, and nothing else ever does.
pub validate_recovery_plan_iff :
    (name : String) (approved : Bool)
    → (validate_recovery_plan name approved ≡ none) ↔ (is_allowed name approved ≡ true)
unfolding validate_recovery_plan find_action is_inherited
validate_recovery_plan_iff name approved =
    first_match (str_eq "health_check" name) (str_eq "collect_logs" name)
      (str_eq "collect_metrics" name) (str_eq "restart_service" name)
      (str_eq "clear_temp_cache" name) (str_eq "restart_container" name)
      (str_eq "rollback_deployment" name) (str_eq "reboot_server" name)
      (str_eq "drop_connections" name) (is_inherited name) approved

module _ {W : Type 0} (clock : W → ℕ) (executor : W → Answer W) where
  -- The four ways in which a run ends.
  pub data Outcome (r : Request) (i : Incident) (w : W)
      : Done RecoveryError (Incident × W) ExecutionResult → Type 0 where
    tripped :
        max_attempts < r.attempt_number
        → Outcome r i w
            (err (circuit_breaker r.attempt_number) (record i { status = escalated }, w))
    refused :
        (x : Refusal)
        → r.attempt_number ≤ max_attempts
        → validate_recovery_plan r.action_name r.is_approved_by_human ≡ some x
        → Outcome r i w (err (policy_violation x) (i, w))
    healed :
        (result : ExecutionResult) (i' : Incident)
        → r.attempt_number ≤ max_attempts
        → validate_recovery_plan r.action_name r.is_approved_by_human ≡ none
        → succeeded (executor w) ≡ true
        → i'.status ≡ resolved
        → i'.resolved_at ≡ some (clock (left (executor w)))
        → result.run.status ≡ verified
        → result.audit_event.success ≡ true
        → result.audit_event.incident_status ≡ resolved
        → Outcome r i w (ok result (i', left (executor w)))
    unhealed :
        (result : ExecutionResult) (i' : Incident)
        → r.attempt_number ≤ max_attempts
        → validate_recovery_plan r.action_name r.is_approved_by_human ≡ none
        → succeeded (executor w) ≡ false
        → i'.status ≡ (if leb max_attempts r.attempt_number then escalated else recovering)
        → i'.resolved_at ≡ i.resolved_at
        → result.run.status ≡ failed
        → result.audit_event.success ≡ false
        → result.audit_event.incident_status ≡ i'.status
        → Outcome r i w (ok result (i', left (executor w)))

  allowed-Outcome :
      (r : Request) (i : Incident) (w : W)
      → r.attempt_number ≤ max_attempts
      → validate_recovery_plan r.action_name r.is_approved_by_human ≡ none
      → Outcome r i w (execute_allowed clock executor r (clock w) (i, w))
  unfolding execute_allowed settle_incident complete_run report
  allowed-Outcome r i w few allowed = elim (Bool-cases (succeeded (executor w))) [
    | inl e ↦ healed _ _ few allowed e (rw e) (rw e) (rw e) e (rw e)
    | inr e ↦ unhealed _ _ few allowed e (rw e) (rw e) (rw e) e refl
  ]

  -- Every run, with any executor, ends in one of four ways: tripped past the third attempt with the
  -- incident escalated, refused by the policy with nothing changed, healed with the incident
  -- resolved, or unhealed with the incident escalated at the third attempt and recovering before
  -- it. The executor runs exactly in the last two, and the run and the audit event say so.
  pub execute_recovery_run-Outcome :
      (r : Request) (i : Incident) (w : W)
      → Outcome r i w (execute_recovery_run clock executor r (i, w))
  unfolding execute_recovery_run
  execute_recovery_run-Outcome r i w = elim (Bool-cases (ltb max_attempts r.attempt_number)) [
    | inl e ↦ rw e (tripped (ground arith))
    | inr e ↦ elim (Option-cases (validate_recovery_plan r.action_name r.is_approved_by_human)) [
      | inl a ↦ rw e (rw a (allowed-Outcome r i w (ground arith) a))
      | inr (x, a) ↦ rw e (rw a (refused x (ground arith) a))
    ]
  ]
