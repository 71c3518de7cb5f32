-- ===== src/Cloud.antt =====
-- Out-of-band recovery by cloud providers: services/src/connector/cloud-recovery.bridge.ts. The
-- adapters of the providers, which call their networks, and the writer of audit events are
-- parameters, as steps of any world that may throw. Confidence is in percent.
pub mod Laws
mod Tests
use ryvix.Common.{
  ℕ, String, str_eq, Bool, true, false, not, ◌&&◌, ◌||◌, Option, none, some, ltb, if◌then◌else◌,
}
use ryvix.Common.Effect.{M, Done, ok, err, return, throw, ◌>>=◌, ◌>>◌, catch}

pub data CloudProvider : Type 0 where
  aws digitalocean hetzner gcp baremetal : CloudProvider

pub data InstanceState : Type 0 where
  running stopped crashed terminated unknown : InstanceState

pub data Check : Type 0 where
  good impaired insufficient_data : Check

pub record ProbeResult : Type 0 where
  pub state : InstanceState
  pub hypervisor_responsive : Bool
  pub system_check : Check
  pub instance_check : Check

pub data PowerAction : Type 0 where
  reboot hard_reset power_off power_on : PowerAction

pub data PowerStatus : Type 0 where
  dispatched completed failed : PowerStatus

pub data Diagnosis : Type 0 where
  healthy daemon_crash kernel_panic_oom hypervisor_outage unknown : Diagnosis

pub data Recommendation : Type 0 where
  nothing restart_daemon out_of_band_hard_reset contact_cloud_provider : Recommendation

pub record DifferentialDiagnosis : Type 0 where
  pub diagnosis : Diagnosis
  pub confidence : ℕ
  pub recommendation : Recommendation

abbrev is_running : InstanceState → Bool
is_running InstanceState.running = true
is_running _ = false

abbrev is_good : Check → Bool
is_good good = true
is_good _ = false

abbrev pub is_impaired : Check → Bool
is_impaired impaired = true
is_impaired _ = false

abbrev is_insufficient : Check → Bool
is_insufficient insufficient_data = true
is_insufficient _ = false

abbrev conclude : Diagnosis → ℕ → Recommendation → DifferentialDiagnosis
conclude d c r = record { diagnosis = d; confidence = c; recommendation = r }

-- `diagnoseFailure`
unfoldable pub diagnose_failure : ℕ → ProbeResult → DifferentialDiagnosis
diagnose_failure heartbeat_seconds p =
    if ltb heartbeat_seconds 30 && is_running p.state && is_good p.instance_check
    then conclude healthy 99 nothing
    else if not p.hypervisor_responsive || is_impaired p.system_check
    then conclude hypervisor_outage 95 contact_cloud_provider
    else if is_impaired p.instance_check
    then conclude kernel_panic_oom 92 out_of_band_hard_reset
    else if is_insufficient p.instance_check || not (is_running p.state)
    then conclude Diagnosis.unknown 0 nothing
    else conclude daemon_crash 85 restart_daemon

pub data AuditStatus : Type 0 where
  requested success failure : AuditStatus

-- `cloud.<action>` on `<provider>:<instance>`
pub record AuditEntry : Type 0 where
  pub action : PowerAction
  pub provider : CloudProvider
  pub instance_id : String
  pub status : AuditStatus

pub data CloudError : Type 0 where
  approval_required not_configured provider_failed action_failed : CloudError
  thrown : String → CloudError

pub record Operation : Type 0 where
  pub id : String
  pub status : PowerStatus

pub record Adapter (W : Type 0) : Type 0 where
  pub probe : String → M CloudError W ProbeResult
  pub execute : String → PowerAction → M CloudError W Operation

pub record Authorization (W : Type 0) : Type 0 where
  pub actor_id : String
  pub approval_id : String
  pub record_audit : AuditEntry → M CloudError W (Unit {0})

pub record PowerActionResult : Type 0 where
  pub action_id : String
  pub provider : CloudProvider
  pub instance_id : String
  pub action : PowerAction
  pub status : PowerStatus

abbrev is_underway : PowerStatus → Bool
is_underway failed = false
is_underway _ = true

-- `!operation.id || !['dispatched','completed'].includes(operation.status)`, negated
abbrev pub is_accepted : Operation → Bool
is_accepted o = not (str_eq o.id "") && is_underway o.status

module _ {W : Type 0} (adapters : CloudProvider → Option (Adapter W)) where
  -- `probeHypervisor`
  unfoldable pub probe_hypervisor : CloudProvider → String → M CloudError W ProbeResult
  probe_hypervisor provider instance w = elim (adapters provider) [
    | none ↦ err not_configured w
    | some a ↦ a.probe instance w
  ]

abbrev pub entry : PowerAction → CloudProvider → String → AuditStatus → AuditEntry
entry action provider instance status = record {
  action = action;
  provider = provider;
  instance_id = instance;
  status = status;
}

abbrev pub result_of : CloudProvider → String → PowerAction → Operation → PowerActionResult
result_of provider instance action o = record {
  action_id = o.id;
  provider = provider;
  instance_id = instance;
  action = action;
  status = o.status;
}

module _ {W : Type 0} (log : AuditEntry → M CloudError W (Unit {0})) (adapter : Adapter W) where
  -- What follows an operation that the provider returned.
  unfoldable pub accept :
      CloudProvider → String → PowerAction → Operation → M CloudError W PowerActionResult
  accept provider instance action o w =
      if is_accepted o
      then (log (entry action provider instance success)
            >> return (result_of provider instance action o))
          w
      else err provider_failed w

  -- The body of the `try`.
  unfoldable pub attempt : CloudProvider → String → PowerAction → M CloudError W PowerActionResult
  unfolding accept
  attempt provider instance action =
      adapter.execute instance action >>= λ o. accept provider instance action o

  -- The `try` with its handler, which logs the failure and throws.
  unfoldable pub guarded : CloudProvider → String → PowerAction → M CloudError W PowerActionResult
  unfolding attempt
  guarded provider instance action =
      catch (attempt provider instance action)
        (λ _. log (entry action provider instance failure) >> throw action_failed)

abbrev pub is_verified : {W : Type 0} → Authorization W → Bool
is_verified auth = not (str_eq auth.actor_id "") && not (str_eq auth.approval_id "")

module _ {W : Type 0} (adapters : CloudProvider → Option (Adapter W)) where
  unfoldable pub execute_verified :
      CloudProvider → String → PowerAction → Authorization W → M CloudError W PowerActionResult
  unfolding guarded
  execute_verified provider instance action auth w = elim (adapters provider) [
    | none ↦ err not_configured w
    | some a ↦
        (auth.record_audit (entry action provider instance requested)
            >> guarded auth.record_audit a provider instance action)
          w
  ]

  -- `executePowerAction`
  unfoldable pub execute_power_action :
      CloudProvider
      → String
      → PowerAction
      → Option (Authorization W)
      → M CloudError W PowerActionResult
  unfolding execute_verified
  execute_power_action provider instance action none w = err approval_required w
  execute_power_action provider instance action (some auth) w =
      if is_verified auth
      then execute_verified provider instance action auth w
      else err approval_required w
