-- ===== src/Cloud/Tests.antt =====
-- A reset that the provider dispatches, in a world that counts the audit events.
use ryvix.Common.{ℕ, ◌≡◌, ◌↔◌, true, false, Option, some, ◌+◌}
use ryvix.Common.Effect.{ok}
use ryvix.Cloud.{
  CloudProvider, aws, hard_reset, Adapter, Authorization, PowerStatus, ProbeResult, InstanceState,
  good, impaired, is_impaired, diagnose_failure, out_of_band_hard_reset, execute_power_action,
}
use ryvix.Cloud.Laws.{Outcome, diagnose_failure-hard_reset_iff, execute_power_action-Outcome}

abbrev frozen : ProbeResult
frozen = record {
  state = InstanceState.running;
  hypervisor_responsive = true;
  system_check = good;
  instance_check = impaired;
}

diagnose_failure-hard_reset_iff_example :
    ((diagnose_failure 300 frozen).recommendation ≡ out_of_band_hard_reset) ↔ (
      (frozen.hypervisor_responsive ≡ true)
      × (is_impaired frozen.system_check ≡ false)
      × (is_impaired frozen.instance_check ≡ true))
diagnose_failure-hard_reset_iff_example = diagnose_failure-hard_reset_iff 300 frozen

abbrev cloud : Adapter ℕ
cloud = record {
  probe = λ instance w. ok frozen w;
  execute = λ instance action w. ok (record { id = "op-1"; status = PowerStatus.dispatched }) w;
}

abbrev configured : CloudProvider → Option (Adapter ℕ)
configured provider = some cloud

abbrev approval : Authorization ℕ
approval = record {
  actor_id = "user-1";
  approval_id = "approval-1";
  record_audit = λ e w. ok tt (w + 1);
}

execute_power_action-Outcome_example :
    Outcome configured aws "i-0a1b" hard_reset 0
      (some approval)
      (execute_power_action configured aws "i-0a1b" hard_reset (some approval) 0)
execute_power_action-Outcome_example =
    execute_power_action-Outcome configured aws "i-0a1b" hard_reset (some approval) 0
