-- ===== src/Cloud/Laws.antt =====
-- How power actions end (`executePowerAction`), and when a hard reset is advised
-- (`diagnoseFailure`), in services/src/connector/cloud-recovery.bridge.ts.
use ryvix.Common.{
  ℕ, ◌≡◌, ◌↔◌, String, true, false, Option, none, some, arith, inl, inr, Bool-cases, Option-cases,
}
use ryvix.Common.Effect.{M, Done, ok, err, Done-cases, ◌>>=◌, ◌>>◌, catch, throw}
use ryvix.Cloud.{
  ProbeResult, out_of_band_hard_reset, diagnose_failure, is_impaired, CloudProvider, PowerAction,
  Adapter, Authorization, AuditEntry, requested, success, failure, CloudError, approval_required,
  not_configured, action_failed, Operation, is_accepted, PowerActionResult, entry, result_of,
  accept, attempt, guarded, is_verified, execute_verified, execute_power_action,
}

-- A hard reset is recommended exactly if the hypervisor answers and is not impaired while the
-- instance is, whatever the age of the heartbeat, also below the thirty seconds of a live daemon.
pub diagnose_failure-hard_reset_iff :
    (heartbeat : ℕ) (p : ProbeResult)
    → ((diagnose_failure heartbeat p).recommendation ≡ out_of_band_hard_reset) ↔ (
        (p.hypervisor_responsive ≡ true)
        × (is_impaired p.system_check ≡ false)
        × (is_impaired p.instance_check ≡ true))
unfolding diagnose_failure
diagnose_failure-hard_reset_iff heartbeat p = ground arith

-- A step whose outcome is known.
module _ {W : Type 0} (log : AuditEntry → M CloudError W (Unit {0})) (adapter : Adapter W)
    (provider : CloudProvider) (instance : String) (action : PowerAction) where
  -- Why the part under the `try` fails, and the world that it then leaves: the provider threw, its
  -- answer was not accepted, or logging the success threw.
  pub data Failed (w : W) : W → Type 0 where
    threw : (e : CloudError) (w1 : W) → adapter.execute instance action w ≡ err e w1 → Failed w w1
    rejected :
        (o : Operation) (w1 : W)
        → adapter.execute instance action w ≡ ok o w1
        → is_accepted o ≡ false
        → Failed w w1
    success_unlogged :
        (o : Operation) (e : CloudError) (w1 w2 : W)
        → adapter.execute instance action w ≡ ok o w1
        → is_accepted o ≡ true
        → log (entry action provider instance success) w1 ≡ err e w2
        → Failed w w2

  -- How that part ends with its handler, from the world after the first audit event. A result was
  -- accepted and logged; otherwise the failure was logged, or logging it threw.
  pub data Ended (w : W) : Done CloudError W PowerActionResult → Type 0 where
    accepted :
        (o : Operation) (w1 w2 : W)
        → adapter.execute instance action w ≡ ok o w1
        → is_accepted o ≡ true
        → log (entry action provider instance success) w1 ≡ ok tt w2
        → Ended w (ok (result_of provider instance action o) w2)
    logged :
        (w1 w2 : W)
        → Failed w w1
        → log (entry action provider instance failure) w1 ≡ ok tt w2
        → Ended w (err action_failed w2)
    unlogged :
        (e : CloudError) (w1 w2 : W)
        → Failed w w1
        → log (entry action provider instance failure) w1 ≡ err e w2
        → Ended w (err e w2)

  handled :
      (w w1 : W)
      → Failed w w1
      → Ended w ((log (entry action provider instance failure) >> throw action_failed) w1)
  handled w w1 f = elim (Done-cases (log (entry action provider instance failure) w1)) [
    | inl (_, w2, e) ↦ rw (e, ◌>>◌) (logged w1 w2 f e)
    | inr (x, w2, e) ↦ rw (e, ◌>>◌) (unlogged x w1 w2 f e)
  ]

  guarded-Ended : (w : W) → Ended w (guarded log adapter provider instance action w)
  unfolding guarded attempt accept
  guarded-Ended w = elim (Done-cases (adapter.execute instance action w)) [
    | inr (x, w1, e) ↦ rw (e, catch, ◌>>=◌) (handled w w1 (threw x w1 e))
    | inl (o, w1, e) ↦ elim (Bool-cases (is_accepted o)) [
      | inr a ↦ rw (e, catch, ◌>>=◌) (rw a (handled w w1 (rejected o w1 e a)))
      | inl a ↦ elim (Done-cases (log (entry action provider instance success) w1)) [
        | inl (_, w2, s) ↦ rw (e, catch, ◌>>=◌) (rw a (rw (s, ◌>>◌) (accepted o w1 w2 e a s)))
        | inr (x, w2, s) ↦
            rw (e, catch, ◌>>=◌)
              (rw a (rw (s, ◌>>◌) (handled w w2 (success_unlogged o x w1 w2 e a s))))
      ]
    ]
  ]

-- How a power action ends. The provider is called in the last case only: with a verified approval,
-- a configured provider, and the request logged before.
pub data Outcome {W : Type 0} (adapters : CloudProvider → Option (Adapter W))
    (provider : CloudProvider) (instance : String) (action : PowerAction) (w : W)
    : Option (Authorization W) → Done CloudError W PowerActionResult → Type 0 where
  unauthorized : Outcome adapters provider instance action w none (err approval_required w)
  unverified :
      (auth : Authorization W)
      → is_verified auth ≡ false
      → Outcome adapters provider instance action w (some auth) (err approval_required w)
  unconfigured :
      (auth : Authorization W)
      → adapters provider ≡ none
      → Outcome adapters provider instance action w (some auth) (err not_configured w)
  unrequested :
      (auth : Authorization W) (e : CloudError) (w1 : W)
      → auth.record_audit (entry action provider instance requested) w ≡ err e w1
      → Outcome adapters provider instance action w (some auth) (err e w1)
  tried :
      (auth : Authorization W) (adapter : Adapter W) (w1 : W)
      (d : Done CloudError W PowerActionResult)
      → is_verified auth ≡ true
      → adapters provider ≡ some adapter
      → auth.record_audit (entry action provider instance requested) w ≡ ok tt w1
      → Ended auth.record_audit adapter provider instance action w1 d
      → Outcome adapters provider instance action w (some auth) d

execute_verified-Outcome :
    {W : Type 0} (adapters : CloudProvider → Option (Adapter W)) (provider : CloudProvider)
    (instance : String) (action : PowerAction) (auth : Authorization W) (w : W)
    → is_verified auth ≡ true
    → Outcome adapters provider instance action w
        (some auth)
        (execute_verified adapters provider instance action auth w)
unfolding execute_verified
execute_verified-Outcome adapters provider instance action auth w v =
    elim (Option-cases (adapters provider)) [
      | inl q ↦ rw (q, execute_verified) (unconfigured auth q)
      | inr (a, q) ↦
          elim (Done-cases (auth.record_audit (entry action provider instance requested) w)) [
            | inr (e, w1, r) ↦ rw (q, execute_verified) (rw (r, ◌>>◌) (unrequested auth e w1 r))
            | inl (_, w1, r) ↦
                rw (q, execute_verified)
                  (rw (r, ◌>>◌)
                    (tried auth a w1 _ v q r
                      (guarded-Ended auth.record_audit a provider instance action w1)))
          ]
    ]

-- Every power action ends in one of five ways: without an approval, a verified one or a configured
-- provider nothing changes; if logging the request throws, the provider is not called; otherwise
-- the provider is called after the request is logged, and a result is returned exactly if the
-- provider accepted the action and the success was logged, while a provider that throws, an answer
-- that is not accepted or a success that cannot be logged ends in an error after the failure was
-- logged or logging it threw.
pub execute_power_action-Outcome :
    {W : Type 0} (adapters : CloudProvider → Option (Adapter W)) (provider : CloudProvider)
    (instance : String) (action : PowerAction) (auth : Option (Authorization W)) (w : W)
    → Outcome adapters provider instance action w auth
        (execute_power_action adapters provider instance action auth w)
unfolding execute_power_action
execute_power_action-Outcome adapters provider instance action none w = unauthorized
execute_power_action-Outcome adapters provider instance action (some auth) w =
    elim (Bool-cases (is_verified auth)) [
      | inr v ↦ rw v (unverified auth v)
      | inl v ↦ rw v (execute_verified-Outcome adapters provider instance action auth w v)
    ]
