-- ===== src/RootCause/Laws.antt =====
-- The service that is named the root of a wave, and what the plan holds.
use ryvix.Common.{
  ℕ, suc, ◌≡◌, refl, subst, Bool, true, ◌||◌, some, List, [], ◌∷◌, any, arith, Bool-cases, inl, inr,
}
use ryvix.Common.Text.{Text, same_text, same_text_refl, same_text_sound}
use ryvix.RootCause.{
  ServiceFailureEvent, RemediationStep, CascadingAnalysisResult, Graph, is_failing, active_deps,
  downstream_steps, downstream_of, root_of, isolated_result, cascading_result, diagnose_alert_wave,
}
use ryvix.RootCause.Ranks.{IsRanked, lowest-active_deps, lowest, root_of-IsLeast, root_of-FailsIn}

-- If the services depend on each other in no circle, the service that is named the root of a wave
-- is one that fails and that depends on no service that fails.
pub diagnose_alert_wave-active_deps :
    (rank : Text → ℕ) (upper : Text → Text) (graph : Graph) (events : List ServiceFailureEvent)
    (r : CascadingAnalysisResult)
    → IsRanked rank graph
    → diagnose_alert_wave upper graph events ≡ some r
    → (is_failing events r.originating_root_service ≡ true)
      × (active_deps graph events r.originating_root_service ≡ 0)
unfolding diagnose_alert_wave
diagnose_alert_wave-active_deps rank upper graph [] r ranked h = absurd (cc h)
diagnose_alert_wave-active_deps rank upper graph (e ∷ []) r ranked h =
    let own : e.service_id ≡ r.originating_root_service = cc h in
    rw (← own) (
      rw (same_text_refl e.service_id) refl,
      lowest-active_deps rank graph (e ∷ []) e.service_id ranked (omega arith, tt),
    )
diagnose_alert_wave-active_deps rank upper graph (e ∷ f ∷ es) r ranked h =
    let deps = active_deps graph (e ∷ f ∷ es) in
    let own : (root_of graph e (f ∷ es)).service_id ≡ r.originating_root_service = cc h in
    let (id, least, bound) = lowest rank deps e (f ∷ es) in
    let free = lowest-active_deps rank graph (e ∷ f ∷ es) id ranked least in
    let below_free =
      bound (deps (root_of graph e (f ∷ es)).service_id) (root_of-IsLeast graph e (f ∷ es)) in
    subst (λ i. (is_failing (e ∷ f ∷ es) i ≡ true) × (active_deps graph (e ∷ f ∷ es) i ≡ 0)) own
      (root_of-FailsIn graph e (f ∷ es), omega (arith, free, below_free))

-- The steps of a plan are numbered without a gap, from a number on.
abbrev pub IsNumbered : ℕ → List RemediationStep → Type 0
IsNumbered n [] = Unit
IsNumbered n (s ∷ steps) = (s.step ≡ n) × IsNumbered (suc n) steps

abbrev pub is_planned : List RemediationStep → Text → Bool
is_planned plan id = any (λ s. same_text s.service_id id) plan

downstream_steps-IsNumbered : (n : ℕ) (ids : List Text) → IsNumbered n (downstream_steps n ids)
unfolding downstream_steps
downstream_steps-IsNumbered n [] = tt
downstream_steps-IsNumbered n (id ∷ ids) = (refl, downstream_steps-IsNumbered (suc n) ids)

module _ (root : ServiceFailureEvent) (id : Text) where
  -- A failing service is the root or stands in the steps of the downstream services.
  downstream_of-is_planned :
      (n : ℕ) (es : List ServiceFailureEvent)
      → is_failing es id ≡ true
      → (same_text root.service_id id || is_planned (downstream_steps n (downstream_of root es)) id)
        ≡ true
  unfolding downstream_steps
  downstream_of-is_planned n [] h = absurd (ground arith)
  downstream_of-is_planned n (e ∷ es) h =
      elim (Bool-cases (same_text e.service_id root.service_id)) [
        | inl s ↦ elim (Bool-cases (same_text e.service_id id)) [
          | inl q ↦
              let own : same_text root.service_id id ≡ true =
                subst (λ t. same_text t id ≡ true) (same_text_sound e.service_id root.service_id s)
                  q in
              rw (own) refl
          | inr q ↦ rw (s) (downstream_of-is_planned n es (ground arith))
        ]
        | inr s ↦ elim (Bool-cases (same_text e.service_id id)) [
          | inl q ↦ rw (s, q) (ground arith)
          | inr q ↦ rw (s, q) (downstream_of-is_planned (suc n) es (ground arith))
        ]
      ]

-- The steps of a plan are numbered from 1 without a gap, and every service that fails has one.
pub diagnose_alert_wave-is_planned :
    (upper : Text → Text) (graph : Graph) (events : List ServiceFailureEvent)
    (r : CascadingAnalysisResult) (id : Text)
    → diagnose_alert_wave upper graph events ≡ some r
    → is_failing events id ≡ true
    → IsNumbered 1 r.topological_remediation_plan
      × (is_planned r.topological_remediation_plan id ≡ true)
unfolding diagnose_alert_wave
diagnose_alert_wave-is_planned upper graph [] r id h k = absurd (cc h)
diagnose_alert_wave-is_planned upper graph (e ∷ []) r id h k =
    let eq : isolated_result e ≡ r = cc h in
    subst
      (λ (x : CascadingAnalysisResult).
        IsNumbered 1 x.topological_remediation_plan
        × (is_planned x.topological_remediation_plan id ≡ true))
      eq ((refl, tt), k)
diagnose_alert_wave-is_planned upper graph (e ∷ f ∷ es) r id h k =
    let root = root_of graph e (f ∷ es) in
    let downstream = downstream_of root (e ∷ f ∷ es) in
    let eq : cascading_result upper root downstream ≡ r = cc h in
    subst
      (λ (x : CascadingAnalysisResult).
        IsNumbered 1 x.topological_remediation_plan
        × (is_planned x.topological_remediation_plan id ≡ true))
      eq
      (
        (refl, downstream_steps-IsNumbered 2 downstream),
        downstream_of-is_planned root id 2 (e ∷ f ∷ es) k,
      )
