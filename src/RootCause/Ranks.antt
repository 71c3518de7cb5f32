-- ===== src/RootCause/Ranks.antt =====
-- The choice of the root, and services in a ranked graph.
use ryvix.Common.{
  ℕ, ◌≤◌, ◌<◌, ◌≡◌, refl, sym, subst, true, false, Option, some, List, [], ◌∷◌, ltb, length, keep,
  All, arith, Bool-cases, Option-cases, inl, inr,
}
use ryvix.Common.Text.{Text, same_text, same_text_refl, same_text_sound}
use ryvix.RootCause.{
  ServiceDependencyNode, ServiceFailureEvent, Graph, find_node, is_failing, active_deps,
  choose_root, root_of, below,
}

-- A rank that falls along every dependency: the services depend on each other in no circle.
abbrev pub IsRanked : (Text → ℕ) → Graph → Type 0
IsRanked rank = All (λ n. All (λ d. rank d < rank n.service_id) n.depends_on)

module _ (rank : Text → ℕ) where
  find_node-IsRanked :
      (id : Text) (graph : Graph) (node : ServiceDependencyNode)
      → IsRanked rank graph
      → find_node id graph ≡ some node
      → All (λ d. rank d < rank id) node.depends_on
  unfolding find_node
  find_node-IsRanked id [] node ranked h = absurd (cc h)
  find_node-IsRanked id (n ∷ graph) node ranked h = elim (Bool-cases (same_text n.service_id id)) [
    | inl e ↦
        let found : n ≡ node = cc (rw (e) at h) in
        let own : n.service_id ≡ id = same_text_sound n.service_id id e in
        let own_ranked : All (λ d. rank d < rank id) n.depends_on =
          subst (λ i. All (λ d. rank d < rank i) n.depends_on) own ranked.0 in
        subst (λ (m : ServiceDependencyNode). All (λ d. rank d < rank id) m.depends_on) found
          own_ranked
    | inr e ↦ find_node-IsRanked id graph node ranked.1 (rw (e) at h)
  ]

  -- A failing service is ranked at least as high as the lowest of the failing ones.
  is_failing-rank :
      (n : ℕ) (es : List ServiceFailureEvent) (d : Text)
      → All (λ y. n ≤ rank y.service_id) es
      → is_failing es d ≡ true
      → n ≤ rank d
  is_failing-rank n [] d h k = absurd (ground arith)
  is_failing-rank n (e ∷ es) d h k = elim (Bool-cases (same_text e.service_id d)) [
    | inl s ↦ subst (λ x. n ≤ rank x) (same_text_sound e.service_id d s) h.0
    | inr s ↦ is_failing-rank n es d h.1 (ground arith)
  ]

  none_failing :
      (n : ℕ) (es : List ServiceFailureEvent) (ds : List Text)
      → All (λ y. n ≤ rank y.service_id) es
      → All (λ d. rank d < n) ds
      → length (keep (is_failing es) ds) ≡ 0
  none_failing n es [] h k = refl
  none_failing n es (d ∷ ds) h k = elim (Bool-cases (is_failing es d)) [
    | inl f ↦ absurd (omega (arith, is_failing-rank n es d h f, k.0))
    | inr f ↦ rw (f) (none_failing n es ds h k.1)
  ]

  -- The lowest failing service depends on none that fails.
  pub lowest-active_deps :
      (graph : Graph) (es : List ServiceFailureEvent) (id : Text)
      → IsRanked rank graph
      → All (λ y. rank id ≤ rank y.service_id) es
      → active_deps graph es id ≡ 0
  unfolding active_deps
  lowest-active_deps graph es id ranked h = elim (Option-cases (find_node id graph)) [
    | inl e ↦ rw (e, active_deps) refl
    | inr (node, e) ↦
        rw (e, active_deps)
          (none_failing (rank id) es node.depends_on h (find_node-IsRanked id graph node ranked e))
  ]

  All-rank :
      (m n : ℕ) (es : List ServiceFailureEvent)
      → n ≤ m
      → All (λ y. m ≤ rank y.service_id) es
      → All (λ y. n ≤ rank y.service_id) es
  All-rank m n [] h k = tt
  All-rank m n (e ∷ es) h k = (omega (arith, h, k.0), All-rank m n es h k.1)

  -- An event of the lowest rank, which every bound on all events bounds as well.
  pub lowest :
      (measure : Text → ℕ) (e : ServiceFailureEvent) (es : List ServiceFailureEvent)
      → (id : Text) × All (λ y. rank id ≤ rank y.service_id) (e ∷ es)
        × ((n : ℕ) → All (λ y. n ≤ measure y.service_id) (e ∷ es) → n ≤ measure id)
  lowest measure e [] = (e.service_id, (omega arith, tt), λ n h. h.0)
  lowest measure e (f ∷ es) =
      let (id, least, bound) = lowest measure f es in
      elim (Bool-cases (ltb (rank e.service_id) (rank id))) [
        | inl l ↦ (
          e.service_id,
          (omega arith, All-rank (rank id) (rank e.service_id) (f ∷ es) (ground arith) least),
          λ n h. h.0,
        )
        | inr l ↦ (id, (ground arith, least), λ n h. bound n h.1)
      ]

module _ (deps : Text → ℕ) where
  choose_root-taken :
      (root e : ServiceFailureEvent) (least : Option ℕ) (es : List ServiceFailureEvent)
      → below (deps e.service_id) least ≡ true
      → choose_root deps root least (e ∷ es) ≡ choose_root deps e (some (deps e.service_id)) es
  unfolding choose_root
  choose_root-taken root e least es h = rw (h) refl

  choose_root-left :
      (root e : ServiceFailureEvent) (least : Option ℕ) (es : List ServiceFailureEvent)
      → below (deps e.service_id) least ≡ false
      → choose_root deps root least (e ∷ es) ≡ choose_root deps root least es
  unfolding choose_root
  choose_root-left root e least es h = rw (h) refl

  abbrev IsLeast : List ServiceFailureEvent → ServiceFailureEvent → Type 0
  IsLeast es c = All (λ y. deps c.service_id ≤ deps y.service_id) es

  choose_root-IsLeast :
      (root : ServiceFailureEvent) (es : List ServiceFailureEvent)
      → IsLeast (root ∷ es) (choose_root deps root (some (deps root.service_id)) es)
  unfolding choose_root
  choose_root-IsLeast root [] = (omega arith, tt)
  choose_root-IsLeast root (e ∷ es) =
      elim (Bool-cases (ltb (deps e.service_id) (deps root.service_id))) [
        | inl l ↦
            let rest = choose_root-IsLeast e es in
            subst (IsLeast (root ∷ e ∷ es))
              (sym (choose_root-taken root e (some (deps root.service_id)) es l))
              (ground (arith, rest.0), rest)
        | inr l ↦
            let rest = choose_root-IsLeast root es in
            subst (IsLeast (root ∷ e ∷ es))
              (sym (choose_root-left root e (some (deps root.service_id)) es l))
              (rest.0, (ground (arith, rest.0), rest.1))
      ]

  abbrev FailsIn : List ServiceFailureEvent → ServiceFailureEvent → Type 0
  FailsIn es c = is_failing es c.service_id ≡ true

  choose_root-FailsIn :
      (root : ServiceFailureEvent) (least : Option ℕ) (es : List ServiceFailureEvent)
      → FailsIn (root ∷ es) (choose_root deps root least es)
  unfolding choose_root
  choose_root-FailsIn root least [] = rw (same_text_refl root.service_id) refl
  choose_root-FailsIn root least (e ∷ es) = elim (Bool-cases (below (deps e.service_id) least)) [
    | inl l ↦
        let rest = choose_root-FailsIn e (some (deps e.service_id)) es in
        subst (FailsIn (root ∷ e ∷ es)) (sym (choose_root-taken root e least es l))
          (ground (arith, rest))
    | inr l ↦
        let rest = choose_root-FailsIn root least es in
        subst (FailsIn (root ∷ e ∷ es)) (sym (choose_root-left root e least es l))
          (ground (arith, rest))
  ]

pub root_of-IsLeast :
    (graph : Graph) (e : ServiceFailureEvent) (es : List ServiceFailureEvent)
    → IsLeast (active_deps graph (e ∷ es)) (e ∷ es) (root_of graph e es)
unfolding choose_root
root_of-IsLeast graph e es = choose_root-IsLeast (active_deps graph (e ∷ es)) e es

pub root_of-FailsIn :
    (graph : Graph) (e : ServiceFailureEvent) (es : List ServiceFailureEvent)
    → is_failing (e ∷ es) (root_of graph e es).service_id ≡ true
unfolding choose_root
root_of-FailsIn graph e es =
    let deps = active_deps graph (e ∷ es) in
    choose_root-FailsIn deps e (some (deps e.service_id)) es
