-- ===== src/Workspace/Capacity.antt =====
-- What the host's budget promises where a workspace is admitted.
use ryvix.Common.{
  ℕ, ◌+◌, ◌≤◌, ◌≡◌, refl, subst, String, Bool, true, not, ◌&&◌, Option, none, some, List, [], ◌∷◌,
  ◌++◌, ◌==◌, ◌⊎◌, inl, inr, ltb, leb, if◌then◌else◌, any, all, length, arith, Bool-cases,
  Option-cases,
}
use ryvix.Common.Text.{Text}
use ryvix.Common.Effect.{Done, ok, M, throw, ◌>>=◌, bind-ok, ok-value}
use ryvix.Workspace.Model.{
  list_containers, inspect_all, Call, Container, Reply, Config, World, Docker, run,
}
use ryvix.Workspace.Budget.{
  is_container_id, is_budget, side_cpu, side_memory, Budget, budget_of, tally_all, is_orphan,
  empty_tally, admit, lift, failed, judge_inspection, judge_names, measure_host, workspace_capacity,
}
use ryvix.Workspace.Tally.{hosts, reserved, cpu_of, memory_of, tally_all-Sums, Sum-cases}

-- One more workspace fits, with its side containers.
abbrev pub Fits : Config → Budget → ℕ → ℕ → List Container → Type 0
Fits config b cpu ram cs =
    (hosts cs + 1 ≤ b.sessions)
    × (reserved (cpu_of config) cs + cpu + side_cpu config ≤ b.cores)
    × (reserved (memory_of config) cs + ram + side_memory config ≤ b.memory)

admit-Fits :
    (config : Config) (b : Budget) (cpu ram : ℕ) (cs : List Container)
    → admit config b cpu ram cs ≡ inr true
    → Fits config b cpu ram cs
unfolding admit
admit-Fits config b cpu ram cs h = elim (Sum-cases (tally_all config cs empty_tally)) [
  | inl (e, x) ↦ absurd (cc (rw (x, admit) at h))
  | inr (t, x) ↦ elim (Bool-cases (any (is_orphan t.sessions) cs)) [
    | inl o ↦ absurd (cc (rw (x, o, admit) at h))
    | inr o ↦
        let (count_eq, cpu_eq, memory_eq) = tally_all-Sums config cs empty_tally t x in
        let fits : (ltb t.count b.sessions
              && leb (t.used_cpu + cpu + side_cpu config) b.cores
              && leb (t.used_memory + ram + side_memory config) b.memory)
            ≡ true =
          cc (rw (x, o, admit) at h) in
        (
          ground (arith, fits, count_eq),
          ground (arith, fits, cpu_eq),
          ground (arith, fits, memory_eq),
        )
  ]
]

judge_inspection-Fits :
    (config : Config) (b : Budget) (cpu ram : ℕ) (names : List Text) (r : Reply)
    → judge_inspection config b cpu ram names r ≡ inr true
    → (cs : List Container) × (r.containers ≡ some cs) × Fits config b cpu ram cs
unfolding judge_inspection
judge_inspection-Fits config b cpu ram names r h = elim (Bool-cases (failed r)) [
  | inl e ↦ absurd (cc (rw (e, judge_inspection) at h))
  | inr e ↦ elim (Option-cases r.containers) [
    | inl n ↦ absurd (cc (rw (e, n, judge_inspection) at h))
    | inr (cs, n) ↦ elim (Bool-cases (not (length cs == length names))) [
      | inl l ↦ absurd (cc (rw (e, n, l, judge_inspection) at h))
      | inr l ↦ (cs, n, admit-Fits config b cpu ram cs (rw (e, n, l, judge_inspection) at h))
    ]
  ]
]

pub run-ok :
    (docker : Docker) (c : Call) (w w' : World) (r : Reply)
    → run docker c w ≡ ok r w'
    → (docker w.calls c ≡ some r) × (w'.calls ≡ w.calls ++ (c ∷ []))
unfolding run
run-ok docker c w w' r h = elim (Option-cases (docker w.calls c)) [
  | inl e ↦ absurd (cc (rw (e, run) at h))
  | inr (s, e) ↦
      let after : World = record w { calls = w.calls ++ (c ∷ []) } in
      let g : ◌≡◌ {A = Done String World Reply} (ok s after) (ok r w') = rw (e, run) at h in
      let same : s ≡ r = ok-value g in
      let left : after ≡ w' = cc g in
      (cc, subst (λ (x : World). x.calls ≡ w.calls ++ (c ∷ [])) left refl)
]

lift-ok : {A : Type 0} (x : String ⊎ A) (a : A) (w w' : World) → lift x w ≡ ok a w' → x ≡ inr a
lift-ok (inl e) a w w' h = absurd (cc h)
lift-ok (inr b) a w w' h = let same : b ≡ a = ok-value h in cc

-- The containers that Docker reports: none, or what it answers to `inspect`.
pub data Inventory (docker : Docker) (w : World) : List Container → Type 0 where
  no_container :
      (r : Reply) → docker w.calls list_containers ≡ some r → r.words ≡ [] → Inventory docker w []
  inspected :
      (r : Reply) (cs : List Container)
      → docker (w.calls ++ (list_containers ∷ [])) inspect_all ≡ some r
      → r.containers ≡ some cs
      → Inventory docker w cs

-- Some containers that Docker reports, beside which one more workspace fits.
abbrev pub Admitted : Docker → Config → Budget → ℕ → ℕ → World → Type 0
Admitted docker config b cpu ram w =
    (cs : List Container) × Inventory docker w cs × Fits config b cpu ram cs

module _ (docker : Docker) (config : Config) (b : Budget) (cpu ram : ℕ) (w : World) where
  judge_names-Fits :
      (listed : Reply) (names : List Text) (d w' : World)
      → 1 ≤ b.sessions
      → docker w.calls list_containers ≡ some listed
      → listed.words ≡ names
      → d.calls ≡ w.calls ++ (list_containers ∷ [])
      → judge_names docker config b cpu ram names d ≡ ok true w'
      → Admitted docker config b cpu ram w
  unfolding judge_names hosts reserved
  judge_names-Fits listed [] d w' some_session answer words after h =
      let fits : (leb (cpu + side_cpu config) b.cores && leb (ram + side_memory config) b.memory)
          ≡ true =
        ok-value h in
      (
        [],
        no_container listed answer words,
        (omega (arith, some_session), ground (arith, fits), ground (arith, fits)),
      )
  judge_names-Fits listed (name ∷ names) d w' some_session answer words after h =
      let judge : Reply → M String World Bool =
        λ r. lift (judge_inspection config b cpu ram (name ∷ names) r) in
      elim (Bool-cases (not (all is_container_id (name ∷ names)))) [
        | inl e ↦ absurd (cc (rw (e, judge_names) at h))
        | inr e ↦
            let g : (run docker inspect_all >>= judge) d ≡ ok true w' = rw (e, judge_names) at h in
            let (r, m, inspected_eq, judged) = bind-ok (run docker inspect_all) judge d w' true g in
            let asked = run-ok docker inspect_all d m r inspected_eq in
            let verdict =
              lift-ok (judge_inspection config b cpu ram (name ∷ names) r) true m w' judged in
            let (cs, found, fits) =
              judge_inspection-Fits config b cpu ram (name ∷ names) r verdict in
            (
              cs,
              inspected r cs (subst (λ calls. docker calls inspect_all ≡ some r) after asked.0)
                  found,
              fits,
            )
      ]

  measure_host-Fits :
      (w' : World)
      → 1 ≤ b.sessions
      → measure_host docker config cpu ram (some b) w ≡ ok true w'
      → Admitted docker config b cpu ram w
  unfolding measure_host
  measure_host-Fits w' some_session h =
      let judge : Reply → M String World Bool = λ r.
        if failed r
        then throw "Workspace inventory unavailable"
        else judge_names docker config b cpu ram r.words in
      let (r, d, listed, judged) = bind-ok (run docker list_containers) judge w w' true h in
      let asked = run-ok docker list_containers w d r listed in
      elim (Bool-cases (failed r)) [
        | inl e ↦ absurd (cc (rw (e) at judged))
        | inr e ↦
            judge_names-Fits r r.words d w' some_session asked.0 refl asked.1 (rw (e) at judged)
      ]

budget_of-some :
    (config : Config) (sessions : Option ℕ) (b : Budget)
    → budget_of config sessions ≡ some b
    → 1 ≤ b.sessions
unfolding budget_of
budget_of-some config none b h = absurd (cc h)
budget_of-some config (some n) b h = elim (Option-cases config.memory_budget) [
  | inl e ↦ absurd (cc (rw (e, budget_of) at h))
  | inr (memory, e) ↦ elim (Option-cases config.cpu_budget) [
    | inl c ↦ absurd (cc (rw (e, c, budget_of) at h))
    | inr (cores, c) ↦
        let x : Budget = record { sessions = n; memory = memory; cores = cores } in
        elim (Bool-cases (is_budget config.static_mode x)) [
          | inr t ↦ absurd (cc (rw (e, c, t, budget_of) at h))
          | inl t ↦
              let same : x ≡ b = cc (rw (e, c, t, budget_of) at h) in
              subst (λ (y : Budget). 1 ≤ y.sessions) same (ground (arith, t))
        ]
  ]
]

-- If a budget is set and a workspace is admitted, then the budget is well formed, and with the
-- containers that Docker reports, each workspace counted with what is reserved beside it, the new
-- one exceeds neither its sessions nor its cores nor its memory.
pub workspace_capacity-Fits :
    (docker : Docker) (config : Config) (cpu ram : ℕ) (sessions : Option ℕ) (w w' : World)
    → config.max_sessions ≡ some sessions
    → workspace_capacity docker config cpu ram w ≡ ok true w'
    → (b : Budget) × (budget_of config sessions ≡ some b) × Admitted docker config b cpu ram w
unfolding workspace_capacity
workspace_capacity-Fits docker config cpu ram sessions w w' set h =
    let g : measure_host docker config cpu ram (budget_of config sessions) w ≡ ok true w' =
      rw (set, workspace_capacity) at h in
    elim (Option-cases (budget_of config sessions)) [
      | inl e ↦ absurd (cc (rw (e, measure_host) at g))
      | inr (b, e) ↦ (
        b,
        e,
        measure_host-Fits docker config b cpu ram w w' (budget_of-some config sessions b e)
            (rw (e) at g),
      )
    ]
