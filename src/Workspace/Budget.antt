-- ===== src/Workspace/Budget.antt =====
-- The budget of the host: workspaceCapacity of services/src/workspace/host-budget.ts. CPU is in
-- hundredths of a core and memory in mebibytes; a value that Docker does not report is 0.
use ryvix.Common.{
  ℕ, suc, ◌+◌, String, Bool, true, not, ◌&&◌, ◌||◌, Option, none, some, List, [], ◌∷◌, ◌==◌, ◌⊎◌,
  inl, inr, ltb, leb, if◌then◌else◌, any, all, length, str_eq, holds,
}
use ryvix.Common.Text.{Text}
use ryvix.Common.Effect.{M, return, throw, ◌>>=◌}
use ryvix.Workspace.Model.{
  list_containers, inspect_all, Container, Reply, Config, World, Docker, has, run,
}

abbrev pub side_cpu : Config → ℕ
side_cpu config = if config.static_mode then 50 else 100

abbrev pub side_memory : Config → ℕ
side_memory config = if config.static_mode then 128 else 256

-- A budget that is set: its sessions, memory and cores.
pub record Budget : Type 0 where
  pub sessions : ℕ
  pub memory : ℕ
  pub cores : ℕ

-- The negation of the guard on the budget.
abbrev pub is_budget : Bool → Budget → Bool
is_budget small b =
    leb 1 b.sessions
    && leb b.sessions (if small then 1 else 20)
    && leb (if small then 320 else 2304) b.memory
    && not (small && ltb 384 b.memory)
    && leb (if small then 75 else 200) b.cores

-- The budget, where all three of its numbers are well formed and pass the guard.
unfoldable pub budget_of : Config → Option ℕ → Option Budget
budget_of config none = none
budget_of config (some sessions) = elim config.memory_budget [
  | none ↦ none
  | some memory ↦ elim config.cpu_budget [
    | none ↦ none
    | some cores ↦
        let b : Budget = record { sessions = sessions; memory = memory; cores = cores } in
        if is_budget config.static_mode b then some b else none
  ]
]

-- `/^[a-f0-9]{12,64}$/`
abbrev pub is_container_id : Text → Bool
is_container_id id =
    leb 12 (length id)
    && leb (length id) 64
    && all (λ c. (leb b'a' c && leb c b'f') || (leb b'0' c && leb c b'9')) id

-- The state of the first loop.
pub record Tally : Type 0 where
  pub count : ℕ
  pub used_cpu : ℕ
  pub used_memory : ℕ
  pub sessions : List ℕ

abbrev pub is_bounded_side : Container → Bool
is_bounded_side c = ltb 0 c.memory && leb c.memory 128 && ltb 0 c.cpu && leb c.cpu 50

abbrev pub counted : Config → Container → ℕ → Tally → Tally
counted config c session t = record {
  count = suc t.count;
  used_cpu = t.used_cpu + (c.cpu + side_cpu config);
  used_memory = t.used_memory + (c.memory + side_memory config);
  sessions = session ∷ t.sessions;
}

-- One turn of the first loop.
unfoldable pub tally_one : Config → Container → Tally → String ⊎ Tally
tally_one config c t = elim c.session [
  | none ↦ inl "Unknown workspace allocation"
  | some session ↦ if not c.is_workspace then inl "Unknown workspace allocation" else elim c.role [
    | some role ↦
        if config.static_mode && not (str_eq role "preview-relay")
        then inl "Static host has an unexpected sidecar"
        else if not (is_bounded_side c)
        then inl "Unbounded workspace sidecar"
        else inr t
    | none ↦
        if c.cpu == 0 || c.memory == 0 || has session t.sessions
        then inl "Unbounded workspace allocation"
        else inr (counted config c session t)
  ]
]

unfoldable pub tally_all : Config → List Container → Tally → String ⊎ Tally
unfolding tally_one
tally_all config [] t = inr t
tally_all config (c ∷ cs) t = elim (tally_one config c t) [
  | inl e ↦ inl e
  | inr next ↦ tally_all config cs next
]

-- A container of the second loop that throws.
abbrev pub is_orphan : List ℕ → Container → Bool
is_orphan sessions c =
    not (holds (λ s. has s sessions) c.session)
    || holds (λ r. not (str_eq r "egress-broker" || str_eq r "preview-relay")) c.role

abbrev pub empty_tally : Tally
empty_tally = record { count = 0; used_cpu = 0; used_memory = 0; sessions = [] }

-- Both loops, and whether one more workspace fits.
unfoldable pub admit : Config → Budget → ℕ → ℕ → List Container → String ⊎ Bool
unfolding tally_all
admit config b cpu ram containers = elim (tally_all config containers empty_tally) [
  | inl e ↦ inl e
  | inr t ↦
      if any (is_orphan t.sessions) containers
      then inl "Orphan workspace allocation requires cleanup"
      else inr (
          ltb t.count b.sessions
          && leb (t.used_cpu + cpu + side_cpu config) b.cores
          && leb (t.used_memory + ram + side_memory config) b.memory)
]

abbrev pub lift : {A : Type 0} → String ⊎ A → M String World A
lift (inl e) = throw e
lift (inr a) = return a

abbrev pub failed : Reply → Bool
failed r = not (r.exit_code == 0) || r.timed_out

-- What follows from the answer to `inspect`.
unfoldable pub judge_inspection : Config → Budget → ℕ → ℕ → List Text → Reply → String ⊎ Bool
unfolding admit
judge_inspection config b cpu ram names r =
    if failed r then inl "Workspace inventory unavailable" else elim r.containers [
      | none ↦ inl "Incomplete workspace inventory"
      | some containers ↦
          if not (length containers == length names)
          then inl "Incomplete workspace inventory"
          else admit config b cpu ram containers
    ]

-- What follows from the list of containers.
unfoldable pub judge_names : Docker → Config → Budget → ℕ → ℕ → List Text → M String World Bool
unfolding run judge_inspection
judge_names docker config b cpu ram [] =
    return (leb (cpu + side_cpu config) b.cores && leb (ram + side_memory config) b.memory)
judge_names docker config b cpu ram (name ∷ names) =
    if not (all is_container_id (name ∷ names))
    then throw "Invalid workspace inventory"
    else run docker inspect_all
      >>= (λ (r : Reply). lift (judge_inspection config b cpu ram (name ∷ names) r))

-- `workspaceCapacity` behind the guard on the budget.
unfoldable pub measure_host : Docker → Config → ℕ → ℕ → Option Budget → M String World Bool
unfolding run judge_names
measure_host docker config cpu ram none = throw "Invalid workspace host budget"
measure_host docker config cpu ram (some b) = run docker list_containers >>= (λ (r : Reply).
    if failed r
    then throw "Workspace inventory unavailable"
    else judge_names docker config b cpu ram r.words)

-- `workspaceCapacity`
unfoldable pub workspace_capacity : Docker → Config → ℕ → ℕ → M String World Bool
unfolding budget_of measure_host
workspace_capacity docker config cpu ram = elim config.max_sessions [
  | none ↦ if config.static_mode then throw "Static workspace host budget required" else return true
  | some sessions ↦ measure_host docker config cpu ram (budget_of config sessions)
]
