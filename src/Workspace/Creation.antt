-- ===== src/Workspace/Creation.antt =====
-- createSession, with the check of the host's budget, for the properties of an allocation.
use ryvix.Common.{
  ltb, ◌≡◌, ℕ, String, Bool, true, false, not, ◌&&◌, Option, none, some, List, [], ◌∷◌, all, any,
  str_eq, ◌⊎◌, if◌then◌else◌, Option-cases, inl, inr,
}
use ryvix.Common.Text.{Text}
use ryvix.Common.Effect.{
  Done, ok, err, M, return, throw, ◌>>=◌, ◌>>◌, Leads, bind-Leads, then-Leads, if-Leads, Leads-map,
}
use ryvix.Common.Table.{Table, insert}
use ryvix.Workspace.Model.{
  WorkspaceSession, list_containers, inspect_all, Reply, Config, Manager, World, Docker,
  with_manager, add, delete, modify, run, finally,
}
use ryvix.Workspace.Lifetime.{
  Options, off_profile, over_limits, set_allocating, create_checked, create_identified,
  create_session, allocate, search_port,
}
use ryvix.Workspace.Effects.{On, run-On}
use ryvix.Workspace.Budget.{
  Budget, budget_of, is_container_id, lift, failed, judge_inspection, judge_names, measure_host,
  workspace_capacity,
}
use ryvix.Workspace.Allocation.{State, allocate-Leads}

module _ (P : Table WorkspaceSession → List ℕ → Type 0) (docker : Docker) where
  lift-On : {A : Type 0} (r : String ⊎ A) (w : World) → On P w → Leads (On P) (On P) (lift r w)
  lift-On (inl e) w h = h
  lift-On (inr a) w h = h

  judge_names-On :
      (config : Config) (b : Budget) (cpu ram : ℕ) (names : List Text) (w : World)
      → On P w
      → Leads (On P) (On P) (judge_names docker config b cpu ram names w)
  unfolding judge_names
  judge_names-On config b cpu ram [] w h = h
  judge_names-On config b cpu ram (name ∷ names) w h =
      let judge : Reply → M String World Bool =
        λ r. lift (judge_inspection config b cpu ram (name ∷ names) r) in
      if-Leads (On P) (On P) (not (all is_container_id (name ∷ names)))
        (throw "Invalid workspace inventory") (run docker inspect_all >>= judge) w (λ e. h)
        (λ e.
          bind-Leads (On P) (On P) (On P) (run docker inspect_all) judge w
            (run-On P docker inspect_all w h)
            (λ r d k. lift-On (judge_inspection config b cpu ram (name ∷ names) r) d k))

  measure_host-On :
      (config : Config) (cpu ram : ℕ) (b : Option Budget) (w : World)
      → On P w
      → Leads (On P) (On P) (measure_host docker config cpu ram b w)
  unfolding measure_host
  measure_host-On config cpu ram none w h = h
  measure_host-On config cpu ram (some b) w h =
      let judge : Reply → M String World Bool = λ r.
        if failed r
        then throw "Workspace inventory unavailable"
        else judge_names docker config b cpu ram r.words in
      bind-Leads (On P) (On P) (On P) (run docker list_containers) judge w
        (run-On P docker list_containers w h)
        (λ r d k.
          if-Leads (On P) (On P) (failed r) (throw "Workspace inventory unavailable")
            (judge_names docker config b cpu ram r.words) d (λ e. k)
            (λ e. judge_names-On config b cpu ram r.words d k))

  workspace_capacity-On :
      (config : Config) (cpu ram : ℕ) (w : World)
      → On P w
      → Leads (On P) (On P) (workspace_capacity docker config cpu ram w)
  unfolding workspace_capacity
  workspace_capacity-On config cpu ram w h = elim (Option-cases config.max_sessions) [
    | inl e ↦
        rw (e, Leads)
          (if-Leads (On P) (On P) config.static_mode (throw "Static workspace host budget required")
            (return true) w (λ k. h) (λ k. h))
    | inr (sessions, e) ↦
        rw (e, Leads) (measure_host-On config cpu ram (budget_of config sessions) w h)
  ]

pub finally-Leads :
    {A : Type 0} (Q P : World → Type 0) (m : M String World A) (f : Manager → Manager) (w : World)
    → ((d : World) → Q d → Q (with_manager f d))
    → ((d : World) → P d → P (with_manager f d))
    → Leads Q P (m w)
    → Leads Q P (finally m f w)
finally-Leads {A} Q P m f w keeps keeps_error h = go (m w) h
  where
    go : (d : Done String World A) → Leads Q P d → Leads Q P (finally (λ _. d) f w)
    go (ok a d) k = keeps d k
    go (err e d) k = keeps_error d k

module _ (S Q P : State) (R : ℕ → State)
    (reserve : (ss : Table WorkspaceSession) (ps : List ℕ)
      → S ss ps
      → ltb 3999 (search_port ps 900 3100) ≡ false
      → R (search_port ps 900 3100) ss (add (search_port ps 900 3100) ps))
    (back : (port : ℕ) (ss : Table WorkspaceSession) (ps : List ℕ)
      → R port ss ps
      → P ss (delete port ps))
    (place : (id port : ℕ) (s : WorkspaceSession) (ss : Table WorkspaceSession) (ps : List ℕ)
      → s.preview_port ≡ some port
      → R port ss ps
      → Q (insert id s ss) ps)
    (stay : (ss : Table WorkspaceSession) (ps : List ℕ) → S ss ps → P ss ps) (docker : Docker)
    (config : Config) (id : ℕ) (options : Options) (now : ℕ) where
  stays : (w : World) → On S w → On P w
  stays w h = stay w.manager.active_sessions w.manager.allocated_ports h

  create_checked-Leads :
      (task project : ℕ) (w : World)
      → On S w
      → Leads (On Q) (On P) (create_checked docker config id task project options now w)
  unfolding create_checked
  create_checked-Leads task project w h =
      let full : String = "Workspace host capacity exhausted; retry after preview expiry" in
      let begin : Bool → M String World WorkspaceSession =
        λ free. if free then allocate docker id task project options now else throw full in
      let measure : M String World Bool =
        workspace_capacity docker config options.cpu options.ram in
      let start : M String World Unit = modify (set_allocating true) in
      if-Leads (On Q) (On P) w.manager.allocating (throw "Workspace allocation already in progress")
        (start >> finally (measure >>= begin) (set_allocating false)) w (λ e. stays w h)
        (λ e.
          then-Leads (On S) (On Q) (On P) start (finally (measure >>= begin) (set_allocating false))
            w h
            (λ d k.
              finally-Leads (On Q) (On P) (measure >>= begin) (set_allocating false) d (λ x y. y)
                (λ x y. y)
                (bind-Leads (On S) (On Q) (On P) measure begin d
                  (Leads-map (On S) (On S) (On S) (On P) (measure d) (λ x y. y) stays
                    (workspace_capacity-On S docker config options.cpu options.ram d k))
                  (λ free x y.
                    if-Leads (On Q) (On P) free (allocate docker id task project options now)
                      (throw full) x
                      (λ t.
                        allocate-Leads S Q P R reserve back place stay docker id task project
                          options now x y)
                      (λ t. stays x y)))))

  create_identified-Leads :
      (task project : Option ℕ) (w : World)
      → On S w
      → Leads (On Q) (On P) (create_identified docker config id options now task project w)
  unfolding create_identified
  create_identified-Leads none project w h = stays w h
  create_identified-Leads (some task) none w h = stays w h
  create_identified-Leads (some task) (some project) w h =
      let create : M String World WorkspaceSession =
        create_checked docker config id task project options now in
      if-Leads (On Q) (On P) (not (any (str_eq options.image) config.allowed_images))
        (throw "Workspace image is not approved")
        (if over_limits options then throw "Workspace resource limits exceeded" else create) w
        (λ e. stays w h)
        (λ e.
          if-Leads (On Q) (On P) (over_limits options) (throw "Workspace resource limits exceeded")
            create w (λ k. stays w h) (λ k. create_checked-Leads task project w h))

  pub create_session-Leads :
      (w : World) → On S w → Leads (On Q) (On P) (create_session docker config id options now w)
  unfolding create_session
  create_session-Leads w h =
      let create : M String World WorkspaceSession =
        create_identified docker config id options now options.task_id options.project_id in
      if-Leads (On Q) (On P) (config.static_mode && off_profile config options)
        (throw "Static host only accepts its bounded static profile") create w (λ e. stays w h)
        (λ e. create_identified-Leads options.task_id options.project_id w h)
