-- ===== src/Workspace/Allocation.antt =====
-- Starting a workspace, for any three properties of the sessions and ports that hold before it,
-- where it returns and where it throws, and one that holds while its port is reserved.
use ryvix.Common.{some, ℕ, ◌*◌, ◌≡◌, refl, String, Bool, true, false, List, ltb, if◌then◌else◌}
use ryvix.Common.Effect.{M, return, throw, ◌>>◌, catch, Leads, then-Leads, catch-Leads, if-Leads}
use ryvix.Common.Table.{insert, Table}
use ryvix.Workspace.Model.{
  WorkspaceSession, create_network, run_container, remove_container, remove_network, Call, Reply,
  World, Docker, add, delete, modify, run, checked, attempt,
}
use ryvix.Workspace.Lifetime.{Options, search_port, give_back, new_session, register, allocate}
use ryvix.Workspace.Effects.{On, checked-On, attempt-On}

abbrev pub State : Type 1
State = Table WorkspaceSession → List ℕ → Type 0

module _ (docker : Docker) (R : State) (P : State) (id port : ℕ)
    (back : (ss : Table WorkspaceSession) (ps : List ℕ) → R ss ps → P ss (delete port ps)) where
  give_back-Leads :
      (network_created : Bool) (error : String) (w : World)
      → On R w
      → Leads {A = Reply} (On R) (On P) (give_back docker id port network_created error w)
  unfolding give_back
  give_back-Leads network_created error w h =
      let first : M String World Unit = attempt (run docker (remove_container id)) in
      let network : M String World Unit =
        if network_created then attempt (run docker (remove_network id)) else return tt in
      let release : M String World Unit =
        modify (λ m. record m { allocated_ports = delete port m.allocated_ports }) in
      then-Leads (On P) (On R) (On P) (first >> network >> release) (throw error) w
        (then-Leads (On R) (On P) (On P) (first >> network) release w
          (then-Leads (On R) (On R) (On P) first network w
            (attempt-On R docker (On P) (remove_container id) w h)
            (λ d k.
              if-Leads (On R) (On P) network_created (attempt (run docker (remove_network id)))
                (return tt) d (λ e. attempt-On R docker (On P) (remove_network id) d k) (λ e. k)))
          (λ d k. back d.manager.active_sessions d.manager.allocated_ports k))
        (λ d k. k)

  started :
      (c : Call) (network_created : Bool) (w : World)
      → On R w
      → Leads (On R) (On P) (catch (checked docker c) (give_back docker id port network_created) w)
  started c network_created w h =
      catch-Leads (On R) (On R) (On P) (checked docker c) (give_back docker id port network_created)
        w (checked-On R docker c w h) (λ e d k. give_back-Leads network_created e d k)

-- The four steps that an allocation takes between the properties.
module _ (S Q P : State) (R : ℕ → State)
    (reserve : (ss : Table WorkspaceSession) (ps : List ℕ)
      → S ss ps
      → ltb 3999 (search_port ps 900 3100) ≡ false
      → R (search_port ps 900 3100) ss (add (search_port ps 900 3100) ps))
    (back : (port : ℕ) (ss : Table WorkspaceSession) (ps : List ℕ)
      → R port ss ps
      → P ss (delete port ps))
    (place : (id port : ℕ) (s : WorkspaceSession) (ss : Table WorkspaceSession) (ps : List ℕ)
      → s.preview_port ≡ some port
      → R port ss ps
      → Q (insert id s ss) ps)
    (stay : (ss : Table WorkspaceSession) (ps : List ℕ) → S ss ps → P ss ps) where
  pub allocate-Leads :
      (docker : Docker) (id task project : ℕ) (options : Options) (now : ℕ) (w : World)
      → On S w
      → Leads (On Q) (On P) (allocate docker id task project options now w)
  unfolding allocate
  allocate-Leads docker id task project options now w h =
      let port = search_port w.manager.allocated_ports 900 3100 in
      let session : WorkspaceSession = new_session task project options now port in
      let T : World → Type 0 = On (R port) in
      let add_port : M String World Unit =
        modify (λ m. record m { allocated_ports = add port m.allocated_ports }) in
      let network : M String World Reply =
        catch (checked docker (create_network id)) (give_back docker id port false) in
      let call = run_container id options.cpu options.ram (options.ttl * 60) in
      let container : M String World Reply =
        catch (checked docker call) (give_back docker id port true) in
      let put : M String World Unit = modify (register id session) in
      let E : World → Type 0 = On P in
      if-Leads (On Q) E (ltb 3999 port) (throw "Workspace preview ports exhausted")
        (add_port >> network >> container >> put >> return session) w
        (λ e. stay w.manager.active_sessions w.manager.allocated_ports h)
        (λ e.
          then-Leads (On Q) (On Q) E (add_port >> network >> container >> put) (return session) w
            (then-Leads T (On Q) E (add_port >> network >> container) put w
              (then-Leads T T E (add_port >> network) container w
                (then-Leads T T E add_port network w
                  (reserve w.manager.active_sessions w.manager.allocated_ports h e)
                  (λ d k.
                    started docker (R port) P id port (back port) (create_network id) false d k))
                (λ d k. started docker (R port) P id port (back port) call true d k))
              (λ d k.
                place id port session d.manager.active_sessions d.manager.allocated_ports refl k))
            (λ d k. k))
