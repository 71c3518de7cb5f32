-- ===== src/Cluster/Laws.antt =====
-- What a response to a threat does (`processNodeTelemetryAndLogs` of
-- services/src/connector/cluster-security.coordinator.ts, behind the analysis).
use ryvix.Common.{
  ℕ, ◌≡◌, Bool, not, Option, none, some, List, [], ◌∷◌, ◌==◌, ap, sym, Bool-cases, inl, inr, length,
  map, keep, ◌∙◌, ◌++◌, subst, true, false,
}
use ryvix.Common.Effect.{M, Done, ok, Done-cases, bind-ok, ok-value, return, ◌>>=◌, ◌>>◌}
use ryvix.Common.Table.{Table}
use ryvix.Cluster.{
  ClusterNode, Capability, cluster_ip_block, Analysis, Broadcast, SecurityIncident, ClusterError,
  Cluster, call, notify_peer, notify, broadcast_to, block_local, block_ip, offending, respond,
  log_threat, log_incident, chosen, new_incident,
}

abbrev pub report : List ℕ → Broadcast
report hosts = record { peers_notified = length hosts; nodes_blocked = hosts }

-- The hosts of the nodes other than one.
abbrev pub other_hosts : ℕ → Table ClusterNode → List ℕ
other_hosts node rows = map (λ r. r.1.hostname) (keep (λ r. not (r.0 == node)) rows)

ok-world : {E W A : Type 0} {a b : A} {w w' : W} → ◌≡◌ {A = Done E W A} (ok a w) (ok b w') → w ≡ w'
ok-world h = cc

module _ {W R : Type 0} (execute : ℕ → Capability → W → Done ClusterError W R) where
  -- The agents of all nodes but one are asked in order to block an address, and all of them answer.
  pub data Notified (node ip host : ℕ) : Table ClusterNode → W → W → Type 0 where
    nobody : (w w' : W) → w ≡ w' → Notified node ip host [] w w'
    itself :
        (p : ClusterNode) (rows : Table ClusterNode) (k : ℕ) (w w' : W)
        → (k == node) ≡ true
        → Notified node ip host rows w w'
        → Notified node ip host ((k, p) ∷ rows) w w'
    asks_peer :
        (p : ClusterNode) (rows : Table ClusterNode) (k : ℕ) (r : R) (w w1 w' : W)
        → (k == node) ≡ false
        → execute k (cluster_ip_block ip host) w ≡ ok r w1
        → Notified node ip host rows w1 w'
        → Notified node ip host ((k, p) ∷ rows) w w'

  -- A call of an agent that returns changes the agents only, as the agent did.
  call-ok :
      (node : ℕ) (k : Capability) (c c' : Cluster W R) (r : R)
      → call execute node k c ≡ ok r c'
      → (execute node k c.agents ≡ ok r c'.agents)
        × (c'.nodes ≡ c.nodes)
        × (c'.incidents ≡ c.incidents)
  unfolding call
  call-ok node k c c' r h = elim (Done-cases (execute node k c.agents)) [
    | inl (x, w, e) ↦ (cc (e, rw (e, call) at h), cc (rw (e, call) at h), cc (rw (e, call) at h))
    | inr (x, w, e) ↦ absurd (cc (rw (e, call) at h))
  ]

  notify_peer-ok :
      (peer hostname ip host : ℕ) (rest : M ClusterError (Cluster W R) (List ℕ))
      (c c' : Cluster W R) (hosts : List ℕ)
      → notify_peer execute peer hostname ip host rest c ≡ ok hosts c'
      → (r : R) × (later : List ℕ) × (c1 : Cluster W R) × (call execute peer
            (cluster_ip_block ip host)
            c
          ≡ ok r c1)
        × (rest c1 ≡ ok later c')
        × (hosts ≡ hostname ∷ later)
  unfolding notify_peer
  notify_peer-ok peer hostname ip host rest c c' hosts h =
      let (r, c1, h0, h1) =
        bind-ok (call execute peer (cluster_ip_block ip host))
          (λ _. rest >>= λ hs. return (hostname ∷ hs)) c c' hosts h in
      let (later, c2, h2, h3) = bind-ok rest (λ hs. return (hostname ∷ hs)) c1 c' hosts h1 in
      (r, later, c1, h0, cc (h2, ok-world h3), sym (ok-value h3))

  -- A broadcast that returns has asked the agents of all other nodes, and names their hosts.
  notify-Notified :
      (node ip host : ℕ) (rows : Table ClusterNode) (c c' : Cluster W R) (hosts : List ℕ)
      → notify execute node ip host rows c ≡ ok hosts c'
      → (hosts ≡ other_hosts node rows)
        × Notified node ip host rows c.agents c'.agents
        × (c'.nodes ≡ c.nodes)
        × (c'.incidents ≡ c.incidents)
  unfolding notify
  notify-Notified node ip host [] c c' hosts h =
      let same : c ≡ c' = ok-world h in
      (
        sym (ok-value h),
        nobody c.agents c'.agents (ap (λ (x : Cluster W R). x.agents) same),
        ap (λ (x : Cluster W R). x.nodes) (sym same),
        ap (λ (x : Cluster W R). x.incidents) (sym same),
      )
  notify-Notified node ip host ((k, p) ∷ rows) c c' hosts h = elim (Bool-cases (k == node)) [
    | inl e ↦
        let (named, told, nodes, log) = notify-Notified node ip host rows c c' hosts (rw e at h) in
        (rw e named, itself p rows k c.agents c'.agents e told, nodes, log)
    | inr e ↦
        let (r, later, c1, h0, h1, same) =
          notify_peer-ok k p.hostname ip host (notify execute node ip host rows) c c' hosts
            (rw e at h) in
        let (asked, nodes1, log1) = call-ok k (cluster_ip_block ip host) c c1 r h0 in
        let (named, told, nodes, log) = notify-Notified node ip host rows c1 c' later h1 in
        (
          rw e (same ∙ ap (λ hs. p.hostname ∷ hs) named),
          asks_peer p rows k r c.agents c1.agents c'.agents e asked told,
          nodes ∙ nodes1,
          log ∙ log1,
        )
  ]

  broadcast_to-Notified :
      (node ip host : ℕ) (o : Option ℕ) (c c' : Cluster W R) (b : Option Broadcast)
      → o ≡ some ip
      → broadcast_to execute node o host c ≡ ok b c'
      → (b ≡ some (report (other_hosts node c.nodes)))
        × Notified node ip host c.nodes c.agents c'.agents
        × (c'.nodes ≡ c.nodes)
        × (c'.incidents ≡ c.incidents)
  unfolding broadcast_to
  broadcast_to-Notified node ip host none c c' b e h = absurd (cc e)
  broadcast_to-Notified node ip host (some x) c c' b e h =
      let own : x ≡ ip = cc e in
      let (hosts, c1, h1, h2) =
        bind-ok (notify execute node x host c.nodes) (λ hs. return (some (report hs))) c c' b h in
      let (named, told, nodes, log) = notify-Notified node x host c.nodes c c1 hosts h1 in
      let same : c1 ≡ c' = ok-world h2 in
      (
        sym (ok-value h2) ∙ ap (λ hs. some (report hs)) named,
        subst (λ (y : ℕ). Notified node y host c.nodes c.agents c'.agents) own
            (subst (λ (d : Cluster W R). Notified node x host c.nodes c.agents d.agents) same told),
        ap (λ (d : Cluster W R). d.nodes) (sym same) ∙ nodes,
        ap (λ (d : Cluster W R). d.incidents) (sym same) ∙ log,
      )

module _ {W R : Type 0} (execute : ℕ → Capability → W → Done ClusterError W R)
    (is_blocked : ℕ → ℕ → W → Bool) (clock : W → ℕ) where
  -- The address is blocked on the node, or its agent says that it is.
  pub data BlockedLocally (node ip reason : ℕ) (w w' : W) : Type 0 where
    already : is_blocked node ip w ≡ true → w ≡ w' → BlockedLocally node ip reason w w'
    blocked :
        (r : R)
        → is_blocked node ip w ≡ false
        → execute node (block_ip (some ip) reason) w ≡ ok r w'
        → BlockedLocally node ip reason w w'

  block_local-ok :
      (node ip : ℕ) (o : Option ℕ) (reason : ℕ) (c c' : Cluster W R)
      → o ≡ some ip
      → block_local execute is_blocked clock node o reason c ≡ ok tt c'
      → BlockedLocally node ip reason c.agents c'.agents
        × (c'.nodes ≡ c.nodes)
        × (c'.incidents ≡ c.incidents)
  unfolding block_local
  block_local-ok node ip none reason c c' e h = absurd (cc e)
  block_local-ok node ip (some x) reason c c' e h =
      let own : x ≡ ip = cc e in
      elim (Bool-cases (is_blocked node x c.agents)) [
        | inl q ↦
            let same : c ≡ c' = ok-world (rw (q, block_local) at h) in
            (
              already (rw (← own) q) (ap (λ (d : Cluster W R). d.agents) same),
              ap (λ (d : Cluster W R). d.nodes) (sym same),
              ap (λ (d : Cluster W R). d.incidents) (sym same),
            )
        | inr q ↦
            let (r, c1, h1, h2) =
              bind-ok (call execute node (block_ip (some x) reason)) (λ _. return tt) c c' tt
                (rw (q, block_local) at h) in
            let (done, nodes, log) = call-ok execute node (block_ip (some x) reason) c c1 r h1 in
            let same : c1 ≡ c' = ok-world h2 in
            (
              subst (λ (y : ℕ). BlockedLocally node y reason c.agents c'.agents) own
                  (subst (λ (d : Cluster W R). BlockedLocally node x reason c.agents d.agents) same
                    (blocked r q done)),
              ap (λ (d : Cluster W R). d.nodes) (sym same) ∙ nodes,
              ap (λ (d : Cluster W R). d.incidents) (sym same) ∙ log,
            )
      ]

  -- A response to a threat from an address that returns: what it has asked of the agents, in order,
  -- and what it has recorded.
  pub record IsContained (node host ip : ℕ) (a : Analysis) (c c' : Cluster W R)
      (i : SecurityIncident R) : Type 0 where
    pub w1 : W
    pub w2 : W
    pub acted : execute node (chosen a) c.agents ≡ ok i.local_action w1
    pub blocked_here : BlockedLocally node ip a.threat_type w1 w2
    pub told : Notified execute node ip host c.nodes w2 c'.agents
    pub broadcast : i.broadcast ≡ some (report (other_hosts node c.nodes))
    pub target : i.target_host ≡ host
    pub threat : i.threat_type ≡ a.threat_type
    pub address : i.offending_ip ≡ some ip
    pub logged : c'.incidents ≡ c.incidents ++ (i ∷ [])
    pub nodes_kept : c'.nodes ≡ c.nodes

  log_threat-ok :
      (host : ℕ) (a : Analysis) (r : R) (b : Option Broadcast) (c c' : Cluster W R)
      (i : SecurityIncident R)
      → log_threat execute is_blocked clock host a r b c ≡ ok i c'
      → (new_incident (clock c.agents) host a r b ≡ i)
        × (c'.agents ≡ c.agents)
        × (c'.nodes ≡ c.nodes)
        × (c'.incidents ≡ c.incidents ++ (i ∷ []))
  unfolding log_threat log_incident
  log_threat-ok host a r b c c' i h =
      let written : new_incident (clock c.agents) host a r b ≡ i = ok-value h in
      let same = ok-world h in
      (
        written,
        ap (λ (d : Cluster W R). d.agents) (sym same),
        ap (λ (d : Cluster W R). d.nodes) (sym same),
        ap (λ (d : Cluster W R). d.incidents) (sym same)
            ∙ ap (λ (x : SecurityIncident R). c.incidents ++ (x ∷ [])) written,
      )

-- A response that returns to a threat with an address has run the chosen action on the node, has had
-- the address blocked there unless the node's agent says that it is, and has then asked the agent of
-- every other node of the cluster, in order, to block it, with each of them answering. Its incident
-- names the host, the threat, the address and the hosts of all other nodes, and is logged behind the
-- others; the nodes are kept.
pub respond-IsContained :
    {W R : Type 0} (execute : ℕ → Capability → W → Done ClusterError W R)
    (is_blocked : ℕ → ℕ → W → Bool) (clock : W → ℕ) (node host ip : ℕ) (a : Analysis)
    (c c' : Cluster W R) (i : SecurityIncident R)
    → offending a ≡ some ip
    → respond execute is_blocked clock node host a c ≡ ok i c'
    → IsContained execute is_blocked clock node host ip a c c' i
unfolding respond
respond-IsContained {W} {R} execute is_blocked clock node host ip a c c' i e h =
    let rest = λ (r : R). broadcast_to execute node (offending a) host >>= λ b.
    log_threat execute is_blocked clock host a r b in
    let (r, c1, h1, k1) =
      bind-ok (call execute node (chosen a))
        (λ r. block_local execute is_blocked clock node (offending a) a.threat_type >> rest r) c c'
        i h in
    let (_, c2, h2, k2) =
      bind-ok (block_local execute is_blocked clock node (offending a) a.threat_type) (λ _. rest r)
        c1 c' i k1 in
    let (b, c3, h3, k3) =
      bind-ok (broadcast_to execute node (offending a) host)
        (λ b. log_threat execute is_blocked clock host a r b) c2 c' i k2 in
    let (acted, nodes1, log1) = call-ok execute node (chosen a) c c1 r h1 in
    let (local, nodes2, log2) =
      block_local-ok execute is_blocked clock node ip (offending a) a.threat_type c1 c2 e h2 in
    let (named, told, nodes3, log3) =
      broadcast_to-Notified execute node ip host (offending a) c2 c3 b e h3 in
    let (written, agents, nodes4, log4) =
      log_threat-ok execute is_blocked clock host a r b c3 c' i k3 in
    let same : c2.nodes ≡ c.nodes = nodes2 ∙ nodes1 in
    record {
      w1 = c1.agents;
      w2 = c2.agents;
      acted =
          acted
          ∙ ap (λ (x : R). ok x c1.agents)
              (ap (λ (x : SecurityIncident R). x.local_action) written);
      blocked_here = local;
      told =
          subst (λ (w : W). Notified execute node ip host c.nodes c2.agents w) (sym agents)
            (subst
              (λ (rows : Table ClusterNode). Notified execute node ip host rows c2.agents c3.agents)
              same told);
      broadcast =
          ap (λ (x : SecurityIncident R). x.broadcast) (sym written)
          ∙ named
          ∙ ap (λ (rows : Table ClusterNode). some (report (other_hosts node rows))) same;
      target = ap (λ (x : SecurityIncident R). x.target_host) (sym written);
      threat = ap (λ (x : SecurityIncident R). x.threat_type) (sym written);
      address = ap (λ (x : SecurityIncident R). x.offending_ip) (sym written) ∙ e;
      logged = log4 ∙ ap (λ (l : List (SecurityIncident R)). l ++ (i ∷ [])) (log3 ∙ log2 ∙ log1);
      nodes_kept = nodes4 ∙ nodes3 ∙ same;
    }
