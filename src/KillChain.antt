-- ===== src/KillChain.antt =====
-- Correlation of attack signals: ai/src/kill-chain-correlator.ts. A score is computed exactly, as
-- the source's quotient is rounded. The parameters are the runtime's `toUpperCase` (`upper`) and the
-- decimal numeral of a number (`print`). A signal's confidence is in hundredths.
pub mod Stages
pub mod Laws
mod Tests
use ryvix.Common.{
  ℕ, zero, suc, ◌+◌, ◌*◌, ◌/◌, min, Bool, true, false, ◌&&◌, ◌||◌, Option, none, some, List, [],
  ◌∷◌, ◌++◌, ◌==◌, leb, if◌then◌else◌, length, any, keep,
}
use ryvix.Common.Text.{Text, text, same_text, includes}

pub data KillChainStage : Type 0 where
  reconnaissance initial_foothold privilege_escalation persistence_established : KillChainStage
  lateral_movement data_exfiltration_or_destruction : KillChainStage

pub record SecurityEventSignal : Type 0 where
  pub timestamp : ℕ
  pub source_ip : Text
  pub target_host_id : Text
  pub threat_type : Text
  pub stage : KillChainStage
  pub confidence : ℕ
  pub raw_indicator : Text

pub record KillChainProgression : Type 0 where
  pub source_ip : Text
  pub target_host_id : Text
  pub active_stages : List KillChainStage
  pub current_stage : KillChainStage
  pub progression_score : ℕ
  pub event_count : ℕ
  pub is_preempted : Bool
  pub narrative_summary : Text
  pub preemptive_remedy_commands : List Text

-- The constructor's window in milliseconds: without one, or at 0, it is 30 minutes.
unfoldable pub window_duration : Option ℕ → ℕ
window_duration none = 1800000
window_duration (some zero) = 1800000
window_duration (some (suc n)) = suc n

abbrev pub index_of : KillChainStage → ℕ
index_of reconnaissance = 0
index_of initial_foothold = 1
index_of privilege_escalation = 2
index_of persistence_established = 3
index_of lateral_movement = 4
index_of data_exfiltration_or_destruction = 5

abbrev pub same_stage : KillChainStage → KillChainStage → Bool
same_stage s t = index_of s == index_of t

abbrev pub ordered_stages : List KillChainStage
ordered_stages =
    reconnaissance ∷ initial_foothold ∷ privilege_escalation ∷ persistence_established
    ∷ lateral_movement ∷ data_exfiltration_or_destruction ∷ []

abbrev pub name_of : KillChainStage → Text
name_of reconnaissance = text "RECONNAISSANCE"
name_of initial_foothold = text "INITIAL_FOOTHOLD"
name_of privilege_escalation = text "PRIVILEGE_ESCALATION"
name_of persistence_established = text "PERSISTENCE_ESTABLISHED"
name_of lateral_movement = text "LATERAL_MOVEMENT"
name_of data_exfiltration_or_destruction = text "DATA_EXFILTRATION_OR_DESTRUCTION"

-- `mapThreatToStage`
unfoldable pub map_threat_to_stage : (Text → Text) → Text → Text → KillChainStage
unfolding includes
map_threat_to_stage upper threat_type raw =
    let mentions : List Text → Bool = any (includes (upper (threat_type ++ (b' ' ∷ raw)))) in
    if mentions (text "SCAN" ∷ text "PROBING" ∷ text "RECON" ∷ text "ENUM" ∷ [])
    then reconnaissance
    else if mentions (
        text "SQL_INJECTION"
        ∷ text "COMMAND_INJECTION"
        ∷ text "GRAPHQL"
        ∷ text "XSS"
        ∷ text "SSRF"
        ∷ text "SSTI"
        ∷ text "PATH_TRAVERSAL"
        ∷ [])
    then initial_foothold
    else if mentions (
        text "PRIVILEGE_ESCALATION"
        ∷ text "PWNKIT"
        ∷ text "DIRTYPIPE"
        ∷ text "SUDO"
        ∷ text "SUID"
        ∷ [])
    then privilege_escalation
    else if mentions (
        text "CRON"
        ∷ text "PERSISTENCE"
        ∷ text "SSH_AUTHORIZED_KEYS"
        ∷ text "SYSTEMD_UNIT_BACKDOOR"
        ∷ [])
    then persistence_established
    else if mentions (text "LATERAL" ∷ text "SMB_RELAY" ∷ text "INTERNAL_PIVOT" ∷ [])
    then lateral_movement
    else if mentions (
        text "EXFILTRATION"
        ∷ text "REVERSE_SHELL"
        ∷ text "RANSOMWARE"
        ∷ text "MINER"
        ∷ text "DNS_TUNNEL"
        ∷ [])
    then data_exfiltration_or_destruction
    else initial_foothold

-- `join(' -> ')`
unfoldable pub join_stages : List KillChainStage → Text
join_stages [] = []
join_stages (s ∷ []) = name_of s
join_stages (s ∷ t ∷ stages) = name_of s ++ text " -> " ++ join_stages (t ∷ stages)

-- `stages[0] || 'NONE'`
abbrev pub first_name : List KillChainStage → Text
first_name [] = text "NONE"
first_name (s ∷ stages) = name_of s

-- `buildNarrative`
unfoldable pub build_narrative : (ℕ → Text) → Text → List KillChainStage → ℕ → ℕ → Text
unfolding join_stages
build_narrative print ip stages count score =
    if leb (length stages) 1
    then text "Isolated single-stage activity detected from IP "
      ++ ip
      ++ text " ("
      ++ first_name stages
      ++ text "). Severity: "
      ++ print score
      ++ text "/100."
    else text "CRITICAL MULTI-STAGE KILL-CHAIN ACTIVE: Attacker from IP "
      ++ ip
      ++ text " progressed across "
      ++ print (length stages)
      ++ text " distinct stages: ["
      ++ join_stages stages
      ++ text "] with "
      ++ print count
      ++ text " logged signals. Preemptive cluster containment recommended (Score: "
      ++ print score
      ++ text "/100)."

-- `generatePreemptionRemedies`
unfoldable pub generate_preemption_remedies : Text → List KillChainStage → List Text
generate_preemption_remedies ip stages =
    let reached : KillChainStage → Bool = λ s. any (same_stage s) stages in
    (text "iptables -I INPUT -s " ++ ip ++ text " -j DROP")
      ∷ (text "ip route add blackhole " ++ ip ++ text "/32 2>/dev/null || true")
      ∷ (if reached privilege_escalation
          then text "pkill -9 -u $(whoami) 2>/dev/null || true"
            ∷ text "chmod 640 /etc/shadow && chown root:shadow /etc/shadow"
            ∷ []
          else [])
    ++ (if reached persistence_established
        then text "ls -la /etc/cron* /var/spool/cron/crontabs && crontab -l"
          ∷ text "find /root/.ssh /home/*/.ssh -name authorized_keys -mmin -120"
          ∷ []
        else [])
    ++ (if reached data_exfiltration_or_destruction
        then (text "ss -K dst " ++ ip ++ text " 2>/dev/null || true")
          ∷ text "pkill -9 -f \"nc|ncat|bash -i|sh -i|python -c.*socket\" 2>/dev/null || true"
          ∷ []
        else [])

-- The last element of a list, or a default.
unfoldable pub last_or : {A : Type 0} → A → List A → A
last_or d [] = d
last_or d (x ∷ xs) = last_or x xs

abbrev pub is_relevant : Text → Text → SecurityEventSignal → Bool
is_relevant source_ip target_host_id e =
    same_text e.source_ip source_ip
    && (same_text target_host_id (text "*") || same_text e.target_host_id target_host_id)

-- `Math.round(stageWeight + countWeight)` at most 100: the weight of a stage is `(i + 1) / 6 * 70`.
unfoldable pub progression_score_of : KillChainStage → ℕ → ℕ
progression_score_of stage count =
    min 100 (((index_of stage + 1) * 70 + 3) / 6 + min 30 (count * 6))

abbrev pub stages_of : List SecurityEventSignal → List KillChainStage
stages_of events = keep (λ st. any (λ e. same_stage e.stage st) events) ordered_stages

-- `evaluateChain`, whose argument `now` the source does not use.
unfoldable pub evaluate_chain :
    (ℕ → Text) → List SecurityEventSignal → Text → Text → KillChainProgression
unfolding same_text last_or progression_score_of build_narrative generate_preemption_remedies
evaluate_chain print event_history source_ip target_host_id =
    let events = keep (is_relevant source_ip target_host_id) event_history in
    let active = stages_of events in
    let current = last_or reconnaissance active in
    let score = progression_score_of current (length events) in
    record {
      source_ip = source_ip;
      target_host_id = target_host_id;
      active_stages = active;
      current_stage = current;
      progression_score = score;
      event_count = length events;
      is_preempted = leb 60 score;
      narrative_summary = build_narrative print source_ip active (length events) score;
      preemptive_remedy_commands = generate_preemption_remedies source_ip active;
    }

-- `e.timestamp >= now - windowDurationMs`
abbrev pub is_recent : ℕ → ℕ → SecurityEventSignal → Bool
is_recent window now e = leb now (e.timestamp + window)

-- `pruneOldEvents`
unfoldable pub prune_old_events : ℕ → ℕ → List SecurityEventSignal → List SecurityEventSignal
prune_old_events window now = keep (is_recent window now)

-- The arguments of `recordSignal`.
pub record Observation : Type 0 where
  pub source_ip : Text
  pub target_host_id : Text
  pub threat_type : Text
  pub raw_indicator : Text
  pub timestamp : ℕ

unfoldable pub signal_of : (Text → Text) → Observation → SecurityEventSignal
unfolding map_threat_to_stage
signal_of upper o = record {
  timestamp = o.timestamp;
  source_ip = o.source_ip;
  target_host_id = o.target_host_id;
  threat_type = o.threat_type;
  stage = map_threat_to_stage upper o.threat_type o.raw_indicator;
  confidence = 95;
  raw_indicator = o.raw_indicator;
}

-- `recordSignal`: the progression, and the history that is left.
unfoldable pub record_signal :
    (Text → Text)
    → (ℕ → Text)
    → ℕ
    → Observation
    → List SecurityEventSignal
    → KillChainProgression × List SecurityEventSignal
unfolding signal_of prune_old_events evaluate_chain
record_signal upper print window o event_history =
    let pruned = prune_old_events window o.timestamp (event_history ++ (signal_of upper o ∷ [])) in
    (evaluate_chain print pruned o.source_ip o.target_host_id, pruned)

-- `clear`
abbrev pub clear : List SecurityEventSignal → List SecurityEventSignal
clear event_history = []
