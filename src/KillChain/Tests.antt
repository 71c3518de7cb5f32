-- ===== src/KillChain/Tests.antt =====
-- A scan, an injection and an escalation from one address.
use ryvix.Common.{
  ℕ, ◌+◌, ◌≡◌, refl, ◌&&◌, none, some, List, [], ◌∷◌, leb, if◌then◌else◌, map, keep, arith, ◌-◌,
}
use ryvix.Common.Text.{Text, text}
use ryvix.KillChain.{
  reconnaissance, initial_foothold, data_exfiltration_or_destruction, privilege_escalation,
  SecurityEventSignal, Observation, map_threat_to_stage, evaluate_chain, is_relevant, is_recent,
  signal_of, window_duration, build_narrative,
}
use ryvix.KillChain.Stages.{IsHighest}
use ryvix.KillChain.Laws.{
  is_contained, record_all, evaluate_chain-is_contained, evaluate_chain-IsHighest,
  record_all-is_recent,
}

abbrev upper : Text → Text
upper = map (λ c. if leb b'a' c && leb c b'z' then c - 32 else c)

abbrev digit : ℕ → Text
digit n = (n + b'0') ∷ []

abbrev seen : Text → ℕ → Observation
seen threat at = record {
  source_ip = text "10.0.0.9";
  target_host_id = text "web-1";
  threat_type = threat;
  raw_indicator = text "log";
  timestamp = at;
}

abbrev wave : List Observation
wave =
    seen (text "port scan") 1000
    ∷ seen (text "xss") 50000
    ∷ seen (text "sudo abuse") 1801000
    ∷ seen (text "ransomware") 1801001
    ∷ []

abbrev history : List SecurityEventSignal
history = record_all upper digit 1800000 [] wave

scan_first :
    map_threat_to_stage upper (text "dns_tunnel") (text "enumerated hosts") ≡ reconnaissance
unfolding map_threat_to_stage
scan_first = refl

zero_window : window_duration (some 0) ≡ window_duration none
unfolding window_duration
zero_window = refl

-- The scan has left the window, and the chain stands at its last stage.
stages_left :
    (evaluate_chain digit history (text "10.0.0.9") (text "*")).active_stages
    ≡ initial_foothold ∷ privilege_escalation ∷ data_exfiltration_or_destruction ∷ []
unfolding evaluate_chain record_all
stages_left = refl

isolated :
    build_narrative digit (text "h") (reconnaissance ∷ []) 1 7
    ≡ text "Isolated single-stage activity detected from IP h (RECONNAISSANCE). Severity: 7/100."
unfolding build_narrative
isolated = refl

evaluate_chain-is_contained_example :
    (evaluate_chain digit history (text "10.0.0.9") (text "web-1")).is_preempted
    ≡ is_contained
        (evaluate_chain digit history (text "10.0.0.9") (text "web-1")).current_stage
        (evaluate_chain digit history (text "10.0.0.9") (text "web-1")).event_count
evaluate_chain-is_contained_example =
    evaluate_chain-is_contained digit history (text "10.0.0.9") (text "web-1")

evaluate_chain-IsHighest_example :
    IsHighest
      (keep (is_relevant (text "10.0.0.9") (text "*")) history)
      (evaluate_chain digit history (text "10.0.0.9") (text "*")).current_stage
evaluate_chain-IsHighest_example =
    evaluate_chain-IsHighest digit history (text "10.0.0.9") (text "*")

record_all-is_recent_example :
    record_all upper digit 1800000 [] wave
    ≡ keep (is_recent 1800000 1801001) (map (signal_of upper) wave)
record_all-is_recent_example =
    record_all-is_recent upper digit 1800000 wave
      (omega arith, (omega arith, (omega arith, (omega arith, tt))))
