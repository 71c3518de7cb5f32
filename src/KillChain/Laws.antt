-- ===== src/KillChain/Laws.antt =====
-- What a progression says of the signals, and which signals the window holds.
use ryvix.Common.{
  ℕ, ◌≤◌, ◌≡◌, refl, Bool, true, false, List, [], ◌∷◌, ◌++◌, leb, length, keep, map, append_assoc,
  append-nil, arith, Bool-cases, inl, inr,
}
use ryvix.Common.Text.{Text}
use ryvix.KillChain.{
  KillChainStage, reconnaissance, initial_foothold, privilege_escalation, persistence_established,
  lateral_movement, data_exfiltration_or_destruction, SecurityEventSignal, last_or, stages_of,
  is_relevant, progression_score_of, evaluate_chain, is_recent, prune_old_events, Observation,
  signal_of, record_signal,
}
use ryvix.KillChain.Stages.{IsHighest, last_or-IsHighest}

-- From how many signals on a chain is contained, by its highest stage.
unfoldable pub is_contained : KillChainStage → ℕ → Bool
is_contained reconnaissance n = false
is_contained initial_foothold n = false
is_contained privilege_escalation n = leb 5 n
is_contained persistence_established n = leb 3 n
is_contained lateral_movement n = leb 1 n
is_contained data_exfiltration_or_destruction n = true

score-is_contained :
    (stage : KillChainStage) (n : ℕ) → leb 60 (progression_score_of stage n) ≡ is_contained stage n
unfolding progression_score_of is_contained
score-is_contained reconnaissance n = ground arith
score-is_contained initial_foothold n = ground arith
score-is_contained privilege_escalation n = ground arith
score-is_contained persistence_established n = ground arith
score-is_contained lateral_movement n = ground arith
score-is_contained data_exfiltration_or_destruction n = ground arith

-- A chain is contained exactly from five signals on if its highest stage is the escalation of
-- privileges, from three on at persistence, from one on at lateral movement, always at
-- exfiltration, and never below: no number of scans or intrusions alone contains it.
pub evaluate_chain-is_contained :
    (print : ℕ → Text) (history : List SecurityEventSignal) (source_ip target_host_id : Text)
    → (evaluate_chain print history source_ip target_host_id).is_preempted
      ≡ is_contained
          (evaluate_chain print history source_ip target_host_id).current_stage
          (evaluate_chain print history source_ip target_host_id).event_count
unfolding evaluate_chain
evaluate_chain-is_contained print history source_ip target_host_id =
    let events = keep (is_relevant source_ip target_host_id) history in
    score-is_contained (last_or reconnaissance (stages_of events)) (length events)

-- The current stage of a progression is at or above the stage of every signal of the source and
-- host, and it is the stage of one of them if there are any.
pub evaluate_chain-IsHighest :
    (print : ℕ → Text) (history : List SecurityEventSignal) (source_ip target_host_id : Text)
    → IsHighest
        (keep (is_relevant source_ip target_host_id) history)
        (evaluate_chain print history source_ip target_host_id).current_stage
unfolding evaluate_chain
evaluate_chain-IsHighest print history source_ip target_host_id =
    last_or-IsHighest (keep (is_relevant source_ip target_host_id) history)

-- A whole history of signals, from an empty correlator.
unfoldable pub record_all :
    (Text → Text)
    → (ℕ → Text)
    → ℕ
    → List SecurityEventSignal
    → List Observation
    → List SecurityEventSignal
unfolding record_signal
record_all upper print window history [] = history
record_all upper print window history (o ∷ os) =
    record_all upper print window (record_signal upper print window o history).1 os

-- The times of a list of observations never go back, from a time on.
abbrev pub IsOrdered : ℕ → List Observation → Type 0
IsOrdered now [] = Unit
IsOrdered now (o ∷ os) = (now ≤ o.timestamp) × IsOrdered o.timestamp os

abbrev pub latest : ℕ → List Observation → ℕ
latest now [] = now
latest now (o ∷ os) = latest o.timestamp os

keep-append :
    {A : Type 0} (p : A → Bool) (xs ys : List A) → keep p (xs ++ ys) ≡ keep p xs ++ keep p ys
keep-append p [] ys = refl
keep-append p (x ∷ xs) ys = elim (Bool-cases (p x)) [
  | inl e ↦ rw (e) (cc (keep-append p xs ys))
  | inr e ↦ rw (e) (keep-append p xs ys)
]

keep-later :
    (window now later : ℕ) (es : List SecurityEventSignal)
    → now ≤ later
    → keep (is_recent window later) (keep (is_recent window now) es)
      ≡ keep (is_recent window later) es
keep-later window now later [] h = refl
keep-later window now later (e ∷ es) h = elim (Bool-cases (is_recent window now e)) [
  | inl k ↦ elim (Bool-cases (is_recent window later e)) [
    | inl l ↦ rw (k, l) (cc (keep-later window now later es h))
    | inr l ↦ rw (k, l) (keep-later window now later es h)
  ]
  | inr k ↦
      let l : is_recent window later e ≡ false = ground arith in
      rw (k, l) (keep-later window now later es h)
]

module _ (upper : Text → Text) (print : ℕ → Text) (window : ℕ) where
  record_all-from :
      (now : ℕ) (seen : List SecurityEventSignal) (os : List Observation)
      → IsOrdered now os
      → record_all upper print window (keep (is_recent window now) seen) os
        ≡ keep (is_recent window (latest now os)) (seen ++ map (signal_of upper) os)
  unfolding record_all record_signal prune_old_events
  record_all-from now seen [] h = cc (append-nil seen)
  record_all-from now seen (o ∷ os) h =
      let s : SecurityEventSignal = signal_of upper o in
      let late = keep (is_recent window o.timestamp) in
      let step : late (keep (is_recent window now) seen ++ (s ∷ [])) ≡ late (seen ++ (s ∷ [])) =
        rw
          (
            keep-append (is_recent window o.timestamp) (keep (is_recent window now) seen) (s ∷ []),
            keep-append (is_recent window o.timestamp) seen (s ∷ []),
            keep-later window now o.timestamp seen h.0,
          )
          refl in
      rw (step, ← append_assoc seen (s ∷ []) (map (signal_of upper) os))
        (record_all-from o.timestamp (seen ++ (s ∷ [])) os h.1)

  -- If the times of the recorded signals never go back, the correlator holds exactly the signals
  -- within the window before the latest one, in their order: pruning at each call loses none of
  -- them.
  pub record_all-is_recent :
      (os : List Observation)
      → IsOrdered 0 os
      → record_all upper print window [] os
        ≡ keep (is_recent window (latest 0 os)) (map (signal_of upper) os)
  record_all-is_recent os h = record_all-from 0 [] os h
