-- ===== src/KillChain/Stages.antt =====
-- The highest of the stages that signals have reached.
use ryvix.Common.{
  ℕ, ◌≤◌, ◌≡◌, refl, sym, subst, Bool, true, List, [], ◌∷◌, ◌++◌, if◌then◌else◌, any, keep, All,
  arith, Bool-cases, inl, inr, ◌⊎◌,
}
use ryvix.KillChain.{
  KillChainStage, reconnaissance, initial_foothold, privilege_escalation, persistence_established,
  lateral_movement, data_exfiltration_or_destruction, SecurityEventSignal, index_of, same_stage,
  last_or, stages_of,
}

last_or-keep :
    {A : Type 0} (p : A → Bool) (d : A) (xs : List A) (y : A)
    → last_or d (keep p (xs ++ (y ∷ []))) ≡ (if p y then y else last_or d (keep p xs))
unfolding last_or
last_or-keep p d [] y = ground arith
last_or-keep p d (x ∷ xs) y = elim (Bool-cases (p x)) [
  | inl e ↦ rw (e) (last_or-keep p x xs y)
  | inr e ↦ rw (e) (last_or-keep p d xs y)
]

-- The scan of the stages from the last one down.
unfoldable highest : (KillChainStage → Bool) → KillChainStage
highest p =
    if p data_exfiltration_or_destruction
    then data_exfiltration_or_destruction
    else if p lateral_movement
    then lateral_movement
    else if p persistence_established
    then persistence_established
    else if p privilege_escalation
    then privilege_escalation
    else if p initial_foothold
    then initial_foothold
    else reconnaissance

last_or-stages_of :
    (events : List SecurityEventSignal)
    → last_or reconnaissance (stages_of events)
      ≡ highest (λ st. any (λ e. same_stage e.stage st) events)
unfolding highest last_or
last_or-stages_of events =
    let p : KillChainStage → Bool = λ st. any (λ e. same_stage e.stage st) events in
    rw
      (
        last_or-keep p reconnaissance
            (reconnaissance ∷ initial_foothold ∷ privilege_escalation ∷ persistence_established
              ∷ lateral_movement ∷ [])
            data_exfiltration_or_destruction,
        last_or-keep p reconnaissance
            (reconnaissance ∷ initial_foothold ∷ privilege_escalation ∷ persistence_established
              ∷ [])
            lateral_movement,
        last_or-keep p reconnaissance
            (reconnaissance ∷ initial_foothold ∷ privilege_escalation ∷ []) persistence_established,
        last_or-keep p reconnaissance (reconnaissance ∷ initial_foothold ∷ []) privilege_escalation,
        last_or-keep p reconnaissance (reconnaissance ∷ []) initial_foothold,
        last_or-keep p reconnaissance [] reconnaissance,
      )
      (elim (Bool-cases (p reconnaissance)) [ inl e ↦ rw (e) refl | inr e ↦ rw (e) refl ])

-- No stage that is reached lies above the highest one.
index-highest :
    (p : KillChainStage → Bool) (st : KillChainStage)
    → p st ≡ true
    → index_of st ≤ index_of (highest p)
unfolding highest
index-highest p reconnaissance h = ground arith
index-highest p initial_foothold h = ground arith
index-highest p privilege_escalation h = ground arith
index-highest p persistence_established h = ground arith
index-highest p lateral_movement h = ground arith
index-highest p data_exfiltration_or_destruction h = ground arith

All-below :
    (events : List SecurityEventSignal) (n : ℕ)
    → ((st : KillChainStage) → any (λ e. same_stage e.stage st) events ≡ true → index_of st ≤ n)
    → All (λ e. index_of e.stage ≤ n) events
All-below [] n h = tt
All-below (e ∷ events) n h =
    (h e.stage (ground arith), All-below events n (λ st k. h st (ground arith)))

is_reached-highest :
    (p : KillChainStage → Bool) (st : KillChainStage) → p st ≡ true → p (highest p) ≡ true
unfolding highest
is_reached-highest p reconnaissance h = ground arith
is_reached-highest p initial_foothold h = ground arith
is_reached-highest p privilege_escalation h = ground arith
is_reached-highest p persistence_established h = ground arith
is_reached-highest p lateral_movement h = ground arith
is_reached-highest p data_exfiltration_or_destruction h = ground arith

-- A stage at or above those of all signals, and the stage of one of them if there are any.
abbrev pub IsHighest : List SecurityEventSignal → KillChainStage → Type 0
IsHighest events stage =
    All (λ e. index_of e.stage ≤ index_of stage) events
    × ((events ≡ []) ⊎ (any (λ e. same_stage e.stage stage) events ≡ true))

pub last_or-IsHighest :
    (events : List SecurityEventSignal)
    → IsHighest events (last_or reconnaissance (stages_of events))
last_or-IsHighest [] = (tt, inl refl)
last_or-IsHighest (e ∷ events) =
    let p : KillChainStage → Bool = λ st. any (λ x. same_stage x.stage st) (e ∷ events) in
    subst (IsHighest (e ∷ events)) (sym (last_or-stages_of (e ∷ events))) (
      All-below (e ∷ events) (index_of (highest p)) (index-highest p),
      inr (is_reached-highest p e.stage (ground arith)),
    )
