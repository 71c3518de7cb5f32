-- ===== src/Memory/Laws.antt =====
-- The bounds of the working memory.
use ryvix.Common.{
  ℕ, zero, suc, ◌+◌, ◌≡◌, ◌≤◌, ◌<◌, refl, true, false, List, [], ◌∷◌, ◌++◌, ltb, is_some, length,
  arith, All, Bool-cases, inl, inr, length-take_last, ◌==◌, leb, keep, ap,
}
use ryvix.Common.Table.{lookup, update, insert, remove}
use ryvix.Memory.{
  WorkingTurn, SessionWorkingMemory, Sessions, slice_last, get_or_create, push_turn, record_turn,
  set_scratchpad, clear_session, prune_expired, Call, records, scribbles, clears, prunes, step, run,
}

module _ (max_turns : ℕ) where
  -- A row of a session with at most `max_turns` turns.
  abbrev pub Fits : ℕ × SessionWorkingMemory → Type 0
  Fits (id, s) = length s.turns ≤ max_turns

  update-Fits :
      (k : ℕ) (f : SessionWorkingMemory → SessionWorkingMemory) (m : Sessions)
      → ((s : SessionWorkingMemory) → length s.turns ≤ max_turns → length (f s).turns ≤ max_turns)
      → All Fits m
      → All Fits (update k f m)
  unfolding update
  update-Fits k f [] hf h = h
  update-Fits k f ((j, s) ∷ m) hf (hs, hm) = elim (Bool-cases (j == k)) [
    | inl e ↦ rw e (hf s hs, hm)
    | inr e ↦ rw e (hs, update-Fits k f m hf hm)
  ]

  insert-Fits :
      (k : ℕ) (s : SessionWorkingMemory) (m : Sessions)
      → length s.turns ≤ max_turns
      → All Fits m
      → All Fits (insert k s m)
  unfolding insert
  insert-Fits k s [] hs h = (hs, tt)
  insert-Fits k s ((j, r) ∷ m) hs (hr, hm) = (hr, insert-Fits k s m hs hm)

  remove-Fits : (k : ℕ) (m : Sessions) → All Fits m → All Fits (remove k m)
  unfolding remove
  remove-Fits k [] h = h
  remove-Fits k ((j, s) ∷ m) (hs, hm) = elim (Bool-cases (j == k)) [
    | inl e ↦ rw e (remove-Fits k m hm)
    | inr e ↦ rw e (hs, remove-Fits k m hm)
  ]

  prune-Fits : (ttl now : ℕ) (m : Sessions) → All Fits m → All Fits (prune_expired ttl now m).1
  unfolding prune_expired
  prune-Fits ttl now [] h = h
  prune-Fits ttl now ((id, s) ∷ m) (hs, hm) = elim (Bool-cases (ltb (s.last_active_at + ttl) now)) [
    | inl e ↦ rw e (prune-Fits ttl now m hm)
    | inr e ↦ rw e (hs, prune-Fits ttl now m hm)
  ]

  create-Fits : (now id : ℕ) (m : Sessions) → All Fits m → All Fits (get_or_create now id m)
  unfolding get_or_create
  create-Fits now id m h = elim (Bool-cases (is_some (lookup id m))) [
    | inl e ↦ rw e (update-Fits id _ m (λ s k. k) h)
    | inr e ↦ rw e (insert-Fits id _ m (omega arith) h)
  ]

length-slice_last : (n : ℕ) (turns : List WorkingTurn) → 0 < n → length (slice_last n turns) ≤ n
length-slice_last zero turns h = absurd (omega (arith, h))
length-slice_last (suc n) turns h = omega (arith, length-take_last (suc n) turns)

length-push_turn :
    (max_turns : ℕ) (turn : WorkingTurn) (turns : List WorkingTurn)
    → 0 < max_turns
    → length (push_turn max_turns turn turns) ≤ max_turns
unfolding push_turn
length-push_turn max_turns turn turns h =
    elim (Bool-cases (ltb max_turns (length (turns ++ (turn ∷ []))))) [
      | inl e ↦ rw e (length-slice_last max_turns (turns ++ (turn ∷ [])) h)
      | inr e ↦ rw e (ground arith)
    ]

step-Fits :
    (max_turns ttl : ℕ) (m : Sessions) (c : ℕ × Call)
    → 0 < max_turns
    → All (Fits max_turns) m
    → All (Fits max_turns) (step max_turns ttl m c)
unfolding step record_turn set_scratchpad clear_session
step-Fits max_turns ttl m (now, records id turn) p h =
    update-Fits max_turns id _ (get_or_create now id m)
      (λ s k. length-push_turn max_turns turn s.turns p) (create-Fits max_turns now id m h)
step-Fits max_turns ttl m (now, scribbles id key value) p h =
    update-Fits max_turns id _ (get_or_create now id m) (λ s k. k)
      (create-Fits max_turns now id m h)
step-Fits max_turns ttl m (now, clears id) p h = remove-Fits max_turns id m h
step-Fits max_turns ttl m (now, prunes) p h = prune-Fits max_turns ttl now m h

-- After any history of turns, notes, clearings and prunings of a memory whose capacity is positive
-- every session holds at most that many turns, if every session did at the start.
pub run-Fits :
    (max_turns ttl : ℕ) (m : Sessions) (cs : List (ℕ × Call))
    → 0 < max_turns
    → All (Fits max_turns) m
    → All (Fits max_turns) (run max_turns ttl m cs)
unfolding run
run-Fits max_turns ttl m [] p h = h
run-Fits max_turns ttl m (c ∷ cs) p h =
    run-Fits max_turns ttl (step max_turns ttl m c) cs p (step-Fits max_turns ttl m c p h)

-- A pruning keeps exactly the sessions that were active within the time to live, in their order,
-- and says how many went.
pub prune_expired-Fresh :
    (ttl now : ℕ) (m : Sessions)
    → All (λ r. now ≤ r.1.last_active_at + ttl) (prune_expired ttl now m).1
      × ((prune_expired ttl now m).1 ≡ keep (λ r. leb now (r.1.last_active_at + ttl)) m)
      × ((prune_expired ttl now m).0 + length (prune_expired ttl now m).1 ≡ length m)
unfolding prune_expired
prune_expired-Fresh ttl now [] = (tt, refl, refl)
prune_expired-Fresh ttl now ((id, s) ∷ m) =
    let (fresh, same, counted) = prune_expired-Fresh ttl now m in
    let x = s.last_active_at + ttl in
    elim (Bool-cases (ltb x now)) [
      | inl e ↦
          let late : leb now x ≡ false = ground arith in
          rw (e, late) (fresh, same, omega (arith, counted))
      | inr e ↦
          let soon : leb now x ≡ true = ground arith in
          rw (e, soon)
            ((ground arith, fresh), ap (λ rest. (id, s) ∷ rest) same, omega (arith, counted))
    ]
