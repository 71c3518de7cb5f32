-- ===== src/Memory/Refinement.antt =====
-- The bounded memory against a memory that forgets nothing: a log of all turns for each session.
use ryvix.Common.{
  ℕ, zero, suc, ◌<◌, min, ◌≡◌, refl, sym, subst, ap, ◌∙◌, Bool, true, false, Option, none, some,
  List, [], ◌∷◌, ◌++◌, ◌==◌, if◌then◌else◌, is_some, take_last, all, arith, Bool-cases,
  Option-cases, inl, inr, ==_refl,
}
use ryvix.Common.Table.{
  lookup, update, insert, remove, over, lookup-update, lookup-insert, lookup-remove,
}
use ryvix.Memory.{
  WorkingTurn, SessionWorkingMemory, Sessions, slice_last, get_or_create, push_turn, record_turn,
  get_recent_turns, set_scratchpad, clear_session, Call, records, scribbles, clears, prunes, step,
  run,
}
use ryvix.Memory.Windows.{
  take_last_all, push_turn-take_last, take_last-take_last, slice_nil, slice-take_last,
}

-- The turns that the memory holds for a session.
abbrev pub turns_in : Option SessionWorkingMemory → List WorkingTurn
turns_in none = []
turns_in (some s) = s.turns

unfoldable pub turns_of : ℕ → Sessions → List WorkingTurn
unfolding lookup
turns_of id m = turns_in (lookup id m)

-- The abstract memory, and what a call does to it.
abbrev pub Log : Type 0
Log = ℕ → List WorkingTurn

unfoldable pub log_step : Log → ℕ × Call → Log
log_step log (now, records id turn) j = if id == j then log j ++ (turn ∷ []) else log j
log_step log (now, clears id) j = if id == j then [] else log j
log_step log (now, scribbles id key value) j = log j
log_step log (now, prunes) j = log j

unfoldable pub log_run : Log → List (ℕ × Call) → Log
unfolding log_step
log_run log [] = log
log_run log (c ∷ cs) = log_run (log_step log c) cs

abbrev pub is_kept : ℕ × Call → Bool
is_kept (now, prunes) = false
is_kept (now, c) = true

module _ (n : ℕ) where
  -- Every session holds the last turns of its log.
  abbrev pub Refines : Sessions → Log → Type 0
  Refines m log = (j : ℕ) → turns_of j m ≡ take_last (suc n) (log j)

turns_in-over :
    (f : SessionWorkingMemory → SessionWorkingMemory) (b : Bool) (o : Option SessionWorkingMemory)
    → ((s : SessionWorkingMemory) → (f s).turns ≡ s.turns)
    → turns_in (if b then over f o else o) ≡ turns_in o
turns_in-over f false o h = refl
turns_in-over f true none h = refl
turns_in-over f true (some s) h = h s

-- An update that keeps the turns of a session.
turns_of-update :
    (k j : ℕ) (f : SessionWorkingMemory → SessionWorkingMemory) (m : Sessions)
    → ((s : SessionWorkingMemory) → (f s).turns ≡ s.turns)
    → turns_of j (update k f m) ≡ turns_of j m
unfolding turns_of
turns_of-update k j f m h = rw (lookup-update k j f m) (turns_in-over f (k == j) (lookup j m) h)

turns_of-insert :
    (k j : ℕ) (s : SessionWorkingMemory) (m : Sessions)
    → s.turns ≡ []
    → turns_of j (insert k s m) ≡ turns_of j m
unfolding turns_of
turns_of-insert k j s m h = rw (lookup-insert k j s m) (elim (Option-cases (lookup j m)) [
  | inl e ↦ elim (Bool-cases (k == j)) [
    | inl same ↦ rw (e, is_some, same) h
    | inr other ↦ rw (e, is_some, other) refl
  ]
  | inr (r, e) ↦ rw (e, is_some) refl
])

turns_of-get_or_create :
    (now id j : ℕ) (m : Sessions) → turns_of j (get_or_create now id m) ≡ turns_of j m
unfolding get_or_create
turns_of-get_or_create now id j m = elim (Bool-cases (is_some (lookup id m))) [
  | inl e ↦ rw (e) (turns_of-update id j (λ s. record s { last_active_at = now }) m (λ s. refl))
  | inr e ↦
      let new : SessionWorkingMemory = record {
        turns = [];
        scratchpad = [];
        created_at = now;
        last_active_at = now;
      } in
      rw (e) (turns_of-insert id j new m refl)
]

is_some-over :
    (f : SessionWorkingMemory → SessionWorkingMemory) (o : Option SessionWorkingMemory)
    → is_some (over f o) ≡ is_some o
is_some-over f none = refl
is_some-over f (some s) = refl

is_some-get_or_create :
    (now id : ℕ) (m : Sessions) → is_some (lookup id (get_or_create now id m)) ≡ true
unfolding get_or_create
is_some-get_or_create now id m = elim (Bool-cases (is_some (lookup id m))) [
  | inl e ↦
      let f : SessionWorkingMemory → SessionWorkingMemory =
        λ s. record s { last_active_at = now } in
      rw (e, lookup-update id id f m, ==_refl id, is_some-over f (lookup id m)) e
  | inr e ↦
      let new : SessionWorkingMemory = record {
        turns = [];
        scratchpad = [];
        created_at = now;
        last_active_at = now;
      } in
      rw (e, lookup-insert id id new m, e, ==_refl id) refl
]

-- An update of the turns of a session that is there.
turns_of-push :
    (k j : ℕ) (g : List WorkingTurn → List WorkingTurn) (m : Sessions)
    → is_some (lookup k m) ≡ true
    → turns_of j (update k (λ s. record s { turns = g s.turns }) m)
      ≡ (if k == j then g (turns_of j m) else turns_of j m)
unfolding turns_of
turns_of-push k j g m h =
    let f : SessionWorkingMemory → SessionWorkingMemory = λ s. record s { turns = g s.turns } in
    rw (lookup-update k j f m) (elim (Bool-cases (k == j)) [
      | inr e ↦ rw (e) refl
      | inl e ↦
          let same : k ≡ j = ground arith in
          let there : is_some (lookup j m) ≡ true =
            subst (λ x. is_some (lookup x m) ≡ true) same h in
          elim (Option-cases (lookup j m)) [
            | inl n ↦ absurd (cc (rw (n, is_some) at there))
            | inr (s, n) ↦ rw (e, n) refl
          ]
    ])

turns_of-remove :
    (k j : ℕ) (m : Sessions) → turns_of j (remove k m) ≡ (if k == j then [] else turns_of j m)
unfolding turns_of
turns_of-remove k j m =
    rw (lookup-remove k j m)
      (elim (Bool-cases (k == j)) [ inl e ↦ rw (e) refl | inr e ↦ rw (e) refl ])

module _ (n ttl : ℕ) where
  step-Refines :
      (m : Sessions) (log : Log) (c : ℕ × Call)
      → is_kept c ≡ true
      → Refines n m log
      → Refines n (step (suc n) ttl m c) (log_step log c)
  unfolding step log_step record_turn set_scratchpad clear_session
  step-Refines m log (now, records id turn) k h j =
      let there = is_some-get_or_create now id m in
      let pushed = turns_of-push id j (push_turn (suc n) turn) (get_or_create now id m) there in
      rw (pushed, turns_of-get_or_create now id j m, h j)
        (elim (Bool-cases (id == j)) [
          | inl e ↦ rw (e) (push_turn-take_last n turn (log j))
          | inr e ↦ rw (e) refl
        ])
  step-Refines m log (now, scribbles id key value) k h j =
      turns_of-update id j _ (get_or_create now id m) (λ s. refl)
      ∙ turns_of-get_or_create now id j m
      ∙ h j
  step-Refines m log (now, clears id) k h j = turns_of-remove id j m ∙ elim (Bool-cases (id == j)) [
    | inl e ↦ rw (e) (sym (take_last_all (suc n) [] (omega arith)))
    | inr e ↦ rw (e) (h j)
  ]
  step-Refines m log (now, prunes) k h j = absurd (cc k)

  run-Refines :
      (m : Sessions) (log : Log) (cs : List (ℕ × Call))
      → all is_kept cs ≡ true
      → Refines n m log
      → Refines n (run (suc n) ttl m cs) (log_run log cs)
  unfolding run log_run
  run-Refines m log [] k h = h
  run-Refines m log (c ∷ cs) k h =
      run-Refines (step (suc n) ttl m c) (log_step log c) cs (ground arith)
        (step-Refines m log c (ground arith) h)

turns_of-nil : (j : ℕ) → turns_of j [] ≡ []
unfolding turns_of lookup
turns_of-nil j = refl

recent-slice :
    (max_turns id limit : ℕ) (m : Sessions)
    → get_recent_turns max_turns id limit m ≡ slice_last (min limit max_turns) (turns_of id m)
unfolding get_recent_turns turns_of
recent-slice max_turns id limit m = elim (Option-cases (lookup id m)) [
  | inl e ↦ rw (e, get_recent_turns) (sym (slice_nil (min limit max_turns)))
  | inr (s, e) ↦ rw (e, get_recent_turns) refl
]

abbrev pub empty_log : Log
empty_log j = []

-- The bounded memory answers like one that forgets nothing: after any history of turns, notes and
-- clearings from an empty memory of positive capacity, a positive number of recent turns of a
-- session is that many of the latest turns that were recorded since it was last cleared, up to the
-- capacity.
pub get_recent_turns-log_run :
    (max_turns ttl id limit : ℕ) (cs : List (ℕ × Call))
    → 0 < max_turns
    → 0 < limit
    → all is_kept cs ≡ true
    → get_recent_turns max_turns id limit (run max_turns ttl [] cs)
      ≡ take_last (min limit max_turns) (log_run empty_log cs id)
get_recent_turns-log_run zero ttl id limit cs p q k = absurd (omega (arith, p))
get_recent_turns-log_run (suc n) ttl id zero cs p q k = absurd (omega (arith, q))
get_recent_turns-log_run (suc n) ttl id (suc l) cs p q k =
    let m = run (suc n) ttl [] cs in
    let count = min (suc l) (suc n) in
    let start : Refines n [] empty_log =
      λ j. turns_of-nil j ∙ sym (take_last_all (suc n) [] (omega arith)) in
    let held = run-Refines n ttl [] empty_log cs k start id in
    recent-slice (suc n) id (suc l) m
    ∙ ap (slice_last count) held
    ∙ slice-take_last count (take_last (suc n) (log_run empty_log cs id)) (omega arith)
    ∙ take_last-take_last count (suc n) (log_run empty_log cs id) (omega arith)
