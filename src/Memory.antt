-- ===== src/Memory.antt =====
-- Working memory of sessions: ai/src/memory/short-term-memory.ts. Session identifiers, scratchpad
-- keys and values are numbers, since the code only compares and copies them; a timestamp is the
-- millisecond that its ISO text denotes. A turn's generated identifier and its metadata are copied
-- and are left out.
pub mod Laws
pub mod Windows
pub mod Refinement
mod Tests
use ryvix.Common.{
  ℕ, zero, suc, ◌+◌, String, Bool, true, false, Option, none, some, List, [], ◌∷◌, ◌++◌, ltb,
  if◌then◌else◌, is_some, length, take_last, min,
}
use ryvix.Common.Table.{Table, lookup, update, insert, remove}

pub data MemoryRole : Type 0 where
  user assistant system tool : MemoryRole

pub record WorkingTurn : Type 0 where
  pub role : MemoryRole
  pub content : String
  pub timestamp : ℕ

pub record SessionWorkingMemory : Type 0 where
  pub turns : List WorkingTurn
  pub scratchpad : Table ℕ
  pub created_at : ℕ
  pub last_active_at : ℕ

-- The map of sessions, in the order of insertion.
abbrev pub Sessions : Type 0
Sessions = Table SessionWorkingMemory

-- `xs.slice(-n)`: `slice(-0)` is `slice(0)`, the whole array.
abbrev pub slice_last : {A : Type 0} → ℕ → List A → List A
slice_last zero xs = xs
slice_last (suc n) xs = take_last (suc n) xs

abbrev pub default_turns : ℕ
default_turns = 20

-- `getOrCreateSession`, which leaves the session in the map.
unfoldable pub get_or_create : ℕ → ℕ → Sessions → Sessions
unfolding lookup update insert
get_or_create now id m =
    if is_some (lookup id m)
    then update id (λ s. record s { last_active_at = now }) m
    else insert id (record { turns = []; scratchpad = []; created_at = now; last_active_at = now })
        m

-- `push`, and the eviction of all but the latest turns.
unfoldable pub push_turn : ℕ → WorkingTurn → List WorkingTurn → List WorkingTurn
push_turn max_turns turn turns =
    let all = turns ++ (turn ∷ []) in
    if ltb max_turns (length all) then slice_last max_turns all else all

-- `recordTurn`
unfoldable pub record_turn : ℕ → ℕ → ℕ → WorkingTurn → Sessions → Sessions
unfolding get_or_create push_turn update
record_turn max_turns now id turn m =
    update id (λ s. record s { turns = push_turn max_turns turn s.turns }) (get_or_create now id m)

-- `getRecentTurns`
unfoldable pub get_recent_turns : ℕ → ℕ → ℕ → Sessions → List WorkingTurn
unfolding lookup
get_recent_turns max_turns id limit m = elim (lookup id m) [
  | none ↦ []
  | some s ↦ slice_last (min limit max_turns) s.turns
]

unfoldable pub assign : ℕ → ℕ → Table ℕ → Table ℕ
unfolding lookup update insert
assign key value pad =
    if is_some (lookup key pad) then update key (λ _. value) pad else insert key value pad

-- `setScratchpad`
unfoldable pub set_scratchpad : ℕ → ℕ → ℕ → ℕ → Sessions → Sessions
unfolding get_or_create assign update
set_scratchpad now id key value m =
    update id (λ s. record s { scratchpad = assign key value s.scratchpad })
      (get_or_create now id m)

-- `getScratchpad` with a key
unfoldable pub get_scratchpad : ℕ → ℕ → Sessions → Option ℕ
unfolding lookup
get_scratchpad id key m = elim (lookup id m) [ none ↦ none | some s ↦ lookup key s.scratchpad ]

-- `clearSession`
unfoldable pub clear_session : ℕ → Sessions → Bool × Sessions
unfolding lookup remove
clear_session id m = (is_some (lookup id m), remove id m)

-- `pruneExpiredSessions`: how many went, and the map that is left.
unfoldable pub prune_expired : ℕ → ℕ → Sessions → ℕ × Sessions
prune_expired ttl now [] = (0, [])
prune_expired ttl now ((id, s) ∷ m) =
    let (pruned, rest) = prune_expired ttl now m in
    if ltb (s.last_active_at + ttl) now then (suc pruned, rest) else (pruned, (id, s) ∷ rest)

unfoldable pub total_turns : Sessions → ℕ
total_turns [] = 0
total_turns ((id, s) ∷ m) = length s.turns + total_turns m

-- `getStats`
unfoldable pub get_stats : Sessions → ℕ × ℕ
unfolding total_turns
get_stats m = (length m, total_turns m)

pub data Call : Type 0 where
  records : (id : ℕ) → WorkingTurn → Call
  scribbles : (id key value : ℕ) → Call
  clears : (id : ℕ) → Call
  prunes : Call

-- The map after a call at time `now`.
unfoldable pub step : ℕ → ℕ → Sessions → ℕ × Call → Sessions
unfolding record_turn set_scratchpad clear_session prune_expired
step max_turns ttl m (now, records id turn) = record_turn max_turns now id turn m
step max_turns ttl m (now, scribbles id key value) = set_scratchpad now id key value m
step max_turns ttl m (now, clears id) = (clear_session id m).1
step max_turns ttl m (now, prunes) = (prune_expired ttl now m).1

unfoldable pub run : ℕ → ℕ → Sessions → List (ℕ × Call) → Sessions
unfolding step
run max_turns ttl m [] = m
run max_turns ttl m (c ∷ cs) = run max_turns ttl (step max_turns ttl m c) cs
