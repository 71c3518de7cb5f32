-- ===== src/Commands/Run.antt =====
-- The calls of all clients of backend/src/services/server-command-store.ts, one transaction at a
-- time and in any order.
use ryvix.Common.{ℕ, Bool, Option, List, [], ◌∷◌, ◌||◌, if◌then◌else◌, is_some}
use ryvix.Common.Effect.{world}
use ryvix.Common.Table.{lookup}
use ryvix.Commands.Model.{Store, Result}
use ryvix.Commands.Requests.{request, decide}
use ryvix.Commands.Poll.{device_polls, device_reports}

pub data Call : Type 0 where
  requests : (id approval org user server service : ℕ) → Call
  decides : (org user id : ℕ) → (approve : Bool) → Call
  polls : (wall server : ℕ) → (verified : Option ℕ) → Call
  reports : (server : ℕ) → (verified : Option ℕ) → (id : ℕ) → Result → Call

module _ (allowed : ℕ → Bool) (configured : Bool) where
  -- The store after a call at time `now`. Generated identifiers are never ones in use.
  unfoldable pub step : Store → ℕ × Call → Store
  unfolding lookup
  step s (now, requests id approval org user server service) =
      if is_some (lookup id s.commands) || is_some (lookup approval s.approvals)
      then s
      else world (request allowed configured now id approval org user server service s)
  step s (now, decides org user id approve) = world (decide now org user id approve s)
  step s (now, polls wall server verified) = world (device_polls allowed now wall server verified s)
  step s (now, reports server verified id r) = world (device_reports now server verified id r s)

  unfoldable pub run : Store → List (ℕ × Call) → Store
  unfolding step
  run s [] = s
  run s (c ∷ cs) = run (step s c) cs
