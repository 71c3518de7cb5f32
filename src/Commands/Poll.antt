-- ===== src/Commands/Poll.antt =====
-- The delivery of a command, and the whole of `device`, of
-- backend/src/services/server-command-store.ts.
use ryvix.Common.{
  ℕ, ◌+◌, Bool, false, ◌&&◌, ◌||◌, Option, none, some, List, [], ◌∷◌, ltb, leb, ◌==◌, if◌then◌else◌,
  holds, any, max, length,
}
use ryvix.Common.Effect.{ok, err, return, ◌>>◌}
use ryvix.Common.Table.{Table, lookup}
use ryvix.Commands.Model.{
  Sx, Command, CommandStatus, Device, Envelope, Result, DeviceError, transaction, audit,
  set_command, is_unsettled,
}
use ryvix.Commands.Device.{admit, receive, candidate}

-- `delivered_at>now()-interval '15 minutes'` for the server and service
abbrev pub is_prior : ℕ → ℕ → ℕ → Command → Bool
is_prior now server service c =
    c.server_id == server
    && c.service == service
    && holds (λ at. ltb now (at + 900000)) c.delivered_at

unfoldable pub prior : ℕ → ℕ → ℕ → Table Command → List Command
prior now server service [] = []
prior now server service ((id, c) ∷ rows) =
    if is_prior now server service c
    then c ∷ prior now server service rows
    else prior now server service rows

-- The delivery that was last.
unfoldable pub latest : List Command → ℕ
latest [] = 0
latest (c ∷ cs) = elim c.delivered_at [ none ↦ latest cs | some at ↦ max at (latest cs) ]

-- Three deliveries, one that is unsettled, or a last one that is too recent.
unfoldable pub is_paced : ℕ → List Command → Bool
unfolding latest
is_paced now [] = false
is_paced now rows =
    leb 3 (length rows)
    || any (λ c. is_unsettled c.status) rows
    || ltb now (latest rows + (if length rows == 1 then 60000 else 300000))

abbrev pub sign_command : ℕ → ℕ → ℕ → Command → Envelope
sign_command wall server id c = record {
  id = id;
  server_id = server;
  approval_id = c.approval_id;
  service = c.service;
  issued_at = wall;
  expires_at = wall + 120000;
}

unfoldable pub deliver : ℕ → ℕ → Device → ℕ → ℕ → Command → Sx (Option Envelope)
unfolding set_command audit
deliver now wall d server id c = do
  set_command id (λ r. record r {
    status = CommandStatus.delivered;
    envelope = some (sign_command wall server id c);
    delivered_at = some now;
    command_expires_at = some (wall + 120000);
  })
  audit d.project_id none "server.command.deliver" id
  return (some (sign_command wall server id c))

-- What becomes of the candidate: again the envelope that it has, nothing yet, or its delivery.
unfoldable pub offer : ℕ → ℕ → Device → ℕ → ℕ → Command → Sx (Option Envelope)
unfolding prior is_paced deliver
offer now wall d server id c s = elim c.envelope [
  | some e ↦ ok (some e) s
  | none ↦
      if is_paced now (prior now server c.service s.commands)
      then ok none s
      else deliver now wall d server id c s
]

-- `allowed` is `allowedService` at the process's environment.
module _ (allowed : ℕ → Bool) where
  unfoldable pub poll : ℕ → ℕ → Device → ℕ → Sx (Option Envelope)
  unfolding candidate offer lookup
  poll now wall d server s = elim (candidate s now d server) [
    | none ↦ ok none s
    | some id ↦ elim (lookup id s.commands) [
      | none ↦ ok none s
      | some c ↦ if allowed c.service then offer now wall d server id c s else ok none s
    ]
  ]

  -- `device` on the path of the poll: `now` is the database's clock, `wall` the process's.
  unfoldable pub device_polls_in : ℕ → ℕ → ℕ → Option ℕ → Sx (Option Envelope)
  unfolding admit poll
  device_polls_in now wall server verified s = elim (s.devices server) [
    | none ↦ err DeviceError.no_device s
    | some d ↦ elim verified [
      | none ↦ err DeviceError.bad_signature s
      | some nonce ↦ (admit now d nonce >> poll now wall d server) s
    ]
  ]

  unfoldable pub device_polls : ℕ → ℕ → ℕ → Option ℕ → Sx (Option Envelope)
  unfolding transaction device_polls_in
  device_polls now wall server verified = transaction (device_polls_in now wall server verified)

-- `device` on the path of the receipt
unfoldable pub device_reports_in : ℕ → ℕ → Option ℕ → ℕ → Result → Sx (Unit {0})
unfolding admit receive
device_reports_in now server verified id r s = elim (s.devices server) [
  | none ↦ err DeviceError.no_device s
  | some d ↦ elim verified [
    | none ↦ err DeviceError.bad_signature s
    | some nonce ↦ (admit now d nonce >> receive d server id r) s
  ]
]

unfoldable pub device_reports : ℕ → ℕ → Option ℕ → ℕ → Result → Sx (Unit {0})
unfolding transaction device_reports_in
device_reports now server verified id r = transaction (device_reports_in now server verified id r)
