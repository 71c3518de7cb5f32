-- ===== src/Commands/Device.antt =====
-- `device` of backend/src/services/server-command-store.ts: the poll of a server for its next
-- command, and its receipt. The signature of the request is checked by `verifyDeviceRequest`
-- (backend/src/services/device-protocol.ts), whose answer is an argument: the nonce, or none where
-- it throws.
use ryvix.Common.{
  ℕ, ◌+◌, String, Bool, true, false, not, ◌&&◌, ◌||◌, Option, none, some, ◌∷◌, ltb, leb, ◌==◌,
  if◌then◌else◌, is_some, holds, any, length, keep,
}
use ryvix.Common.Effect.{ok, err, ◌>>◌}
use ryvix.Common.Table.{lookup, first_by}
use ryvix.Queue.Model.{is_operator, is_later}
use ryvix.Commands.Model.{
  Store, Sx, Command, CommandStatus, Approval, Device, Receipt, Result, ReceiptStatus, ServiceState,
  DeviceError, audit, set_command, is_manager, is_delivered, is_ready, is_approved,
}
use ryvix.Commands.Requests.{ten_minutes}

-- A receipt of this connector in the last minute.
abbrev is_fresh : ℕ → Device → Receipt → Bool
is_fresh now d r = r.connector_id == d.connector_id && ltb now (r.received_at + 60000)

-- `connector_id=$1 AND received_at<now()-interval '10 minutes'`
abbrev is_old : ℕ → Device → Receipt → Bool
is_old now d r = r.connector_id == d.connector_id && ltb (r.received_at + ten_minutes) now

-- The old receipts go; then the rate and the nonce are checked, and the nonce is recorded.
unfoldable pub admit : ℕ → Device → ℕ → Sx (Unit {0})
admit now d nonce s =
    let rows = keep (λ r. not (is_old now d r)) s.receipts in
    if leb 200 (length (keep (is_fresh now d) rows))
    then err DeviceError.rate_limit s
    else if any (λ r. r.connector_id == d.connector_id && r.nonce == nonce) rows
    then err DeviceError.replay s
    else ok tt (record s {
      receipts = record { connector_id = d.connector_id; nonce = nonce; received_at = now } ∷ rows;
    })

abbrev pub same_status : ReceiptStatus → ReceiptStatus → Bool
same_status ReceiptStatus.succeeded ReceiptStatus.succeeded = true
same_status ReceiptStatus.failed ReceiptStatus.failed = true
same_status ReceiptStatus.unknown ReceiptStatus.unknown = true
same_status _ _ = false

abbrev pub same_state : ServiceState → ServiceState → Bool
same_state ServiceState.active ServiceState.active = true
same_state ServiceState.inactive ServiceState.inactive = true
same_state ServiceState.unknown ServiceState.unknown = true
same_state _ _ = false

abbrev pub same_result : Result → Result → Bool
same_result x y = same_status x.status y.status && same_state x.service_state y.service_state

-- A receipt says that a service which succeeded to restart is active.
abbrev pub is_valid_result : Result → Bool
is_valid_result r =
    not (same_status r.status ReceiptStatus.succeeded)
    || same_state r.service_state ServiceState.active

abbrev pub final_status : ReceiptStatus → CommandStatus
final_status ReceiptStatus.succeeded = CommandStatus.succeeded
final_status ReceiptStatus.failed = CommandStatus.failed
final_status ReceiptStatus.unknown = CommandStatus.unknown

abbrev pub result_name : ReceiptStatus → String
result_name ReceiptStatus.succeeded = "server.command.succeeded"
result_name ReceiptStatus.failed = "server.command.failed"
result_name ReceiptStatus.unknown = "server.command.unknown"

unfoldable pub write_result : Device → ℕ → Result → Sx (Unit {0})
unfolding set_command audit
write_result d id r = do
  set_command id (λ c. record c { status = final_status r.status; result = some r })
  audit d.project_id none (result_name r.status) id

-- The receipt for a command's row: recorded once, acknowledged again if it is the same.
unfoldable pub receive_row : Device → ℕ → Result → Command → Sx (Unit {0})
unfolding write_result
receive_row d id r c s = elim c.result [
  | some old ↦ if same_result old r then ok tt s else err DeviceError.conflict s
  | none ↦ if is_delivered c.status then write_result d id r s else err DeviceError.no_receipt s
]

unfoldable pub receive : Device → ℕ → ℕ → Result → Sx (Unit {0})
unfolding receive_row lookup
receive d server id r s =
    if is_valid_result r
    then elim (lookup id s.commands) [
      | none ↦ err DeviceError.not_delivered s
      | some c ↦
          if c.server_id == server && is_some c.delivered_at
          then receive_row d id r c s
          else err DeviceError.not_delivered s
    ]
    else err DeviceError.bad_receipt s

-- The WHERE clause of the poll, over a command and its approval.
unfoldable pub is_authorized : Store → ℕ → Device → ℕ → ℕ → Command → Approval → Bool
is_authorized s now d server id c a =
    c.server_id == server
    && c.project_id == d.project_id
    && is_ready c.status
    && is_approved a.status
    && a.resource_id == id
    && a.is_server_command
    && a.organization_id == d.organization_id
    && ltb now a.expires_at
    && holds is_operator (s.members d.organization_id c.requested_by)
    && holds
        (λ user.
          holds is_manager (s.members d.organization_id user) && not (c.requested_by == user))
        a.decided_by
    && (not (is_some c.command_expires_at) || is_later now c.command_expires_at)

unfoldable pub is_deliverable : Store → ℕ → Device → ℕ → ℕ → Bool
unfolding is_authorized lookup
is_deliverable s now d server id =
    holds
      (λ (c : Command).
        holds (is_authorized s now d server id c) (lookup c.approval_id s.approvals))
      (lookup id s.commands)

abbrev pub created : Store → ℕ → ℕ
created s id = elim (lookup id s.commands) [ none ↦ 0 | some c ↦ c.created_at ]

unfoldable pub candidate : Store → ℕ → Device → ℕ → Option ℕ
unfolding is_deliverable first_by
candidate s now d server = first_by (is_deliverable s now d server) (created s) s.commands
