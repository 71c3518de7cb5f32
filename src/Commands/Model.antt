-- ===== src/Commands/Model.antt =====
-- The tables that backend/src/services/server-command-store.ts reads and writes. Identifiers,
-- services and nonces are only compared, and are numbers; times are milliseconds.
use ryvix.Common.{ℕ, String, Bool, true, false, Option, List, ◌∷◌}
use ryvix.Common.Effect.{M, Done, ok, err}
use ryvix.Common.Table.{Table, update}
use ryvix.Queue.Model.{Role}

pub data CommandStatus : Type 0 where
  pending approved rejected delivered succeeded failed unknown : CommandStatus

pub data ApprovalStatus : Type 0 where
  pending approved rejected expired : ApprovalStatus

pub data ReceiptStatus : Type 0 where
  succeeded failed unknown : ReceiptStatus

pub data ServiceState : Type 0 where
  active inactive unknown : ServiceState

-- What `signCommand` signs.
pub record Envelope : Type 0 where
  pub id : ℕ
  pub server_id : ℕ
  pub approval_id : ℕ
  pub service : ℕ
  pub issued_at : ℕ
  pub expires_at : ℕ

pub record Result : Type 0 where
  pub status : ReceiptStatus
  pub service_state : ServiceState

pub record Command : Type 0 where
  pub server_id : ℕ
  pub project_id : ℕ
  pub requested_by : ℕ
  pub approval_id : ℕ
  pub service : ℕ
  pub status : CommandStatus
  pub envelope : Option Envelope
  pub result : Option Result
  pub created_at : ℕ
  pub delivered_at : Option ℕ
  pub command_expires_at : Option ℕ

pub record Approval : Type 0 where
  pub organization_id : ℕ
  pub is_server_command : Bool
  pub resource_id : ℕ
  pub status : ApprovalStatus
  pub decided_by : Option ℕ
  pub expires_at : ℕ

-- A server's active in-band connector that has a key, with its project and organization.
pub record Device : Type 0 where
  pub connector_id : ℕ
  pub project_id : ℕ
  pub organization_id : ℕ

pub record Receipt : Type 0 where
  pub connector_id : ℕ
  pub nonce : ℕ
  pub received_at : ℕ

pub record Audit : Type 0 where
  pub project_id : ℕ
  pub actor_id : Option ℕ
  pub action_name : String
  pub subject : ℕ

pub record Store : Type 0 where
  pub commands : Table Command
  pub approvals : Table Approval
  -- the organization of a project
  pub projects : Table ℕ
  pub members : ℕ → ℕ → Option Role
  pub devices : ℕ → Option Device
  pub receipts : List Receipt
  pub audit_events : List Audit

pub data DeviceError : Type 0 where
  not_selected not_configured access_denied too_many not_pending no_device bad_signature rate_limit
        replay bad_receipt not_delivered conflict no_receipt :
      DeviceError

abbrev pub Sx : Type 0 → Type 0
Sx A = M DeviceError Store A

abbrev pub settle : {A : Type 0} → Store → Done DeviceError Store A → Done DeviceError Store A
settle s (ok a s') = ok a s'
settle s (err e _) = err e s

-- `transaction`
unfoldable pub transaction : {A : Type 0} → Sx A → Sx A
transaction fn s = settle s (fn s)

unfoldable pub audit : ℕ → Option ℕ → String → ℕ → Sx (Unit {0})
audit project user action id s = ok tt (record s {
  audit_events =
      record { project_id = project; actor_id = user; action_name = action; subject = id }
      ∷ s.audit_events;
})

unfoldable pub set_command : ℕ → (Command → Command) → Sx (Unit {0})
unfolding update
set_command id f s = ok tt (record s { commands = update id f s.commands })

unfoldable pub set_approval : ℕ → (Approval → Approval) → Sx (Unit {0})
unfolding update
set_approval id f s = ok tt (record s { approvals = update id f s.approvals })

-- `m.role IN ('owner','admin')`
abbrev pub is_manager : Role → Bool
is_manager Role.owner = true
is_manager Role.admin = true
is_manager _ = false

abbrev pub is_pending : CommandStatus → Bool
is_pending CommandStatus.pending = true
is_pending _ = false

-- `status IN ('pending','approved')`
abbrev pub is_open : CommandStatus → Bool
is_open CommandStatus.pending = true
is_open CommandStatus.approved = true
is_open _ = false

abbrev pub is_delivered : CommandStatus → Bool
is_delivered CommandStatus.delivered = true
is_delivered _ = false

-- `c.status IN ('approved','delivered')`
abbrev pub is_ready : CommandStatus → Bool
is_ready CommandStatus.approved = true
is_ready CommandStatus.delivered = true
is_ready _ = false

-- `r.status==='delivered'||r.status==='unknown'`
abbrev pub is_unsettled : CommandStatus → Bool
is_unsettled CommandStatus.delivered = true
is_unsettled CommandStatus.unknown = true
is_unsettled _ = false

abbrev pub approval_is_pending : ApprovalStatus → Bool
approval_is_pending ApprovalStatus.pending = true
approval_is_pending _ = false

abbrev pub is_approved : ApprovalStatus → Bool
is_approved ApprovalStatus.approved = true
is_approved _ = false
