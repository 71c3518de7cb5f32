-- ===== src/Commands/Requests.antt =====
-- `request` and `decide` of backend/src/services/server-command-store.ts.
use ryvix.Common.{
  ℕ, ◌+◌, Bool, true, false, not, ◌&&◌, Option, none, some, ltb, leb, ◌==◌, if◌then◌else◌, holds,
}
use ryvix.Common.Effect.{ok, err, return, ◌>>◌}
use ryvix.Common.Table.{lookup, insert, count}
use ryvix.Queue.Model.{is_operator}
use ryvix.Commands.Model.{
  Store, Sx, Command, CommandStatus, Approval, ApprovalStatus, DeviceError, transaction, audit,
  set_command, set_approval, is_manager, is_pending, is_open, approval_is_pending,
}

abbrev pub ten_minutes : ℕ
ten_minutes = 600000

-- The project of the server, if the user may operate it.
unfoldable pub request_scope : Store → ℕ → ℕ → ℕ → Option ℕ
request_scope s org user server = elim (s.devices server) [
  | none ↦ none
  | some d ↦
      if (d.organization_id == org) && holds is_operator (s.members org user)
      then some d.project_id
      else none
]

-- `status IN ('pending','approved') AND created_at>now()-interval '10 minutes'`
abbrev pub is_recent : ℕ → ℕ → ℕ → Command → Bool
is_recent now server id c =
    c.server_id == server && is_open c.status && ltb now (c.created_at + ten_minutes)

abbrev pub new_approval : ℕ → ℕ → ℕ → Approval
new_approval now org id = record {
  organization_id = org;
  is_server_command = true;
  resource_id = id;
  status = ApprovalStatus.pending;
  decided_by = none;
  expires_at = now + ten_minutes;
}

abbrev pub new_command : ℕ → ℕ → ℕ → ℕ → ℕ → ℕ → Command
new_command now server project user approval service = record {
  server_id = server;
  project_id = project;
  requested_by = user;
  approval_id = approval;
  service = service;
  status = CommandStatus.pending;
  envelope = none;
  result = none;
  created_at = now;
  delivered_at = none;
  command_expires_at = none;
}

-- The two INSERTs, at identifiers that are generated.
unfoldable pub insert_command : ℕ → ℕ → ℕ → ℕ → ℕ → ℕ → ℕ → ℕ → Sx (Unit {0})
unfolding insert
insert_command now id approval org server project user service s = ok tt (record s {
  approvals = insert approval (new_approval now org id) s.approvals;
  commands = insert id (new_command now server project user approval service) s.commands;
})

unfoldable pub request_in : ℕ → ℕ → ℕ → ℕ → ℕ → ℕ → ℕ → ℕ → Sx ℕ
unfolding count insert_command audit
request_in now id approval org user server service project s =
    if leb 10 (count (is_recent now server) s.commands)
    then err DeviceError.too_many s
    else (do
      insert_command now id approval org server project user service
      audit project (some user) "server.command.request" id
      return id)
        s

unfoldable pub request_checked : ℕ → ℕ → ℕ → ℕ → ℕ → ℕ → ℕ → Sx ℕ
unfolding request_scope request_in
request_checked now id approval org user server service s = elim (request_scope s org user server) [
  | none ↦ err DeviceError.access_denied s
  | some project ↦ request_in now id approval org user server service project s
]

-- `allowed` is `allowedService` and `configured` the presence of the signing key, both read from
-- the process's environment.
module _ (allowed : ℕ → Bool) (configured : Bool) where
  unfoldable pub request : ℕ → ℕ → ℕ → ℕ → ℕ → ℕ → ℕ → Sx ℕ
  unfolding transaction request_checked
  request now id approval org user server service s =
      if allowed service
      then if configured
        then transaction (request_checked now id approval org user server service) s
        else err DeviceError.not_configured s
      else err DeviceError.not_selected s

-- The WHERE clause of the SELECT in `decide`.
unfoldable pub may_decide : Store → ℕ → ℕ → ℕ → Command → Bool
unfolding lookup
may_decide s now org user c =
    holds (λ o. o == org) (lookup c.project_id s.projects)
    && holds is_manager (s.members org user)
    && not (c.requested_by == user)
    && is_pending c.status
    && holds (λ (a : Approval). approval_is_pending a.status && ltb now a.expires_at)
        (lookup c.approval_id s.approvals)

abbrev pub decided : Bool → CommandStatus
decided true = CommandStatus.approved
decided false = CommandStatus.rejected

abbrev pub approval_decided : Bool → ApprovalStatus
approval_decided true = ApprovalStatus.approved
approval_decided false = ApprovalStatus.rejected

unfoldable pub write_decision : ℕ → ℕ → Bool → Command → Sx CommandStatus
unfolding set_approval set_command audit
write_decision user id approve c = do
  set_approval c.approval_id
      (λ a. record a { status = approval_decided approve; decided_by = some user })
  set_command id (λ r. record r { status = decided approve })
  audit c.project_id (some user)
      (if approve then "server.command.approve" else "server.command.reject") id
  return (decided approve)

unfoldable pub decide_checked : ℕ → ℕ → ℕ → ℕ → Bool → Sx CommandStatus
unfolding may_decide write_decision lookup
decide_checked now org user id approve s = elim (lookup id s.commands) [
  | none ↦ err DeviceError.not_pending s
  | some c ↦
      if may_decide s now org user c
      then write_decision user id approve c s
      else err DeviceError.not_pending s
]

unfoldable pub decide : ℕ → ℕ → ℕ → ℕ → Bool → Sx CommandStatus
unfolding transaction decide_checked
decide now org user id approve = transaction (decide_checked now org user id approve)
