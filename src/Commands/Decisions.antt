-- ===== src/Commands/Decisions.antt =====
-- Who may decide a command, and what a decision writes.
use ryvix.Common.{ℕ, ◌≡◌, ◌≢◌, ◌<◌, Bool, true, if◌then◌else◌, some, holds}
use ryvix.Common.Table.{lookup}
use ryvix.Commands.Model.{
  Store, Command, CommandStatus, Approval, ApprovalStatus, is_manager, is_pending,
}

-- What a decision that succeeds has checked and written.
pub record IsDecided (now org user id : ℕ) (approve : Bool) (s s' : Store) : Type 0 where
  pub command : Command
  pub found : lookup id s.commands ≡ some command
  pub pending : is_pending command.status ≡ true
  pub apart : command.requested_by ≢ user
  pub manager : holds is_manager (s.members org user) ≡ true
  pub approval : Approval
  pub with_approval : lookup command.approval_id s.approvals ≡ some approval
  pub undecided : approval.status ≡ ApprovalStatus.pending
  pub live : now < approval.expires_at
  pub after :
      lookup id s'.commands
      ≡ some (record command {
        status = if approve then CommandStatus.approved else CommandStatus.rejected;
      })
  pub approval_after :
      lookup command.approval_id s'.approvals
      ≡ some (record approval {
        status = if approve then ApprovalStatus.approved else ApprovalStatus.rejected;
        decided_by = some user;
      })
  pub other_commands : (k : ℕ) → id ≢ k → lookup k s'.commands ≡ lookup k s.commands
  pub other_approvals :
      (k : ℕ) → command.approval_id ≢ k → lookup k s'.approvals ≡ lookup k s.approvals
