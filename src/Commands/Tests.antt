-- ===== src/Commands/Tests.antt =====
-- A restart that a developer requests and an owner approves, and its delivery.
use ryvix.Common.{ℕ, ◌≡◌, refl, Bool, true, false, ◌==◌, none, some, List, [], ◌∷◌, if◌then◌else◌}
use ryvix.Common.Effect.{err, world}
use ryvix.Common.Table.{lookup}
use ryvix.Queue.Model.{Role}
use ryvix.Commands.Model.{
  Store, Command, CommandStatus, DeviceError, Envelope, Result, ReceiptStatus, ServiceState,
}
use ryvix.Commands.Requests.{request, decide}
use ryvix.Commands.Poll.{device_polls}
use ryvix.Commands.Run.{Call, requests, decides, polls, reports, run}
use ryvix.Commands.Final.{final_is_kept}
use ryvix.Commands.Duties.{IsAuthorized, device_polls-IsAuthorized}

-- Server 20 belongs to project 5 of organization 9; user 3 is a developer and user 4 its owner.
abbrev rack : Store
rack = record {
  commands = [];
  approvals = [];
  projects = (5, 9) ∷ [];
  members = λ org user.
      if user == 3 then some Role.developer else if user == 4 then some Role.owner else none;
  devices = λ server.
      if server == 20
      then some (record { connector_id = 30; project_id = 5; organization_id = 9 })
      else none;
  receipts = [];
  audit_events = [];
}

abbrev allowed : ℕ → Bool
allowed service = service == 7

abbrev requested : Store
requested = run allowed true rack ((1000, requests 1 2 9 3 20 7) ∷ [])

abbrev approved : Store
approved = run allowed true requested ((2000, decides 9 4 1 true) ∷ [])

abbrev rejected : Store
rejected = run allowed true requested ((2000, decides 9 4 1 false) ∷ [])

-- The requester cannot approve the command.
requester_is_refused : decide 2000 9 3 1 true requested ≡ err DeviceError.not_pending requested
unfolding decide run request
requester_is_refused = refl

abbrev envelope : Envelope
envelope = record {
  id = 1;
  server_id = 20;
  approval_id = 2;
  service = 7;
  issued_at = 3000;
  expires_at = 123000;
}

device_polls-IsAuthorized_example : IsAuthorized allowed approved 3000 3000 20 envelope
device_polls-IsAuthorized_example =
    device_polls-IsAuthorized allowed approved
      (world (device_polls allowed 3000 3000 20 (some 77) approved)) 3000 3000 20 (some 77) envelope
      (unfold device_polls run request decide in refl)

abbrev healthy : Result
healthy = record { status = ReceiptStatus.succeeded; service_state = ServiceState.active }

abbrev rejected_command : Command
rejected_command = record {
  server_id = 20;
  project_id = 5;
  requested_by = 3;
  approval_id = 2;
  service = 7;
  status = CommandStatus.rejected;
  envelope = none;
  result = none;
  created_at = 1000;
  delivered_at = none;
  command_expires_at = none;
}

abbrev later_calls : List (ℕ × Call)
later_calls =
    (3000, decides 9 4 1 true)
    ∷ (4000, polls 4000 20 (some 78))
    ∷ (5000, reports 20 (some 79) 1 healthy)
    ∷ []

final_is_kept_example :
    lookup 1 (run allowed true rejected later_calls).commands ≡ some rejected_command
final_is_kept_example =
    final_is_kept allowed true rejected later_calls 1 rejected_command refl
      (unfold lookup run request decide in refl)
