-- ===== src/Commands/Duties.antt =====
-- Who stands behind a command that a server receives: `device` of
-- backend/src/services/server-command-store.ts.
use ryvix.Common.{
  ℕ, ◌≡◌, ◌≢◌, ◌<◌, ◌⊎◌, Bool, true, Option, none, some, List, arith, inl, inr, Option-cases,
  Bool-cases, holds, subst,
}
use ryvix.Common.Effect.{ok, bind-ok, ◌>>◌}
use ryvix.Common.Table.{lookup, first_by_passes}
use ryvix.Queue.Model.{is_operator}
use ryvix.Commands.Model.{
  Store, Command, Approval, ApprovalStatus, Device, Receipt, Envelope, is_manager, set_command,
  audit,
}
use ryvix.Commands.Transactions.{transaction-ok}
use ryvix.Commands.Device.{admit, candidate, is_deliverable, is_authorized}
use ryvix.Commands.Poll.{
  poll, offer, deliver, device_polls, device_polls_in, is_paced, prior, sign_command,
}

admit-ok :
    (s s' : Store) (now nonce : ℕ) (d : Device)
    → admit now d nonce s ≡ ok tt s'
    → (rows : List Receipt) × (s' ≡ record s { receipts = rows })
unfolding admit
admit-ok s s' now nonce d h = (s'.receipts, ground arith)

-- The command behind an envelope that a server received at time `now`.
pub record IsAuthorized (allowed : ℕ → Bool) (s : Store) (now wall server : ℕ) (envelope : Envelope)
    : Type 0 where
  pub device : Device
  pub id : ℕ
  pub command : Command
  pub approval : Approval
  pub approver : ℕ
  pub registered : s.devices server ≡ some device
  pub found : lookup id s.commands ≡ some command
  pub on_server : command.server_id ≡ server
  pub with_approval : lookup command.approval_id s.approvals ≡ some approval
  pub approved : approval.status ≡ ApprovalStatus.approved
  pub unexpired : now < approval.expires_at
  pub decided_by : approval.decided_by ≡ some approver
  pub manager : holds is_manager (s.members device.organization_id approver) ≡ true
  pub operator : holds is_operator (s.members device.organization_id command.requested_by) ≡ true
  pub apart : command.requested_by ≢ approver
  pub listed : allowed command.service ≡ true
  pub sent :
      (command.envelope ≡ some envelope)
      ⊎ ((command.envelope ≡ none) × (envelope ≡ sign_command wall server id command))

offer-sent :
    (s s' : Store) (now wall server id : ℕ) (d : Device) (c : Command) (e : Envelope)
    → offer now wall d server id c s ≡ ok (some e) s'
    → (c.envelope ≡ some e) ⊎ ((c.envelope ≡ none) × (e ≡ sign_command wall server id c))
unfolding offer deliver set_command audit
offer-sent s s' now wall server id d c e h = elim (Option-cases c.envelope) [
  | inr (old, q) ↦ inl (cc (rw q at h))
  | inl q ↦ elim (Bool-cases (is_paced now (prior now server c.service s.commands))) [
    | inl p ↦ absurd (cc (rw p at (rw q at h)))
    | inr p ↦ inr (q, cc (rw p at (rw q at h)))
  ]
]

behind :
    (allowed : ℕ → Bool) (s : Store) (now wall server id : ℕ) (d : Device) (c : Command)
    (e : Envelope)
    → s.devices server ≡ some d
    → lookup id s.commands ≡ some c
    → is_deliverable s now d server id ≡ true
    → allowed c.service ≡ true
    → (c.envelope ≡ some e) ⊎ ((c.envelope ≡ none) × (e ≡ sign_command wall server id c))
    → IsAuthorized allowed s now wall server e
unfolding is_deliverable is_authorized
behind allowed s now wall server id d c e r f m l sent =
    elim (Option-cases (lookup c.approval_id s.approvals)) [
      | inl q ↦ absurd (ground arith)
      | inr (a, q) ↦ elim (Option-cases a.decided_by) [
        | inl u ↦ absurd (ground arith)
        | inr (user, u) ↦ record {
          device = d;
          id = id;
          command = c;
          approval = a;
          approver = user;
          registered = r;
          found = f;
          on_server = ground arith;
          with_approval = q;
          approved = ground arith;
          unexpired = ground arith;
          decided_by = u;
          manager = ground arith;
          operator = ground arith;
          apart = λ same. ground arith;
          listed = l;
          sent = sent;
        }
      ]
    ]

poll-IsAuthorized :
    (allowed : ℕ → Bool) (s s' : Store) (now wall server : ℕ) (d : Device) (e : Envelope)
    → s.devices server ≡ some d
    → poll allowed now wall d server s ≡ ok (some e) s'
    → IsAuthorized allowed s now wall server e
unfolding poll candidate
poll-IsAuthorized allowed s s' now wall server d e r h =
    elim (Option-cases (candidate s now d server)) [
      | inl q ↦ absurd (cc (rw (q, poll) at h))
      | inr (id, q) ↦ elim (Option-cases (lookup id s.commands)) [
        | inl f ↦ absurd (cc (rw f at (rw (q, poll) at h)))
        | inr (c, f) ↦ elim (Bool-cases (allowed c.service)) [
          | inr l ↦ absurd (cc (rw l at (rw f at (rw (q, poll) at h))))
          | inl l ↦
              behind allowed s now wall server id d c e r f (first_by_passes _ _ s.commands id q) l
                (offer-sent s s' now wall server id d c e (rw l at (rw f at (rw (q, poll) at h))))
        ]
      ]
    ]

-- The check of the request's nonce leaves the other tables as they are.
forget_receipts :
    (allowed : ℕ → Bool) (s : Store) (rows : List Receipt) (now wall server : ℕ) (e : Envelope)
    → IsAuthorized allowed (record s { receipts = rows }) now wall server e
    → IsAuthorized allowed s now wall server e
forget_receipts allowed s rows now wall server e a = record {
  device = a.device;
  id = a.id;
  command = a.command;
  approval = a.approval;
  approver = a.approver;
  registered = a.registered;
  found = a.found;
  on_server = a.on_server;
  with_approval = a.with_approval;
  approved = a.approved;
  unexpired = a.unexpired;
  decided_by = a.decided_by;
  manager = a.manager;
  operator = a.operator;
  apart = a.apart;
  listed = a.listed;
  sent = a.sent;
}

admitted_poll :
    (allowed : ℕ → Bool) (s s' : Store) (now wall server nonce : ℕ) (d : Device) (e : Envelope)
    → s.devices server ≡ some d
    → (admit now d nonce >> poll allowed now wall d server) s ≡ ok (some e) s'
    → IsAuthorized allowed s now wall server e
admitted_poll allowed s s' now wall server nonce d e r h =
    let (_, s1, admitted, h1) =
      bind-ok (admit now d nonce) (λ _. poll allowed now wall d server) s s' (some e) h in
    let (rows, same) = admit-ok s s1 now nonce d admitted in
    forget_receipts allowed s rows now wall server e (
      poll-IsAuthorized allowed (record s { receipts = rows }) s' now wall server d e r
        (subst (λ t. poll allowed now wall d server t ≡ ok (some e) s') same h1))

-- A server receives an envelope only for a command of its own whose approval is approved and
-- unexpired and was decided by someone other than the requester, who is an owner or administrator
-- of the organization at the poll, while the requester may operate there and the service is
-- allowed. The envelope is the one that the command's row holds, or is signed now for that command.
pub device_polls-IsAuthorized :
    (allowed : ℕ → Bool) (s s' : Store) (now wall server : ℕ) (verified : Option ℕ) (e : Envelope)
    → device_polls allowed now wall server verified s ≡ ok (some e) s'
    → IsAuthorized allowed s now wall server e
unfolding device_polls device_polls_in
device_polls-IsAuthorized allowed s s' now wall server verified e h =
    let body = transaction-ok (device_polls_in allowed now wall server verified) s s' (some e) h in
    elim (Option-cases (s.devices server)) [
      | inl q ↦ absurd (cc (rw (q, device_polls_in) at body))
      | inr (d, q) ↦ elim (Option-cases verified) [
        | inl v ↦ absurd (cc (rw v at (rw (q, device_polls_in) at body)))
        | inr (nonce, v) ↦
            admitted_poll allowed s s' now wall server nonce d e q
              (rw v at (rw (q, device_polls_in) at body))
      ]
    ]
