-- ===== src/Commands/Final.antt =====
-- Commands at the end of their life, in backend/src/services/server-command-store.ts.
use ryvix.Common.{
  ℕ, ◌≡◌, refl, Bool, true, false, ◌==◌, Option, some, List, [], ◌∷◌, arith, inl, inr, Option-cases,
  Bool-cases, is_some, ◌&&◌, ◌||◌, leb,
}
use ryvix.Common.Effect.{world, bind_keeps, if_keeps}
use ryvix.Common.Table.{lookup, lookup-update, lookup-insert, first_by_passes, count}
use ryvix.Commands.Model.{
  Store, Command, CommandStatus, Device, Result, set_command, is_delivered, is_ready, set_approval,
  audit,
}
use ryvix.Commands.Requests.{
  request, request_checked, request_scope, request_in, insert_command, is_recent, decide,
  decide_checked, may_decide, write_decision,
}
use ryvix.Commands.Device.{
  admit, receive, receive_row, write_result, candidate, is_deliverable, is_authorized,
  is_valid_result, same_result,
}
use ryvix.Commands.Poll.{
  poll, offer, deliver, device_polls, device_polls_in, device_reports, device_reports_in, is_paced,
  prior,
}
use ryvix.Commands.Transactions.{transaction_keeps}
use ryvix.Commands.Run.{Call, requests, decides, polls, reports, step, run}

abbrev pub is_final : CommandStatus → Bool
is_final CommandStatus.rejected = true
is_final CommandStatus.succeeded = true
is_final CommandStatus.failed = true
is_final CommandStatus.unknown = true
is_final _ = false

module _ (id : ℕ) (c : Command) (final : is_final c.status ≡ true) where
  abbrev pub Kept : Store → Type 0
  Kept s = lookup id s.commands ≡ some c

  request-Kept :
      (allowed : ℕ → Bool) (configured : Bool) (s : Store)
      (now k approval org user server service : ℕ)
      → Kept s
      → Kept (world (request allowed configured now k approval org user server service s))
  unfolding request request_checked request_in insert_command audit
  request-Kept allowed configured s now k approval org user server service h =
      if_keeps Kept (allowed service) _ _
        (λ _.
          if_keeps Kept configured _ _
            (λ _.
              transaction_keeps Kept (request_checked now k approval org user server service) s h
                (elim (Option-cases (request_scope s org user server)) [
                  | inl e ↦ rw (e, world) h
                  | inr (project, e) ↦
                      rw (e, world)
                        (if_keeps Kept (leb 10 (count (is_recent now server) s.commands)) _ _
                          (λ _. h) (λ _. rw (lookup-insert k id _ s.commands, h) refl))
                ]))
            (λ _. h))
        (λ _. h)

  decision-Kept :
      (s : Store) (now org user k : ℕ) (approve : Bool) (r : Command)
      → lookup k s.commands ≡ some r
      → may_decide s now org user r ≡ true
      → Kept s
      → Kept (world (write_decision user k approve r s))
  unfolding may_decide write_decision set_command set_approval audit
  decision-Kept s now org user k approve r e m h =
      rw (lookup-update k id _ s.commands) (ground arith)

  decide-Kept :
      (s : Store) (now org user k : ℕ) (approve : Bool)
      → Kept s
      → Kept (world (decide now org user k approve s))
  unfolding decide decide_checked
  decide-Kept s now org user k approve h =
      transaction_keeps Kept (decide_checked now org user k approve) s h
        (elim (Option-cases (lookup k s.commands)) [
          | inl e ↦ rw (e, world) h
          | inr (r, e) ↦
              rw (e, world)
                (if_keeps Kept (may_decide s now org user r) _ _
                  (λ m. decision-Kept s now org user k approve r e m h) (λ _. h))
        ])

  admit-Kept :
      (s : Store) (now nonce : ℕ) (d : Device) → Kept s → Kept (world (admit now d nonce s))
  unfolding admit
  admit-Kept s now nonce d h = ground arith

  receive_row-Kept :
      (s : Store) (d : Device) (k : ℕ) (r : Result) (row : Command)
      → lookup k s.commands ≡ some row
      → Kept s
      → Kept (world (receive_row d k r row s))
  unfolding receive_row write_result set_command audit
  receive_row-Kept s d k r row e h = elim (Option-cases row.result) [
    | inr (old, q) ↦ rw (q, world) (if_keeps Kept (same_result old r) _ _ (λ _. h) (λ _. h))
    | inl q ↦
        rw (q, world)
          (if_keeps Kept (is_delivered row.status) _ _
            (λ m. rw (lookup-update k id _ s.commands) (ground arith)) (λ _. h))
  ]

  receive-Kept :
      (s : Store) (d : Device) (server k : ℕ) (r : Result)
      → Kept s
      → Kept (world (receive d server k r s))
  unfolding receive
  receive-Kept s d server k r h =
      if_keeps Kept (is_valid_result r) _ _
        (λ _. elim (Option-cases (lookup k s.commands)) [
          | inl e ↦ rw (e, world) h
          | inr (row, e) ↦
              rw (e, world)
                (if_keeps Kept (row.server_id == server && is_some row.delivered_at) _ _
                  (λ _. receive_row-Kept s d k r row e h) (λ _. h))
        ])
        (λ _. h)

  ready-is_deliverable :
      (s : Store) (now server k : ℕ) (d : Device) (row : Command)
      → lookup k s.commands ≡ some row
      → is_deliverable s now d server k ≡ true
      → is_ready row.status ≡ true
  unfolding is_deliverable is_authorized
  ready-is_deliverable s now server k d row e m = ground arith

  offer-Kept :
      (s : Store) (now wall server k : ℕ) (d : Device) (row : Command)
      → lookup k s.commands ≡ some row
      → is_ready row.status ≡ true
      → Kept s
      → Kept (world (offer now wall d server k row s))
  unfolding offer deliver set_command audit
  offer-Kept s now wall server k d row e m h = elim (Option-cases row.envelope) [
    | inr (old, q) ↦ rw (q, world) h
    | inl q ↦
        rw (q, world)
          (if_keeps Kept (is_paced now (prior now server row.service s.commands)) _ _ (λ _. h)
            (λ _. rw (lookup-update k id _ s.commands) (ground arith)))
  ]

  poll-Kept :
      (allowed : ℕ → Bool) (s : Store) (now wall server : ℕ) (d : Device)
      → Kept s
      → Kept (world (poll allowed now wall d server s))
  unfolding poll candidate
  poll-Kept allowed s now wall server d h = elim (Option-cases (candidate s now d server)) [
    | inl e ↦ rw (e, world) h
    | inr (k, e) ↦ elim (Option-cases (lookup k s.commands)) [
      | inl q ↦ rw (e, world) (rw (q, world) h)
      | inr (row, q) ↦
          rw (e, world)
            (rw (q, world)
              (if_keeps Kept (allowed row.service) _ _
                (λ _.
                  offer-Kept s now wall server k d row q
                    (ready-is_deliverable s now server k d row q
                      (first_by_passes _ _ s.commands k e))
                    h)
                (λ _. h)))
    ]
  ]

  device_polls-Kept :
      (allowed : ℕ → Bool) (s : Store) (now wall server : ℕ) (verified : Option ℕ)
      → Kept s
      → Kept (world (device_polls allowed now wall server verified s))
  unfolding device_polls device_polls_in
  device_polls-Kept allowed s now wall server verified h =
      transaction_keeps Kept (device_polls_in allowed now wall server verified) s h
        (elim (Option-cases (s.devices server)) [
          | inl e ↦ rw (e, world) h
          | inr (d, e) ↦ elim (Option-cases verified) [
            | inl q ↦ rw (e, world) (rw (q, world) h)
            | inr (nonce, q) ↦
                rw (e, world)
                  (rw (q, world)
                    (bind_keeps Kept (admit now d nonce) (λ _. poll allowed now wall d server) s
                      (admit-Kept s now nonce d h)
                      (λ _ t v. poll-Kept allowed t now wall server d v)))
          ]
        ])

  device_reports-Kept :
      (s : Store) (now server : ℕ) (verified : Option ℕ) (k : ℕ) (r : Result)
      → Kept s
      → Kept (world (device_reports now server verified k r s))
  unfolding device_reports device_reports_in
  device_reports-Kept s now server verified k r h =
      transaction_keeps Kept (device_reports_in now server verified k r) s h
        (elim (Option-cases (s.devices server)) [
          | inl e ↦ rw (e, world) h
          | inr (d, e) ↦ elim (Option-cases verified) [
            | inl q ↦ rw (e, world) (rw (q, world) h)
            | inr (nonce, q) ↦
                rw (e, world)
                  (rw (q, world)
                    (bind_keeps Kept (admit now d nonce) (λ _. receive d server k r) s
                      (admit-Kept s now nonce d h) (λ _ t v. receive-Kept t d server k r v)))
          ]
        ])

  step-Kept :
      (allowed : ℕ → Bool) (configured : Bool) (s : Store) (call : ℕ × Call)
      → Kept s
      → Kept (step allowed configured s call)
  unfolding step
  step-Kept allowed configured s (now, requests k approval org user server service) h =
      elim (Bool-cases (is_some (lookup k s.commands) || is_some (lookup approval s.approvals))) [
        | inl e ↦ rw e h
        | inr e ↦ rw e (request-Kept allowed configured s now k approval org user server service h)
      ]
  step-Kept allowed configured s (now, decides org user k approve) h =
      decide-Kept s now org user k approve h
  step-Kept allowed configured s (now, polls wall server verified) h =
      device_polls-Kept allowed s now wall server verified h
  step-Kept allowed configured s (now, reports server verified k r) h =
      device_reports-Kept s now server verified k r h

-- A command whose status is rejected, succeeded, failed or unknown keeps its whole row through any
-- later history of requests, decisions, polls and receipts.
pub final_is_kept :
    (allowed : ℕ → Bool) (configured : Bool) (s : Store) (calls : List (ℕ × Call)) (id : ℕ)
    (c : Command)
    → is_final c.status ≡ true
    → lookup id s.commands ≡ some c
    → lookup id (run allowed configured s calls).commands ≡ some c
unfolding run
final_is_kept allowed configured s [] id c final h = h
final_is_kept allowed configured s (call ∷ calls) id c final h =
    final_is_kept allowed configured (step allowed configured s call) calls id c final
      (step-Kept id c final allowed configured s call h)
