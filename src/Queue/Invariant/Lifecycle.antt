-- ===== src/Queue/Invariant/Lifecycle.antt =====
-- Cancellation and deletion keep the invariant.
use ryvix.Common.{ℕ, arith, inl, inr, Option-cases}
use ryvix.Common.Effect.{world, ◌>>◌, bind_keeps, if_keeps}
use ryvix.Common.Table.{lookup}
use ryvix.Queue.Model.{Db}
use ryvix.Queue.Lifecycle.{
  Action, cancel, delete, request_row, request_checked, request, is_own, refusal, apply_action, log,
  finish_in, finish, may_delete, delete_task, cascade, write_log, success_name, cancel_job,
}
use ryvix.Queue.Invariant.Coherence.{
  Inv, update_both-Coherent, remove_both-Coherent, transaction_keeps,
}

request_row-Inv :
    (db : Db) (now : ℕ) (action : Action) (task member project : ℕ)
    → Inv db
    → Inv (world (request_row now action task member project db))
unfolding request_row apply_action log
request_row-Inv db now delete task member project v = v
request_row-Inv db now cancel task member project v =
    update_both-Coherent v task _ cancel_job (ground (arith, v.fits task))

pub request-Inv :
    (db : Db) (now : ℕ) (action : Action) (task member organization : ℕ)
    → Inv db
    → Inv (world (request now action task member organization db))
unfolding request request_checked
request-Inv db now action task member organization v =
    transaction_keeps Inv (request_checked now action task member organization) db v
      (elim (Option-cases (lookup task db.tasks)) [
        | inl e ↦ rw (e, world) v
        | inr (t, e) ↦
            rw (e, world)
              (if_keeps Inv (is_own db member organization t) _ _
                (λ _. elim (Option-cases (refusal action t.status)) [
                  | inl r ↦ rw (r, world) (request_row-Inv db now action task member t.project_id v)
                  | inr (x, r) ↦ rw (r, world) v
                ])
                (λ _. v))
      ])

finish_in-Inv :
    (db : Db) (action : Action) (task member organization : ℕ)
    → Inv db
    → Inv (world (finish_in action task member organization db))
unfolding finish_in delete_task cascade
finish_in-Inv db cancel task member organization v = v
finish_in-Inv db delete task member organization v =
    if_keeps Inv (may_delete db task member organization) _ _ (λ _. remove_both-Coherent v task)
      (λ _. v)

pub finish-Inv :
    (db : Db) (action : Action) (project task member organization : ℕ)
    → Inv db
    → Inv (world (finish action project task member organization db))
unfolding finish write_log log
finish-Inv db action project task member organization v =
    transaction_keeps Inv
      (finish_in action task member organization
        >> write_log project member task (success_name action))
      db v
      (bind_keeps Inv (finish_in action task member organization)
        (λ _. write_log project member task (success_name action)) db
        (finish_in-Inv db action task member organization v) (λ _ d w. w))
