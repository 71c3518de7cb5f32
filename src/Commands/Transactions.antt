-- ===== src/Commands/Transactions.antt =====
-- Transactions of the command store: what one that succeeds has done, and what every one keeps.
use ryvix.Common.{◌≡◌}
use ryvix.Common.Effect.{Done, ok, err, world}
use ryvix.Commands.Model.{Store, Sx, DeviceError, settle, transaction}

pub transaction-ok :
    {A : Type 0} (f : Sx A) (s s' : Store) (a : A) → transaction f s ≡ ok a s' → f s ≡ ok a s'
unfolding transaction
transaction-ok {A} f s s' a h = go (f s) h
  where
    go : (d : Done DeviceError Store A) → settle s d ≡ ok a s' → d ≡ ok a s'
    go (ok b t) e = e
    go (err x t) e = absurd (cc e)

pub transaction_keeps :
    {A : Type 0} (P : Store → Type 0) (f : Sx A) (s : Store)
    → P s
    → P (world (f s))
    → P (world (transaction f s))
unfolding transaction
transaction_keeps {A} P f s before after = go (f s) after
  where
    go : (d : Done DeviceError Store A) → P (world d) → P (world (settle s d))
    go (ok a s') h = h
    go (err e s') h = before
