-- ===== src/Common/Table.antt =====
-- A table with a primary key, as a list of rows in insertion order.
use Prim.Native.Nat.{ℕ, suc, ◌≤◌}
use mathlib.Core.Path.{◌≡◌, refl}
use mathlib.Core.Bool.{Bool, true, false}
use mathlib.Core.Logic.{inl, inr}
use mathlib.Core.Option.{Option, none, some}
use mathlib.Core.List.{List, [], ◌∷◌}
use native.Mathlib.Omega.{arith}
use ryvix.Common.Tests.{◌==◌, if◌then◌else◌, is_some, Option-cases, Bool-cases, ltb, ==_refl}

abbrev pub Table : Type 0 → Type 0
Table R = List (ℕ × R)

-- `UPDATE` on a row that may be missing.
abbrev pub over : {R : Type 0} → (R → R) → Option R → Option R
over f none = none
over f (some r) = some (f r)

module _ {R : Type 0} where
  unfoldable pub lookup : ℕ → Table R → Option R
  lookup k [] = none
  lookup k ((j, r) ∷ t) = if j == k then some r else lookup k t

  -- `UPDATE … SET … WHERE id = k`
  unfoldable pub update : ℕ → (R → R) → Table R → Table R
  update k f [] = []
  update k f ((j, r) ∷ t) = if j == k then (j, f r) ∷ t else (j, r) ∷ update k f t

  -- `INSERT`, at a key that is not taken
  unfoldable pub insert : ℕ → R → Table R → Table R
  insert k r [] = (k, r) ∷ []
  insert k r ((j, s) ∷ t) = (j, s) ∷ insert k r t

  -- `DELETE … WHERE id = k`
  unfoldable pub remove : ℕ → Table R → Table R
  remove k [] = []
  remove k ((j, r) ∷ t) = if j == k then remove k t else (j, r) ∷ remove k t

  -- `SELECT count(*) … WHERE p`
  unfoldable pub count : (ℕ → R → Bool) → Table R → ℕ
  count p [] = 0
  count p ((j, r) ∷ t) = if p j r then suc (count p t) else count p t

  pub lookup-update :
      (k j : ℕ) (f : R → R) (t : Table R)
      → lookup j (update k f t) ≡ (if k == j then over f (lookup j t) else lookup j t)
  unfolding lookup update
  lookup-update k j f [] = ground arith
  lookup-update k j f ((i, r) ∷ t) = ground (arith, lookup-update k j f t)

  pub lookup-insert :
      (k j : ℕ) (r : R) (t : Table R)
      → lookup j (insert k r t)
        ≡ (if is_some (lookup j t) then lookup j t else if k == j then some r else none)
  unfolding lookup insert
  lookup-insert k j r [] = refl
  lookup-insert k j r ((i, s) ∷ t) = ground (arith, lookup-insert k j r t)

  pub lookup-remove :
      (k j : ℕ) (t : Table R) → lookup j (remove k t) ≡ (if k == j then none else lookup j t)
  unfolding lookup remove
  lookup-remove k j [] = ground arith
  lookup-remove k j ((i, r) ∷ t) = ground (arith, lookup-remove k j t)

  pub count-remove_le : (p : ℕ → R → Bool) (k : ℕ) (t : Table R) → count p (remove k t) ≤ count p t
  unfolding count remove
  count-remove_le p k [] = omega arith
  count-remove_le p k ((i, r) ∷ t) = ground (arith, count-remove_le p k t)

  -- A test that is stronger at the table's keys counts no more rows.
  pub count_mono :
      (p q : ℕ → R → Bool) (t : Table R)
      → ((k : ℕ) (r : R) → is_some (lookup k t) ≡ true → p k r ≡ true → q k r ≡ true)
      → count p t ≤ count q t
  unfolding count lookup
  count_mono p q [] h = omega arith
  count_mono p q ((i, r) ∷ t) h =
      ground (arith, count_mono p q t (λ k s m. h k s (ground arith)), h i r (rw (==_refl i)))

  pub count-insert :
      (p : ℕ → R → Bool) (k : ℕ) (r : R) (t : Table R)
      → count p (insert k r t) ≡ (if p k r then suc (count p t) else count p t)
  unfolding count insert
  count-insert p k r [] = refl
  count-insert p k r ((i, s) ∷ t) = ground (arith, count-insert p k r t)

  -- An update that does not make the test true of the row never raises the count.
  pub count-update_le :
      (p : ℕ → R → Bool) (k : ℕ) (f : R → R) (t : Table R)
      → ((r : R) → lookup k t ≡ some r → p k (f r) ≡ true → p k r ≡ true)
      → count p (update k f t) ≤ count p t
  unfolding count update lookup
  count-update_le p k f [] h = omega arith
  count-update_le p k f ((i, r) ∷ t) h = elim (Bool-cases (i == k)) [
    | inl e ↦ ground (arith, h r (rw e))
    | inr e ↦ ground (arith, count-update_le p k f t (λ r' h'. h r' (rw e h')))
  ]

-- `SELECT … WHERE p ORDER BY rank LIMIT 1`: the first key of least rank among those that pass.
module _ (p : ℕ → Bool) (rank : ℕ → ℕ) where
  better : ℕ → Option ℕ → Option ℕ
  better k none = some k
  better k (some j) = if ltb (rank j) (rank k) then some j else some k

  unfoldable pub first_by : {R : Type 0} → Table R → Option ℕ
  unfolding better
  first_by [] = none
  first_by ((k, r) ∷ t) = if p k then better k (first_by t) else first_by t

  pub first_by_passes : {R : Type 0} (t : Table R) (k : ℕ) → first_by t ≡ some k → p k ≡ true
  unfolding first_by
  first_by_passes [] k h = absurd (ground arith)
  first_by_passes ((j, r) ∷ t) k h = elim (Option-cases (first_by t)) [
    | inl e ↦ ground arith
    | inr (i, e) ↦ ground (arith, first_by_passes t i e)
  ]

  pub first_by-none :
      {R : Type 0} (t : Table R) (j : ℕ)
      → first_by t ≡ none
      → is_some (lookup j t) ≡ true
      → p j ≡ false
  unfolding first_by lookup
  first_by-none [] j h m = absurd (ground arith)
  first_by-none ((i, r) ∷ t) j h m = elim (Option-cases (first_by t)) [
    | inl e ↦ ground (arith, first_by-none t j e)
    | inr (l, e) ↦ ground arith
  ]

  pub first_by_least :
      {R : Type 0} (t : Table R) (k j : ℕ)
      → first_by t ≡ some k
      → is_some (lookup j t) ≡ true
      → p j ≡ true
      → rank k ≤ rank j
  unfolding first_by lookup
  first_by_least [] k j h m q = absurd (ground arith)
  first_by_least ((i, r) ∷ t) k j h m q = elim (Option-cases (first_by t)) [
    | inl e ↦ ground (arith, first_by-none t j e)
    | inr (l, e) ↦ ground (arith, first_by_least t l j e)
  ]

module _ {R : Type 0} (p : ℕ → R → Bool) where
  -- An update that makes the test false of a row that passed it lowers the count by one.
  pub count-update_out :
      (k : ℕ) (f : R → R) (r : R) (t : Table R)
      → lookup k t ≡ some r
      → p k r ≡ true
      → p k (f r) ≡ false
      → suc (count p (update k f t)) ≡ count p t
  unfolding count update lookup
  count-update_out k f r [] h before after = absurd (cc h)
  count-update_out k f r ((i, s) ∷ t) h before after = elim (Bool-cases (i == k)) [
    | inl e ↦
        let same : s ≡ r = cc (rw (e) at h) in
        let key : i ≡ k = ground arith in
        let passed : p i s ≡ true = cc in
        let failed : p i (f s) ≡ false = cc in rw (e, passed, failed) refl
    | inr e ↦ let rest = count-update_out k f r t (rw (e) at h) before after in ground (arith, rest)
  ]
