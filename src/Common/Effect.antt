-- ===== src/Common/Effect.antt =====
-- Asynchronous code that may throw: a step of a world `W` that returns a value or an error `E`.
-- Awaiting runs the steps in the order of the source; a throw keeps the world that it reached.
use mathlib.Core.Path.{◌≡◌, refl}
use mathlib.Core.Logic.{◌⊎◌, inl, inr}
use mathlib.Core.Bool.{Bool, true, false}
use ryvix.Common.Tests.{if◌then◌else◌}
use Prim.Native.Nat.{ℕ, ◌+◌, ◌≤◌}
use native.Mathlib.Omega.{arith}

pub data Done (E W A : Type 0) : Type 0 where
  ok : A → W → Done E W A
  err : E → W → Done E W A

abbrev pub M : Type 0 → Type 0 → Type 0 → Type 0
M E W A = W → Done E W A

module _ {E W : Type 0} where
  abbrev pub return : {A : Type 0} → A → M E W A
  return a w = ok a w

  abbrev pub throw : {A : Type 0} → E → M E W A
  throw e w = err e w

  infixl 5 ◌>>=◌ ◌>>◌
  abbrev pub ◌>>=◌ : {A B : Type 0} → M E W A → (A → M E W B) → M E W B
  ◌>>=◌ m f w = elim (m w) [ ok a w' ↦ f a w' | err e w' ↦ err e w' ]

  abbrev pub ◌>>◌ : {A B : Type 0} → M E W A → M E W B → M E W B
  ◌>>◌ m k w = elim (m w) [ ok a w' ↦ k w' | err e w' ↦ err e w' ]

  -- `try { m } catch (e) { h(e) }`
  abbrev pub catch : {A : Type 0} → M E W A → (E → M E W A) → M E W A
  catch m h w = elim (m w) [ ok a w' ↦ ok a w' | err e w' ↦ h e w' ]

  pub Done-cases :
      {A : Type 0} (d : Done E W A)
      → ((a : A) × (w : W) × (d ≡ ok a w)) ⊎ ((e : E) × (w : W) × (d ≡ err e w))
  Done-cases (ok a w) = inl (a, w, refl)
  Done-cases (err e w) = inr (e, w, refl)

module _ {E W A B : Type 0} where
  -- Inversion of a sequence that returned.
  pub bind-ok :
      (m : M E W A) (k : A → M E W B) (w w'' : W) (b : B)
      → (m >>= k) w ≡ ok b w''
      → (a : A) × (w' : W) × (m w ≡ ok a w') × (k a w' ≡ ok b w'')
  bind-ok m k w w'' b h = elim (Done-cases (m w)) [
    | inl (a, w', e) ↦ (a, w', e, rw (e, ◌>>=◌) at h)
    | inr (x, w', e) ↦ absurd (cc (rw (e, ◌>>=◌) at h))
  ]

pub ok-value :
    {E W A : Type 0} {a b : A} {w w' : W} → ◌≡◌ {A = Done E W A} (ok a w) (ok b w') → a ≡ b
ok-value h = cc

-- The world that a step leaves behind.
abbrev pub world : {E W A : Type 0} → Done E W A → W
world (ok a w) = w
world (err e w) = w

-- A property of the world that a sequence keeps.
pub bind_keeps :
    {E W A B : Type 0} (P : W → Type 0) (m : M E W A) (k : A → M E W B) (w : W)
    → P (world (m w))
    → ((a : A) (d : W) → P d → P (world (k a d)))
    → P (world ((m >>= k) w))
bind_keeps {E} {W} {A} P m k w h next = go (m w) h
  where
    go : (d : Done E W A) → P (world d) → P (world (((λ _. d) >>= k) w))
    go (ok a d) h' = next a d h'
    go (err e d) h' = h'

-- Either branch of a conditional.
pub if_keeps :
    {E W A : Type 0} (P : W → Type 0) (b : Bool) (x y : Done E W A)
    → (b ≡ true → P (world x))
    → (b ≡ false → P (world y))
    → P (world (if b then x else y))
if_keeps P true x y hx hy = hx refl
if_keeps P false x y hx hy = hy refl

-- A bound on what a step adds to a measure of the world, whether it returns or throws.
module _ {E W : Type 0} (measure : W → ℕ) where
  abbrev pub Costs : {A : Type 0} → M E W A → ℕ → Type 0
  Costs m n = (w : W) → measure (world (m w)) ≤ measure w + n

  pub Costs-bind :
      {A B : Type 0} (m : M E W A) (k : A → M E W B) (x y : ℕ)
      → Costs m x
      → ((a : A) → Costs (k a) y)
      → Costs (m >>= k) (x + y)
  Costs-bind m k x y hm hk w = elim (Done-cases (m w)) [
    | inl (a, w', e) ↦ rw (e, world, ◌>>=◌) (omega (arith, hk a w', rw (e, world) at (hm w)))
    | inr (e', w', e) ↦ rw (e, world, ◌>>=◌) (omega (arith, rw (e, world) at (hm w)))
  ]

-- Where a step leads: to a world with `Q` where it returns, and to one with `P` where it throws.
abbrev pub Leads : {E W A : Type 0} → (W → Type 0) → (W → Type 0) → Done E W A → Type 0
Leads Q P (ok a w) = Q w
Leads Q P (err e w) = P w

module _ {E W A : Type 0} where
  pub world-Leads : (P : W → Type 0) (d : Done E W A) → Leads P P d → P (world d)
  world-Leads P (ok a w) h = h
  world-Leads P (err e w) h = h

  pub bind-Leads :
      {B : Type 0} (Q S P : W → Type 0) (m : M E W A) (k : A → M E W B) (w : W)
      → Leads Q P (m w)
      → ((a : A) (d : W) → Q d → Leads S P (k a d))
      → Leads S P ((m >>= k) w)
  bind-Leads {B} Q S P m k w h next = go (m w) h
    where
      go : (d : Done E W A) → Leads Q P d → Leads S P (((λ _. d) >>= k) w)
      go (ok a d) h' = next a d h'
      go (err e d) h' = h'

  pub then-Leads :
      {B : Type 0} (Q S P : W → Type 0) (m : M E W A) (k : M E W B) (w : W)
      → Leads Q P (m w)
      → ((d : W) → Q d → Leads S P (k d))
      → Leads S P ((m >> k) w)
  then-Leads {B} Q S P m k w h next = go (m w) h
    where
      go : (d : Done E W A) → Leads Q P d → Leads S P (((λ _. d) >> k) w)
      go (ok a d) h' = next d h'
      go (err e d) h' = h'

  pub catch-Leads :
      (Q X P : W → Type 0) (m : M E W A) (handle : E → M E W A) (w : W)
      → Leads Q X (m w)
      → ((e : E) (d : W) → X d → Leads Q P (handle e d))
      → Leads Q P (catch m handle w)
  catch-Leads Q X P m handle w h next = go (m w) h
    where
      go : (d : Done E W A) → Leads Q X d → Leads Q P (catch (λ _. d) handle w)
      go (ok a d) h' = h'
      go (err e d) h' = next e d h'

  pub if-Leads :
      (Q P : W → Type 0) (b : Bool) (x y : M E W A) (w : W)
      → (b ≡ true → Leads Q P (x w))
      → (b ≡ false → Leads Q P (y w))
      → Leads Q P ((if b then x else y) w)
  if-Leads Q P true x y w hx hy = hx refl
  if-Leads Q P false x y w hx hy = hy refl

  pub Leads-map :
      (Q P R S : W → Type 0) (d : Done E W A)
      → ((w : W) → Q w → R w)
      → ((w : W) → P w → S w)
      → Leads Q P d
      → Leads R S d
  Leads-map Q P R S (ok a w) f g h = f w h
  Leads-map Q P R S (err e w) f g h = g w h
