-- ===== src/Workspace/Tally.antt =====
-- What the loop over the containers adds up.
use ryvix.Common.{
  ℕ, suc, ◌+◌, ◌≡◌, refl, subst, String, Bool, true, not, ◌&&◌, ◌||◌, some, List, [], ◌∷◌, ◌==◌,
  ◌⊎◌, inl, inr, if◌then◌else◌, str_eq, is_some, arith, Bool-cases, Option-cases,
}
use ryvix.Workspace.Model.{Container, Config, has}
use ryvix.Workspace.Budget.{
  side_cpu, side_memory, Tally, is_bounded_side, counted, tally_one, tally_all,
}

-- A workspace's own container, not one beside it.
abbrev pub is_host : Container → Bool
is_host c = not (is_some c.role)

-- How many workspaces there are, and what they reserve with the containers beside them.
unfoldable pub hosts : List Container → ℕ
hosts [] = 0
hosts (c ∷ cs) = let rest = hosts cs in if is_host c then suc rest else rest

unfoldable pub reserved : (Container → ℕ) → List Container → ℕ
reserved size [] = 0
reserved size (c ∷ cs) = let rest = reserved size cs in if is_host c then size c + rest else rest

abbrev pub cpu_of : Config → Container → ℕ
cpu_of config c = c.cpu + side_cpu config

abbrev pub memory_of : Config → Container → ℕ
memory_of config c = c.memory + side_memory config

abbrev pub Sums : Config → List Container → Tally → Tally → Type 0
Sums config cs t t' =
    (t'.count ≡ t.count + hosts cs)
    × (t'.used_cpu ≡ t.used_cpu + reserved (cpu_of config) cs)
    × (t'.used_memory ≡ t.used_memory + reserved (memory_of config) cs)

-- A container beside a workspace leaves the tally as it is.
tally_side :
    (config : Config) (c : Container) (t t' : Tally) (session : ℕ) (role : String)
    → c.session ≡ some session
    → c.is_workspace ≡ true
    → c.role ≡ some role
    → tally_one config c t ≡ inr t'
    → t ≡ t'
unfolding tally_one
tally_side config c t t' session role e w r h =
    elim (Bool-cases (config.static_mode && not (str_eq role "preview-relay"))) [
      | inl x ↦ absurd (cc (rw (e, w, r, x, tally_one) at h))
      | inr x ↦ elim (Bool-cases (not (is_bounded_side c))) [
        | inl y ↦ absurd (cc (rw (e, w, r, x, y, tally_one) at h))
        | inr y ↦ cc (rw (e, w, r, x, y, tally_one) at h)
      ]
    ]

tally_one-Sums :
    (config : Config) (c : Container) (t t' : Tally)
    → tally_one config c t ≡ inr t'
    → Sums config (c ∷ []) t t'
unfolding tally_one hosts reserved
tally_one-Sums config c t t' h = elim (Option-cases c.session) [
  | inl e ↦ absurd (cc (rw (e, tally_one) at h))
  | inr (session, e) ↦ elim (Bool-cases c.is_workspace) [
    | inr w ↦ absurd (cc (rw (e, w, tally_one) at h))
    | inl w ↦ elim (Option-cases c.role) [
      | inl r ↦ elim (Bool-cases (c.cpu == 0 || c.memory == 0 || has session t.sessions)) [
        | inl x ↦ absurd (cc (rw (e, w, r, x, tally_one) at h))
        | inr x ↦
            let same : counted config c session t ≡ t' = cc (rw (e, w, r, x, tally_one) at h) in
            subst (Sums config (c ∷ []) t) same (rw (r) (omega arith, omega arith, omega arith))
      ]
      | inr (role, r) ↦
          let same : t ≡ t' = tally_side config c t t' session role e w r h in
          subst (Sums config (c ∷ []) t) same (rw (r) (omega arith, omega arith, omega arith))
    ]
  ]
]

pub Sum-cases : {A B : Type 0} (x : A ⊎ B) → ((a : A) × (x ≡ inl a)) ⊎ ((b : B) × (x ≡ inr b))
Sum-cases (inl a) = inl (a, refl)
Sum-cases (inr b) = inr (b, refl)

pub tally_all-Sums :
    (config : Config) (cs : List Container) (t t' : Tally)
    → tally_all config cs t ≡ inr t'
    → Sums config cs t t'
unfolding tally_all hosts reserved
tally_all-Sums config [] t t' h =
    let same : t ≡ t' = cc h in
    subst (Sums config [] t) same (omega arith, omega arith, omega arith)
tally_all-Sums config (c ∷ cs) t t' h = elim (Sum-cases (tally_one config c t)) [
  | inl (e, x) ↦ absurd (cc (rw (x, tally_all) at h))
  | inr (m, x) ↦
      let first = tally_one-Sums config c t m x in
      let later = tally_all-Sums config cs m t' (rw (x, tally_all) at h) in
      (
        ground (arith, first.0, later.0),
        ground (arith, first.1, later.1),
        ground (arith, first.2, later.2),
      )
]
