-- ===== src/Workspace/Ports.antt =====
-- The ports of the sessions: the search finds a free one, and no two sessions that are not
-- destroyed hold the same.
use ryvix.Common.{
  ℕ, zero, suc, ◌+◌, ◌≤◌, ◌<◌, ◌≡◌, refl, subst, Bool, true, false, not, ◌&&◌, none, some, List, [],
  ◌∷◌, ◌==◌, ltb, leb, if◌then◌else◌, holds, arith, Bool-cases, Option-cases, inl, inr,
}
use ryvix.Common.Table.{
  Table, lookup, update, insert, count, count-insert, count-update_le, count-update_out,
}
use ryvix.Workspace.Model.{WorkspaceSession, is_destroyed, has, add, delete}
use ryvix.Workspace.Lifetime.{search_port}

search_port-from :
    (ports : List ℕ) (fuel port q : ℕ)
    → q < port + fuel
    → port ≤ q
    → q ≤ 3999
    → has q ports ≡ false
    → (port ≤ search_port ports fuel port)
      × (search_port ports fuel port ≤ q)
      × (has (search_port ports fuel port) ports ≡ false)
unfolding search_port
search_port-from ports zero port q h k l free = absurd (omega (arith, h, k))
search_port-from ports (suc fuel) port q h k l free =
    elim (Bool-cases (has port ports && leb port 3999)) [
      | inl e ↦ elim (Bool-cases (port == q)) [
        | inl s ↦
            let same : port ≡ q = ground arith in
            let taken : has q ports ≡ true = subst (λ x. has x ports ≡ true) same (ground arith) in
            absurd (ground (arith, taken, free))
        | inr s ↦
            let rest =
              search_port-from ports fuel (port + 1) q (omega arith) (ground arith) l free in
            rw (e) (ground (arith, rest.0), rest.1, rest.2)
      ]
      | inr e ↦ rw (e) (omega arith, k, ground arith)
    ]

-- If any port from 3100 to 3999 is free, then the search ends at the least free port: 900 turns of
-- its loop are enough.
pub search_port-least :
    (ports : List ℕ) (q : ℕ)
    → 3100 ≤ q
    → q ≤ 3999
    → has q ports ≡ false
    → (3100 ≤ search_port ports 900 3100)
      × (search_port ports 900 3100 ≤ q)
      × (has (search_port ports 900 3100) ports ≡ false)
search_port-least ports q h k free = search_port-from ports 900 3100 q (omega arith) h k free

-- A search that ends within the range has found a free port.
pub search_port-is_free :
    (ports : List ℕ) (fuel port : ℕ)
    → 4000 ≤ port + fuel
    → ltb 3999 (search_port ports fuel port) ≡ false
    → has (search_port ports fuel port) ports ≡ false
unfolding search_port
search_port-is_free ports zero port h k = absurd (ground (arith, h, k))
search_port-is_free ports (suc fuel) port h k =
    elim (Bool-cases (has port ports && leb port 3999)) [
      | inl e ↦ rw (e) (search_port-is_free ports fuel (port + 1) (omega (arith, h)) (rw (e) at k))
      | inr e ↦ let within : ltb 3999 port ≡ false = rw (e) at k in rw (e) (ground (arith, within))
    ]

-- A session that holds a port.
abbrev pub uses : ℕ → ℕ → WorkspaceSession → Bool
uses p id s = not (is_destroyed s.status) && holds (λ q. q == p) s.preview_port

-- Every port is held at most once, and only if it is allocated.
abbrev pub PortsHeld : Table WorkspaceSession → List ℕ → Type 0
PortsHeld sessions ports = (p : ℕ) → count (uses p) sessions ≤ (if has p ports then 1 else 0)

pub has-add : (p n : ℕ) (set : List ℕ) → has p (add n set) ≡ (if n == p then true else has p set)
has-add p n set = elim (Bool-cases (has n set)) [
  | inl e ↦ elim (Bool-cases (n == p)) [
    | inl s ↦
        let same : n ≡ p = ground arith in
        let held : has p set ≡ true = subst (λ x. has x set ≡ true) same e in rw (e, s, held) refl
    | inr s ↦ rw (e, s) refl
  ]
  | inr e ↦ rw (e) (ground arith)
]

pub has-delete :
    (p n : ℕ) (set : List ℕ) → has p (delete n set) ≡ (if n == p then false else has p set)
has-delete p n [] = ground arith
has-delete p n (m ∷ set) = ground (arith, has-delete p n set)

-- A port is added that no session holds, and is given to a new session.
pub PortsHeld-insert :
    (id port : ℕ) (s : WorkspaceSession) (sessions : Table WorkspaceSession) (ports : List ℕ)
    → s.preview_port ≡ some port
    → count (uses port) sessions ≡ 0
    → has port ports ≡ true
    → PortsHeld sessions ports
    → PortsHeld (insert id s sessions) ports
PortsHeld-insert id port s sessions ports own free held h p =
    let more = count-insert (uses p) id s sessions in
    rw (more) (elim (Bool-cases (port == p)) [
      | inl e ↦
          let same : port ≡ p = ground arith in
          let none_held : count (uses p) sessions ≡ 0 =
            subst (λ x. count (uses x) sessions ≡ 0) same free in
          let taken : has p ports ≡ true = subst (λ x. has x ports ≡ true) same held in
          ground (arith, none_held, taken)
      | inr e ↦
          let other : uses p id s ≡ false = rw (own, holds, e) (ground arith) in rw (other) (h p)
    ])

pub PortsHeld-add :
    (port : ℕ) (sessions : Table WorkspaceSession) (ports : List ℕ)
    → PortsHeld sessions ports
    → PortsHeld sessions (add port ports)
PortsHeld-add port sessions ports h p = ground (arith, h p, has-add p port ports)

pub PortsHeld-delete :
    (port : ℕ) (sessions : Table WorkspaceSession) (ports : List ℕ)
    → count (uses port) sessions ≡ 0
    → PortsHeld sessions ports
    → PortsHeld sessions (delete port ports)
PortsHeld-delete port sessions ports free h p = elim (Bool-cases (port == p)) [
  | inl e ↦
      let same : port ≡ p = ground arith in
      let none_held : count (uses p) sessions ≡ 0 =
        subst (λ x. count (uses x) sessions ≡ 0) same free in
      ground (arith, none_held)
  | inr e ↦ ground (arith, h p, has-delete p port ports)
]

-- A change of a session that does not bring it back to life or change its port.
pub PortsHeld-update :
    (id : ℕ) (f : WorkspaceSession → WorkspaceSession) (sessions : Table WorkspaceSession)
    (ports : List ℕ)
    → ((p : ℕ) (r : WorkspaceSession)
        → lookup id sessions ≡ some r
        → uses p id (f r) ≡ true
        → uses p id r ≡ true)
    → PortsHeld sessions ports
    → PortsHeld (update id f sessions) ports
PortsHeld-update id f sessions ports keeps h p =
    let fewer = count-update_le (uses p) id f sessions (keeps p) in omega (arith, fewer, h p)

-- The end of a session gives its port back.
pub PortsHeld-destroyed :
    (id : ℕ) (f : WorkspaceSession → WorkspaceSession) (s : WorkspaceSession)
    (sessions : Table WorkspaceSession) (ports : List ℕ)
    → ((p : ℕ) (r : WorkspaceSession) → uses p id (f r) ≡ false)
    → lookup id sessions ≡ some s
    → is_destroyed s.status ≡ false
    → PortsHeld sessions ports
    → PortsHeld
        (update id f sessions)
        (elim s.preview_port [ none ↦ ports | some p ↦ delete p ports ])
PortsHeld-destroyed id f s sessions ports dead found live h p =
    let fewer =
      count-update_le (uses p) id f sessions (λ r k u. absurd (ground (arith, dead p r, u))) in
    elim (Option-cases s.preview_port) [
      | inl e ↦ rw (e) (omega (arith, fewer, h p))
      | inr (q, e) ↦ elim (Bool-cases (q == p)) [
        | inl same ↦
            let held : uses p id s ≡ true = rw (live, e, holds, same) refl in
            let out = count-update_out (uses p) id f s sessions found held (dead p s) in
            rw (e) (ground (arith, out, h p))
        | inr other ↦ rw (e) (ground (arith, fewer, h p, has-delete p q ports))
      ]
    ]
