-- ===== src/Checks/Laws.antt =====
-- A verification that succeeds, and what it may cost.
use ryvix.Common.{
  ℕ, zero, suc, ◌+◌, ◌≡◌, refl, String, Bool, true, false, Option, none, some, List, [], ◌∷◌, ◌==◌,
  subst, sym, ap, arith, map, All, ◌⊎◌, inl, inr, Bool-cases,
}
use ryvix.Common.Effect.{M, bind-ok, ok-value, return, Costs, Costs-bind, ok, ◌>>=◌, ◌>>◌}
use ryvix.Checks.{
  CheckResult, CheckRecord, extend, conclude, retry, Pass, Previous, prepend, to_record, check_one,
  pass, attempts, remember, verify_with_one_repair,
}

abbrev pub commands_of : List CheckRecord → List String
commands_of rs = map (λ r. r.command) rs

abbrev pub Passed : List CheckRecord → Type 0
Passed rs = All (λ r. r.success ≡ true) rs

module _ {E W : Type 0} where
  -- A pass that went on to its end had this check succeed.
  extend-ok :
      (r : CheckRecord) (failed : String × CheckResult) (b : Bool) (rest : M E W Pass) (w w' : W)
      (rs : List CheckRecord)
      → extend r failed b rest w ≡ ok (rs, none) w'
      → (b ≡ true) × (later : List CheckRecord) × (rest w ≡ ok (later, none) w') × (rs ≡ r ∷ later)
  extend-ok r failed false rest w w' rs h = absurd (cc h)
  extend-ok r failed true rest w w' rs h =
      let (p, w1, e, h1) = bind-ok rest (λ p. return (prepend r p)) w w' (rs, none) h in
      let q : prepend r p ≡ (rs, none) = cc h1 in
      (refl, p.0, cc (e, h1, ap (λ (t : Pass). t.1) q), ap (λ (t : Pass). t.0) (sym q))

module _ {E W : Type 0} (run_check : String → M E W CheckResult)
    (observe : String → ℕ → Option CheckResult → M E W (Unit {0})) where
  pub pass-Passed :
      (n : ℕ) (previous : Previous) (cs : List String) (w w' : W) (rs : List CheckRecord)
      → pass run_check observe n previous cs w ≡ ok (rs, none) w'
      → (commands_of rs ≡ cs) × Passed rs
  unfolding pass
  pass-Passed n previous [] w w' rs h =
      let e : [] ≡ rs = ap (λ (t : Pass). t.0) (ok-value h) in (rw (← e), rw (← e) tt)
  pass-Passed n previous (c ∷ cs) w w' rs h =
      let (r, w1, checked, h1) =
        bind-ok (check_one run_check observe n c)
          (λ result.
            extend (to_record previous c result) (c, result) result.success
              (pass run_check observe n previous cs))
          w w' (rs, none) h in
      let (passed, later, h2, e) =
        extend-ok (to_record previous c r) (c, r) r.success (pass run_check observe n previous cs)
          w1 w' rs h1 in
      let (same, all_passed) = pass-Passed n previous cs w1 w' later h2 in
      rw e (rw same, (passed, all_passed))

module _ {E W : Type 0} (new_error : String → E) (run_check : String → M E W CheckResult)
    (repair : String → CheckResult → M E W (Unit {0}))
    (observe : String → ℕ → Option CheckResult → M E W (Unit {0})) where
  conclude-ok :
      (n : ℕ) (records : List CheckRecord) (failure : Option (String × CheckResult))
      (next : M E W (List CheckRecord)) (w w' : W) (rs : List CheckRecord)
      → conclude new_error repair n records failure next w ≡ ok rs w'
      → ((failure ≡ none) × (records ≡ rs)) ⊎ ((w1 : W) × (next w1 ≡ ok rs w'))
  conclude-ok n records none next w w' rs h = inl (refl, ok-value h)
  conclude-ok n records (some (c, r)) next w w' rs h = elim (Bool-cases (n == 1)) [
    | inl e ↦ absurd (cc (rw (e, retry) at h))
    | inr e ↦
        let (_, w1, _, h1) = bind-ok (repair c r) (λ _. next) w w' rs (rw (e, retry) at h) in
        inr (w1, h1)
  ]

  attempts-Passed :
      (left n : ℕ) (previous : Previous) (cs : List String) (w w' : W) (rs : List CheckRecord)
      → attempts new_error run_check repair observe left n previous cs w ≡ ok rs w'
      → (commands_of rs ≡ cs) × Passed rs
  unfolding attempts
  attempts-Passed zero n previous cs w w' rs h = absurd (cc h)
  attempts-Passed (suc left) n previous cs w w' rs h =
      let rest = λ (p : Pass).
        attempts new_error run_check repair observe left (n + 1) (remember p.0 previous) cs in
      let ((records, failure), w1, e, h1) =
        bind-ok (pass run_check observe n previous cs)
          (λ p. conclude new_error repair n p.0 p.1 (rest p)) w w' rs h in
      elim (conclude-ok n records failure (rest (records, failure)) w1 w' rs h1) [
        | inl (none', same) ↦ pass-Passed run_check observe n previous cs w w1 rs (
            rw (← same)
              (subst (λ f. pass run_check observe n previous cs w ≡ ok (records, f) w1) none' e))
        | inr (w2, h2) ↦ attempts-Passed left (n + 1) (remember records previous) cs w2 w' rs h2
      ]

  -- A verification that returns has a successful record for every command, in order: a second
  -- failure never ends in a result.
  pub verify-Passed :
      (commands : List String) (w w' : W) (records : List CheckRecord)
      → verify_with_one_repair new_error run_check repair observe commands w ≡ ok records w'
      → (commands_of records ≡ commands) × Passed records
  unfolding verify_with_one_repair
  verify-Passed commands w w' records h = attempts-Passed 2 0 [] commands w w' records h

extend-Costs :
    {E W : Type 0} (measure : W → ℕ) (r : CheckRecord) (failed : String × CheckResult) (b : Bool)
    (rest : M E W Pass) (n : ℕ)
    → Costs measure rest n
    → Costs measure (extend r failed b rest) n
extend-Costs measure r failed false rest n h w = omega arith
extend-Costs measure r failed true rest n h w =
    omega (arith, Costs-bind measure rest (λ p. return (prepend r p)) n 0 h (λ p v. omega arith) w)

-- The sum over a list of commands.
abbrev pub cost : (String → ℕ) → List String → ℕ
cost x [] = 0
cost x (c ∷ cs) = x c + cost x cs

-- What a verification costs, by any measure of the world.
module _ {E W : Type 0} (new_error : String → E) (run_check : String → M E W CheckResult)
    (repair : String → CheckResult → M E W (Unit {0}))
    (observe : String → ℕ → Option CheckResult → M E W (Unit {0})) (measure : W → ℕ)
    (x : String → ℕ) (y : ℕ) (check_cost : (c : String) → Costs measure (run_check c) (x c))
    (repair_cost : (c : String) (r : CheckResult) → Costs measure (repair c r) y)
    (observe_cost : (c : String) (n : ℕ) (r : Option CheckResult)
      → Costs measure (observe c n r) 0) where
  check_one-Costs : (n : ℕ) (c : String) → Costs measure (check_one run_check observe n c) (x c)
  unfolding check_one
  check_one-Costs n c w = omega (
    arith,
    Costs-bind measure (observe c (n + 1) none)
        (λ _. run_check c >>= λ r. observe c (n + 1) (some r) >> return r) 0 (x c + 0)
        (observe_cost c (n + 1) none)
        (λ _.
          Costs-bind measure (run_check c) (λ r. observe c (n + 1) (some r) >> return r) (x c) 0
            (check_cost c) (λ r v. observed r v))
        w,
  )
    where
      observed : (r : CheckResult) → Costs measure (observe c (n + 1) (some r) >> return r) 0
      observed r v = omega (
        arith,
        Costs-bind measure (observe c (n + 1) (some r)) (λ _. return r) 0 0
            (observe_cost c (n + 1) (some r)) (λ _ u. omega arith) v,
      )

  pass-Costs :
      (n : ℕ) (previous : Previous) (cs : List String)
      → Costs measure (pass run_check observe n previous cs) (cost x cs)
  unfolding pass
  pass-Costs n previous [] w = omega arith
  pass-Costs n previous (c ∷ cs) w = omega (
    arith,
    Costs-bind measure (check_one run_check observe n c)
        (λ r.
          extend (to_record previous c r) (c, r) r.success (pass run_check observe n previous cs))
        (x c) (cost x cs) (check_one-Costs n c)
        (λ r.
          extend-Costs measure (to_record previous c r) (c, r) r.success _ (cost x cs)
            (pass-Costs n previous cs))
        w,
  )

  second-Costs :
      (left : ℕ) (previous : Previous) (cs : List String)
      → Costs measure
          (attempts new_error run_check repair observe (suc left) 1 previous cs)
          (cost x cs)
  unfolding attempts
  second-Costs left previous cs w = omega (
    arith,
    Costs-bind measure (pass run_check observe 1 previous cs)
        (λ p.
          conclude new_error repair 1 p.0 p.1
            (attempts new_error run_check repair observe left 2 (remember p.0 previous) cs))
        (cost x cs) 0 (pass-Costs 1 previous cs)
        (λ p.
          last p.0 p.1
            (attempts new_error run_check repair observe left 2 (remember p.0 previous) cs))
        w,
  )
    where
      last :
          (rs : List CheckRecord) (failure : Option (String × CheckResult))
          (next : M E W (List CheckRecord))
          → Costs measure (conclude new_error repair 1 rs failure next) 0
      last rs none next v = omega arith
      last rs (some f) next v = omega arith

  -- If a check of a command adds at most `x` of that command to a measure, each repair `y` and
  -- observing nothing, then a verification adds at most the sum of `x` over its commands twice and
  -- `y` once, whether it returns or throws.
  pub verify-Costs :
      (commands : List String)
      → Costs measure
          (verify_with_one_repair new_error run_check repair observe commands)
          (cost x commands + (y + cost x commands))
  unfolding verify_with_one_repair attempts
  verify-Costs commands w =
      let n = cost x commands in
      let again =
        λ (p : Pass). attempts new_error run_check repair observe 1 1 (remember p.0 []) commands in
      omega (
        arith,
        Costs-bind measure (pass run_check observe 0 [] commands)
            (λ p. conclude new_error repair 0 p.0 p.1 (again p)) n (y + n)
            (pass-Costs 0 [] commands)
            (λ p. first p.0 p.1 (again p) n (second-Costs 0 (remember p.0 []) commands)) w,
      )
    where
      first :
          (rs : List CheckRecord) (failure : Option (String × CheckResult))
          (next : M E W (List CheckRecord)) (n : ℕ)
          → Costs measure next n
          → Costs measure (conclude new_error repair 0 rs failure next) (y + n)
      first rs none next n h v = omega arith
      first rs (some (c, r)) next n h v =
          Costs-bind measure (repair c r) (λ _. next) y n (repair_cost c r) (λ _. h) v
