-- ===== src/Checks.antt =====
-- Verification of a change with one bounded repair: services/src/workspace/repair-checks.ts.
-- `run`, `repair` and `observe` are the caller's; `new_error` is `new Error(message)`.
pub mod Laws
mod Tests
use ryvix.Common.{
  ℕ, zero, suc, ◌+◌, String, str_eq, Bool, true, false, Option, none, some, List, [], ◌∷◌, ◌==◌,
  if◌then◌else◌,
}
use ryvix.Common.Effect.{M, ok, err, throw, return, ◌>>=◌, ◌>>◌}

pub record CheckResult : Type 0 where
  pub success : Bool
  pub exit_code : ℕ
  pub duration_ms : ℕ
  pub stdout : String
  pub stderr : String

-- One of `previousAttempts`.
pub record Attempt : Type 0 where
  pub success : Bool
  pub exit_code : ℕ
  pub duration_ms : ℕ

pub record CheckRecord : Type 0 where
  pub command : String
  pub success : Bool
  pub exit_code : ℕ
  pub duration_ms : ℕ
  pub previous_attempts : Option (List Attempt)

-- `previous`, a map from commands to records; what was set last is found first.
abbrev pub Previous : Type 0
Previous = List (String × CheckRecord)

unfoldable pub get : String → Previous → Option CheckRecord
get c [] = none
get c ((d, r) ∷ m) = if str_eq d c then some r else get c m

unfoldable pub remember : List CheckRecord → Previous → Previous
remember [] m = m
remember (r ∷ rs) m = remember rs ((r.command, r) ∷ m)

abbrev attempts_of : Option CheckRecord → Option (List Attempt)
attempts_of none = none
attempts_of (some p) =
    some (record { success = p.success; exit_code = p.exit_code; duration_ms = p.duration_ms } ∷ [])

abbrev pub to_record : Previous → String → CheckResult → CheckRecord
to_record previous c result = record {
  command = c;
  success = result.success;
  exit_code = result.exit_code;
  duration_ms = result.duration_ms;
  previous_attempts = attempts_of (get c previous);
}

-- The records of a pass, and the check that ended it.
abbrev pub Pass : Type 0
Pass = List CheckRecord × Option (String × CheckResult)

abbrev pub prepend : CheckRecord → Pass → Pass
prepend r (rs, failure) = (r ∷ rs, failure)

-- What follows a command's record: the rest of the pass, or its end at a failure.
abbrev pub extend :
    {E W : Type 0} → CheckRecord → String × CheckResult → Bool → M E W Pass → M E W Pass
extend r failed true rest = rest >>= λ p. return (prepend r p)
extend r failed false rest = return (r ∷ [], some failed)

module _ {E W : Type 0} (run_check : String → M E W CheckResult)
    (observe : String → ℕ → Option CheckResult → M E W (Unit {0})) where
  -- One command: observed, run, observed again.
  unfoldable pub check_one : ℕ → String → M E W CheckResult
  check_one attempt c = do
    observe c (attempt + 1) none
    result ← run_check c
    observe c (attempt + 1) (some result)
    return result

  -- The inner loop, which a failure ends.
  unfoldable pub pass : ℕ → Previous → List String → M E W Pass
  unfolding get
  pass attempt previous [] = return ([], none)
  pass attempt previous (c ∷ cs) = check_one attempt c >>= λ result.
      extend (to_record previous c result) (c, result) result.success (pass attempt previous cs)

module _ {E W : Type 0} (new_error : String → E)
    (repair : String → CheckResult → M E W (Unit {0})) where
  -- A failure ends the second attempt; after the first it is repaired.
  abbrev pub retry :
      Bool → String × CheckResult → M E W (List CheckRecord) → M E W (List CheckRecord)
  retry true failed next =
      throw (new_error "Sandbox verification failed after one bounded repair; no changes shipped.")
  retry false (c, result) next = repair c result >> next

  abbrev pub conclude :
      ℕ
      → List CheckRecord
      → Option (String × CheckResult)
      → M E W (List CheckRecord)
      → M E W (List CheckRecord)
  conclude attempt records none next = return records
  conclude attempt records (some failed) next = retry (attempt == 1) failed next

module _ {E W : Type 0} (new_error : String → E) (run_check : String → M E W CheckResult)
    (repair : String → CheckResult → M E W (Unit {0}))
    (observe : String → ℕ → Option CheckResult → M E W (Unit {0})) where
  -- The outer loop, with the rounds that are left.
  unfoldable pub attempts : ℕ → ℕ → Previous → List String → M E W (List CheckRecord)
  unfolding pass remember
  attempts zero attempt previous commands = throw (new_error "Verification unavailable")
  attempts (suc left) attempt previous commands =
      pass run_check observe attempt previous commands >>= λ p.
      conclude new_error repair attempt p.0 p.1
        (attempts left (attempt + 1) (remember p.0 previous) commands)

  unfoldable pub verify_with_one_repair : List String → M E W (List CheckRecord)
  unfolding attempts
  verify_with_one_repair commands = attempts 2 0 [] commands
