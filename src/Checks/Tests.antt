-- ===== src/Checks/Tests.antt =====
-- A command that fails once and is repaired, in a world that counts the runs.
use ryvix.Common.{
  ℕ, Option, ◌+◌, ◌≡◌, refl, String, str_eq, List, [], ◌∷◌, if◌then◌else◌, ltb, arith,
}
use ryvix.Common.Effect.{M, Done, ok, err, world, Costs}
use ryvix.Checks.{CheckResult, CheckRecord, check_one, verify_with_one_repair}
use ryvix.Checks.Laws.{commands_of, Passed, cost, verify-Passed, verify-Costs}

-- A check fails until two steps were counted.
abbrev flaky : String → M String ℕ CheckResult
flaky command w =
    ok (record { success = ltb 1 w; exit_code = 0; duration_ms = 5; stdout = ""; stderr = "" })
      (w + 1)

abbrev mend : String → CheckResult → M String ℕ (Unit {0})
mend command r w = ok tt (w + 1)

abbrev commands : List String
commands = "npm test" ∷ "npm run build" ∷ []

abbrev message : String → String
message e = e

abbrev quiet : String → ℕ → Option CheckResult → M String ℕ (Unit {0})
quiet command attempt r w = ok tt w

abbrev outcome : Done String ℕ (List CheckRecord)
outcome = verify_with_one_repair message flaky mend quiet commands 0

abbrev records_of : Done String ℕ (List CheckRecord) → List CheckRecord
records_of (ok rs w) = rs
records_of (err e w) = []

abbrev records : List CheckRecord
records = records_of outcome

verify-Passed_example : (commands_of records ≡ commands) × Passed records
verify-Passed_example =
    verify-Passed message flaky mend quiet commands 0 (world outcome) records
      (unfold verify_with_one_repair check_one in refl)

-- The number of runs of one command, which is at most two here.
abbrev runs_of : String → String → ℕ
runs_of command c = if str_eq c command then 1 else 0

abbrev counting : String → M String ℕ CheckResult
counting c w =
    ok (record { success = ltb 1 w; exit_code = 0; duration_ms = 5; stdout = ""; stderr = "" })
      (w + runs_of "npm test" c)

abbrev idle : String → CheckResult → M String ℕ (Unit {0})
idle command r w = ok tt w

verify-Costs_example :
    Costs
      (λ w. w)
      (verify_with_one_repair message counting idle quiet commands)
      (cost (runs_of "npm test") commands + (0 + cost (runs_of "npm test") commands))
verify-Costs_example =
    verify-Costs message counting idle quiet (λ w. w) (runs_of "npm test") 0 (λ c w. omega arith)
      (λ c r w. omega arith) (λ c n r w. omega arith) commands
