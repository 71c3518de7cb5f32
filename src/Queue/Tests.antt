-- ===== src/Queue/Tests.antt =====
-- A project with one repository, a developer and a worker, followed from admission to completion,
-- deferral and cancellation.
use ryvix.Common.{
  ℕ, ◌≡◌, ◌≢◌, refl, ◌≤◌, ◌+◌, suc, Bool, true, false, Option, none, some, List, [], ◌∷◌, ◌==◌,
  if◌then◌else◌, arith,
}
use ryvix.Common.Effect.{ok, err, world}
use ryvix.Common.Table.{lookup}
use ryvix.Queue.Model.{Db, Job, JobStatus, Role, RepositoryJob, SessionStatus}
use ryvix.Queue.Base.{holds_lease}
use ryvix.Queue.Admission.{enqueue, claim}
use ryvix.Queue.Finish.{complete, defer_quota, TaskResult, day_ms}
use ryvix.Queue.Lifecycle.{cancel, delete, LifecycleError, request, change_task_lifecycle}
use ryvix.Queue.Run.{Call, enqueues, claims, beats, completes, fails, expires, run}
use ryvix.Queue.Invariant.Coherence.{Inv}
use ryvix.Queue.Invariant.Run.{run-Inv}
use ryvix.Queue.Deletion
use ryvix.Queue.Claiming.{IsTaken, claim-IsTaken, claim-none, claim_twice}
use ryvix.Queue.Results.{IsAdmitted, enqueue-IsAdmitted}
use ryvix.Queue.Outcomes.{IsCompleted, complete-IsCompleted, defer_quota-bounds}
use ryvix.Queue.Cancellation.{cancellation_is_final}
use ryvix.Queue.Cancellation.Writes.{is_stopped, artifact_count}

abbrev office : Db
office = record {
  tasks = [];
  jobs = [];
  projects = (5, 9) ∷ [];
  repositories =
      (7, record { project_id = 5; full_name = "acme/site"; default_branch = "main" }) ∷ [];
  members =
      λ org user. if org == 9 then (if user == 3 then some Role.developer else none) else none;
  credentials = λ project.
      record { expires_at = none; in_vault = true; decrypted_secret = some "token" } ∷ [];
  sessions = [];
  plans = [];
  artifacts = [];
  audit_events = [];
}

abbrev host : Option (List ℕ)
host = some (b'w' ∷ b'1' ∷ [])

abbrev unlocked : ℕ → Bool
unlocked id = false

-- Two prompts are admitted, the first is claimed.
abbrev two_queued : Db
two_queued = run office ((100, enqueues 1 7 9 3 "first") ∷ (200, enqueues 2 7 9 3 "second") ∷ [])

abbrev one_claimed : Db
one_claimed = world (claim 300 unlocked host 40 two_queued)

abbrev first_job : RepositoryJob
first_job = record {
  task_id = 1;
  repository_id = 7;
  project_id = 5;
  organization_id = 9;
  created_by = 3;
  user_prompt = "first";
  full_name = "acme/site";
  default_branch = "main";
}

abbrev second_job : RepositoryJob
second_job = record first_job { task_id = 2; user_prompt = "second" }

office-Inv : Inv office
unfolding lookup
office-Inv = record { fits = λ id. refl }

claims_first : claim 300 unlocked host 40 two_queued ≡ ok (some first_job) one_claimed
unfolding claim run enqueue
claims_first = refl

enqueue-IsAdmitted_example :
    IsAdmitted 100 1 7 3 "first" office (world (enqueue 100 1 7 9 3 "first" office))
enqueue-IsAdmitted_example =
    enqueue-IsAdmitted office (world (enqueue 100 1 7 9 3 "first" office)) 100 1 7 9 3 1 "first"
      office-Inv (unfold lookup in refl) (unfold enqueue in refl)

claim-IsTaken_example : IsTaken 300 unlocked 40 first_job two_queued one_claimed
claim-IsTaken_example =
    claim-IsTaken two_queued one_claimed 300 unlocked host 40 first_job claims_first

-- Another transaction holds the row of the second job.
abbrev second_locked : ℕ → Bool
second_locked id = id == 2

claim-none_example : (second_locked 2 ≡ true) × (one_claimed ≡ one_claimed)
unfolding claim run enqueue lookup
claim-none_example =
    claim-none one_claimed one_claimed 400 second_locked host 41 2 9 _ _ _ refl refl refl
      (omega arith) refl refl refl refl refl

claim_twice_example : second_job.task_id ≢ first_job.task_id
claim_twice_example =
    claim_twice two_queued one_claimed (world (claim 400 unlocked host 41 one_claimed)) 300 400
      unlocked unlocked host host 40 41 first_job second_job claims_first
      (unfold claim run enqueue in refl)

abbrev result : TaskResult
result = record {
  session_id = 8;
  session_status = SessionStatus.active;
  preview_url = none;
  files = "index.html" ∷ [];
  base_sha = "0a1b";
  verification = "passed";
}

complete-IsCompleted_example :
    (holds_lease one_claimed 400 40 1 ≡ true)
    × IsCompleted first_job result one_claimed
        (world (complete 400 first_job 40 result one_claimed))
complete-IsCompleted_example =
    complete-IsCompleted one_claimed (world (complete 400 first_job 40 result one_claimed)) 400 40
      first_job result (unfold complete claim run enqueue in refl)

abbrev deferred : Db
deferred = world (defer_quota 400 400 first_job 40 (some 500) one_claimed)

defer_quota-bounds_example :
    (before : Job) × (after : Job) × (lookup 1 one_claimed.jobs ≡ some before)
    × (lookup 1 deferred.jobs ≡ some after)
    × (before.status ≡ JobStatus.running)
    × (after.status ≡ JobStatus.queued)
    × (after.worker_id ≡ none)
    × (after.lease_expires_at ≡ none)
    × (after.quota_retries ≡ suc before.quota_retries)
    × (after.quota_retries ≤ 3)
    × (400 + 60000 ≤ after.available_at)
    × (after.available_at ≤ 400 + day_ms)
defer_quota-bounds_example =
    defer_quota-bounds one_claimed deferred 400 400 40 500 first_job
      (unfold defer_quota claim run enqueue in refl)

abbrev calls : List (ℕ × Call)
calls =
    (100, enqueues 1 7 9 3 "first")
    ∷ (300, claims unlocked host 40)
    ∷ (400, beats 1 40)
    ∷ (900, fails 1 5 40 false "")
    ∷ (60000, expires)
    ∷ []

run-Inv_example : Inv (run office calls)
run-Inv_example = run-Inv office calls office-Inv

-- The worker of a cancelled task tries to complete it.
abbrev late_calls : List (ℕ × Call)
late_calls = (600, completes first_job 40 result) ∷ (60000, expires) ∷ []

abbrev cancelled : Db
cancelled = world (request 500 cancel 1 3 9 one_claimed)

cancellation_is_final_example :
    (is_stopped (lookup 1 (run cancelled late_calls).tasks) ≡ true)
    × (artifact_count 1 (run cancelled late_calls).artifacts
        ≤ artifact_count 1 one_claimed.artifacts)
cancellation_is_final_example =
    cancellation_is_final one_claimed cancelled 500 1 3 9 (5, []) late_calls
      (unfold request claim run enqueue in refl) (tt, (tt, tt))

-- The cancelled task is deleted; the other one, which waits, is not.
deleted_task : lookup 1 (world (change_task_lifecycle 700 delete 1 3 9 cancelled)).tasks ≡ none
unfolding change_task_lifecycle request claim run enqueue lookup
deleted_task = refl

kept_task :
    change_task_lifecycle 700 delete 2 3 9 cancelled ≡ err LifecycleError.not_finished cancelled
unfolding change_task_lifecycle request claim run enqueue lookup
kept_task = refl
