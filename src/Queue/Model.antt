-- ===== src/Queue/Model.antt =====
-- The tables that the job store reads and writes (packages/database/src/types.ts and the columns
-- named by the SQL of backend/src/services/repository-job-store.ts). Identifiers are only compared,
-- and are numbers; times are milliseconds; a nullable column is an `Option`.
use ryvix.Common.{ℕ, String, Bool, true, false, Option, List, ltb, leb, holds}
use ryvix.Common.Table.{Table, lookup}
use ryvix.Progress.{TaskProgress}

pub data Role : Type 0 where
  owner admin developer viewer : Role

pub data TaskChannel : Type 0 where
  web whatsapp gmail : TaskChannel

pub data TaskType : Type 0 where
  coding investigation operational recovery preview : TaskType

pub data TaskStatus : Type 0 where
  queued planning awaiting_approval executing verifying completed failed cancelled : TaskStatus

pub data JobStatus : Type 0 where
  queued running completed failed cancelled : JobStatus

pub data ActorType : Type 0 where
  user ai system : ActorType

pub data SessionStatus : Type 0 where
  provisioning active executing terminating destroyed : SessionStatus

pub record Task : Type 0 where
  pub project_id : ℕ
  pub created_by : ℕ
  pub channel : TaskChannel
  pub task_type : TaskType
  pub status : TaskStatus
  pub user_prompt : String
  pub active_plan_id : Option ℕ
  pub summary : Option String
  pub error_details : Option String

-- A row of `repository_jobs`, keyed by its task.
pub record Job : Type 0 where
  pub repository_id : ℕ
  pub status : JobStatus
  pub worker_id : Option ℕ
  pub worker_host_id : Option (List ℕ)
  pub lease_expires_at : Option ℕ
  pub available_at : ℕ
  pub quota_retries : ℕ
  pub created_at : ℕ

pub record Repository : Type 0 where
  pub project_id : ℕ
  pub full_name : String
  pub default_branch : String

-- What a claim returns, and the worker passes back (`RepositoryJob`).
pub record RepositoryJob : Type 0 where
  pub task_id : ℕ
  pub repository_id : ℕ
  pub project_id : ℕ
  pub organization_id : ℕ
  pub created_by : ℕ
  pub user_prompt : String
  pub full_name : String
  pub default_branch : String

-- A row of `workspace_sessions`, the columns that the store writes or tests.
pub record Session : Type 0 where
  pub task_id : ℕ
  pub project_id : ℕ
  pub container_id : String
  pub status : SessionStatus
  pub preview_url : Option String
  pub preview_port : Option ℕ
  pub expires_at : ℕ
  pub worker_host_id : Option (List ℕ)

pub record Artifact : Type 0 where
  pub task_id : ℕ
  pub repository_id : ℕ
  pub base_commit_sha : String
  pub base_branch : String
  pub files : List String
  pub verification : String

-- A row of `plans`.
pub record Plan : Type 0 where
  pub id : ℕ
  pub task_id : ℕ
  pub steps : List String

-- A row of `connector_credentials`, whether the vault has a row for it, and the secret there.
pub record Credential : Type 0 where
  pub expires_at : Option ℕ
  pub in_vault : Bool
  pub decrypted_secret : Option String

-- What `diff_summary` says: the task or session, or the bounded stage event.
pub data AuditDetail : Type 0 where
  about : ℕ → AuditDetail
  stage_event : TaskProgress → AuditDetail

pub record AuditEvent : Type 0 where
  pub project_id : ℕ
  pub actor_id : Option ℕ
  pub actor_type : ActorType
  pub action_name : String
  pub subject : ℕ
  pub diff_summary : AuditDetail
  pub success : Bool

pub record Db : Type 0 where
  pub tasks : Table Task
  pub jobs : Table Job
  -- `projects`, by identifier, each with its organization
  pub projects : Table ℕ
  pub repositories : Table Repository
  -- `organization_members`, by organization and user
  pub members : ℕ → ℕ → Option Role
  -- the OAuth credentials of a project's active GitHub connectors, the one updated last at the head
  pub credentials : ℕ → List Credential
  pub sessions : Table Session
  pub plans : List Plan
  pub artifacts : List Artifact
  pub audit_events : List AuditEvent

-- `m.role IN ('owner','admin','developer')`
abbrev pub is_operator : Role → Bool
is_operator viewer = false
is_operator _ = true

-- `status IN ('planning','executing','verifying')`
abbrev pub is_working : TaskStatus → Bool
is_working planning = true
is_working executing = true
is_working verifying = true
is_working _ = false

abbrev pub is_queued : JobStatus → Bool
is_queued queued = true
is_queued _ = false

abbrev pub is_running : JobStatus → Bool
is_running running = true
is_running _ = false

-- `status IN ('queued','running')`
abbrev pub is_active : JobStatus → Bool
is_active queued = true
is_active running = true
is_active _ = false

-- A comparison with a column that is NULL does not hold.
abbrev pub is_later : ℕ → Option ℕ → Bool
is_later now = holds (λ at. ltb now at)

abbrev pub is_past : ℕ → Option ℕ → Bool
is_past now = holds (λ at. leb at now)

-- The user is a member of the project's organization, in a role that may operate.
unfoldable pub may_operate : Db → ℕ → ℕ → Bool
unfolding lookup
may_operate db project member =
    holds (λ org. holds is_operator (db.members org member)) (lookup project db.projects)
