-- ===== src/Executors/Profiles.antt =====
-- src/executor-profile.js: the profiles of the executors, without their notes; of `bounds` the fields
-- that the code reads.
use cairnstone_v.Prelude.{ℕ, String, Bool, true, false, Option, none, some, List, [], ◌∷◌}

pub data CostClass : Type 0 where
  free low medium high paid_external : CostClass

pub data LatencyClass : Type 0 where
  sync_fast sync async async_long : LatencyClass

pub data QualityClass : Type 0 where
  deterministic specialist balanced premium : QualityClass

pub data ContextMode : Type 0 where
  cairnstone_native compiled_context : ContextMode

pub record Health : Type 0 where
  pub status : String
  pub adapter_live : Bool
  pub dry_run : Option Bool

pub record Profile : Type 0 where
  pub executor_id : String
  pub executor_class : String
  pub adapter_id : String
  pub selection_rank : ℕ
  pub availability : String
  pub health : Health
  pub capabilities : List String
  pub risk_classes_supported : List String
  pub authorization_requirements : List String
  pub execution_mode : String
  pub cost_class : CostClass
  pub latency_class : LatencyClass
  pub quality_class : QualityClass
  pub context_mode : ContextMode
  pub requires_compiled_context : Bool
  pub supported_ref_types : List String
  pub context_resolution_endpoint : Option String
  pub verification_capabilities : List String
  pub supported_artifact_types : List String
  pub max_concurrency : ℕ
  pub dry_run_default : Option Bool
  pub requires_immutable_base_sha : Bool

abbrev pub native_supported_ref_types : List String
native_supported_ref_types =
    "stone_hash" ∷ "attachment_ref" ∷ "code_session_id" ∷ "path_head" ∷ "repo_sha"
    ∷ "access_grant_id" ∷ "scope" ∷ "task_run_id" ∷ "msg_ref" ∷ []

abbrev pub compiled_supported_ref_types : List String
compiled_supported_ref_types =
    "attachment_ref" ∷ "repo_sha" ∷ "stone_hash" ∷ "task_run_id" ∷ "msg_ref" ∷ []

abbrev pub deterministic_mcp : Profile
deterministic_mcp = record {
  executor_id = "exec:deterministic-mcp";
  executor_class = "deterministic_mcp";
  adapter_id = "adapter:deterministic-mcp-v1";
  selection_rank = 1;
  availability = "available";
  health = record { status = "healthy"; adapter_live = true; dry_run = none };
  capabilities =
      "repo.read" ∷ "repo.search" ∷ "d1.inspect" ∷ "cloudflare.inspect" ∷ "stone.read"
      ∷ "attachment.resolve" ∷ [];
  risk_classes_supported = "read" ∷ [];
  authorization_requirements = "scoped_grant" ∷ [];
  execution_mode = "sync";
  cost_class = CostClass.free;
  latency_class = LatencyClass.sync_fast;
  quality_class = QualityClass.deterministic;
  context_mode = ContextMode.cairnstone_native;
  requires_compiled_context = false;
  supported_ref_types = native_supported_ref_types;
  context_resolution_endpoint = some "in_process:cairnstone";
  verification_capabilities = "receipt.emit" ∷ "tool_result.hash" ∷ [];
  supported_artifact_types = "tool_receipt" ∷ "orientation" ∷ [];
  max_concurrency = 8;
  dry_run_default = none;
  requires_immutable_base_sha = false;
}

abbrev pub afo_specialist : Profile
afo_specialist = record {
  executor_id = "exec:afo-specialist";
  executor_class = "afo_specialist";
  adapter_id = "adapter:afo-specialist-v1";
  selection_rank = 2;
  availability = "stub";
  health = record { status = "stub"; adapter_live = false; dry_run = some true };
  capabilities =
      "github.api" ∷ "repo.search" ∷ "repo.read" ∷ "cloudflare.inspect" ∷ "d1.inspect"
      ∷ "background.run" ∷ [];
  risk_classes_supported = "read" ∷ "mutation" ∷ [];
  authorization_requirements = "scoped_grant" ∷ "human_confirmation" ∷ [];
  execution_mode = "async";
  cost_class = CostClass.low;
  latency_class = LatencyClass.async;
  quality_class = QualityClass.specialist;
  context_mode = ContextMode.compiled_context;
  requires_compiled_context = true;
  supported_ref_types = compiled_supported_ref_types;
  context_resolution_endpoint = none;
  verification_capabilities = "receipt.emit" ∷ "artifact.attach" ∷ [];
  supported_artifact_types = "investigation_receipt" ∷ "api_result" ∷ [];
  max_concurrency = 4;
  dry_run_default = some true;
  requires_immutable_base_sha = false;
}

abbrev pub cairnstone_delegate : Profile
cairnstone_delegate = record {
  executor_id = "exec:cairnstone-delegate";
  executor_class = "delegated_model";
  adapter_id = "adapter:cairnstone-delegate-v1";
  selection_rank = 3;
  availability = "available";
  health = record { status = "healthy"; adapter_live = false; dry_run = some true };
  capabilities =
      "repo.read" ∷ "repo.search" ∷ "stone.read" ∷ "synthesis.bounded" ∷ "reasoning.general" ∷ [];
  risk_classes_supported = "read" ∷ [];
  authorization_requirements = "scoped_grant" ∷ "human_confirmation" ∷ [];
  execution_mode = "async";
  cost_class = CostClass.low;
  latency_class = LatencyClass.async;
  quality_class = QualityClass.balanced;
  context_mode = ContextMode.cairnstone_native;
  requires_compiled_context = false;
  supported_ref_types = native_supported_ref_types;
  context_resolution_endpoint = some "in_process:cairnstone_delegate";
  verification_capabilities = "receipt.emit" ∷ "subagent_result" ∷ [];
  supported_artifact_types = "subagent_result" ∷ "tool_receipt" ∷ [];
  max_concurrency = 2;
  dry_run_default = some true;
  requires_immutable_base_sha = false;
}

abbrev pub github_copilot : Profile
github_copilot = record {
  executor_id = "exec:github-copilot";
  executor_class = "coding_agent";
  adapter_id = "adapter:github-copilot-v1";
  selection_rank = 4;
  availability = "stub";
  health = record { status = "stub"; adapter_live = false; dry_run = some true };
  capabilities =
      "repo.read" ∷ "repo.search" ∷ "repo.edit" ∷ "repo.diff" ∷ "repo.pr" ∷ "repo.test"
      ∷ "github.api" ∷ [];
  risk_classes_supported = "read" ∷ "mutation" ∷ "execution" ∷ [];
  authorization_requirements = "human_confirmation" ∷ [];
  execution_mode = "async";
  cost_class = CostClass.medium;
  latency_class = LatencyClass.async_long;
  quality_class = QualityClass.premium;
  context_mode = ContextMode.compiled_context;
  requires_compiled_context = true;
  supported_ref_types = compiled_supported_ref_types;
  context_resolution_endpoint = none;
  verification_capabilities = "pr.attach" ∷ "diff.attach" ∷ "test.attach" ∷ "receipt.emit" ∷ [];
  supported_artifact_types = "pr" ∷ "diff" ∷ "test_result" ∷ "job_stub" ∷ [];
  max_concurrency = 2;
  dry_run_default = some true;
  requires_immutable_base_sha = true;
}

abbrev pub cursor_cloud : Profile
cursor_cloud = record {
  executor_id = "exec:cursor-cloud";
  executor_class = "coding_agent";
  adapter_id = "adapter:cursor-cloud-v1";
  selection_rank = 4;
  availability = "stub";
  health = record { status = "stub"; adapter_live = false; dry_run = some true };
  capabilities =
      "repo.read" ∷ "repo.search" ∷ "repo.edit" ∷ "repo.diff" ∷ "repo.pr" ∷ "repo.test"
      ∷ "background.run" ∷ [];
  risk_classes_supported = "read" ∷ "mutation" ∷ "execution" ∷ [];
  authorization_requirements = "human_confirmation" ∷ [];
  execution_mode = "async";
  cost_class = CostClass.medium;
  latency_class = LatencyClass.async_long;
  quality_class = QualityClass.premium;
  context_mode = ContextMode.cairnstone_native;
  requires_compiled_context = false;
  supported_ref_types = native_supported_ref_types;
  context_resolution_endpoint = some "mcp:cairnstone";
  verification_capabilities = "pr.attach" ∷ "diff.attach" ∷ "test.attach" ∷ "receipt.emit" ∷ [];
  supported_artifact_types = "pr" ∷ "diff" ∷ "test_result" ∷ "job_stub" ∷ [];
  max_concurrency = 2;
  dry_run_default = some true;
  requires_immutable_base_sha = true;
}

abbrev pub seed_executor_profiles : List Profile
seed_executor_profiles =
    deterministic_mcp ∷ afo_specialist ∷ cairnstone_delegate ∷ github_copilot ∷ cursor_cloud ∷ []
