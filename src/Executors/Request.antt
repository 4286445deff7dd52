-- ===== src/Executors/Request.antt =====
-- src/executor-profile.js, `routeExecutor`: a request, the reasons and errors, and the receipt.
use cairnstone_v.Prelude.{ℕ, String, Option, none, some, List, string_eq}
use cairnstone_v.Prelude.Value.{Value, undefined}
use cairnstone_v.Executors.Profiles.{CostClass, LatencyClass, QualityClass, Profile}
use cairnstone_v.Executors.Capabilities.{ListError, RefItem}
use cairnstone_v.Executors.Policy.{Preset, Budget, PolicyReason}
use cairnstone_v.Executors.Context.{ContextMeta}

pub record RouteRequest : Type 0 where
  pub required_capabilities : Option (List Value)
  pub attachment_refs : Option (List RefItem)
  pub object_refs : Option (List RefItem)
  pub work_hints : List String
  pub policy_preset : Value
  pub preferred_executor : Value
  pub budget_envelope : Option Budget
  pub parent_task_run_id : Value
  pub actor_id : Value

pub data RejectReason : Type 0 where
  missing_capabilities : List String → RejectReason
  by_policy : PolicyReason → RejectReason
  deterministic_work_prefers_cheaper_executor : RejectReason

pub record Rejected : Type 0 where
  pub profile : Profile
  pub reason : RejectReason

pub data RouteError : Type 0 where
  invalid_policy_preset invalid_actor_id invalid_parent_task_run_id : RouteError
  capabilities attachment_refs : ListError → RouteError
  manual_policy_requires_preferred_executor invalid_preferred_executor : RouteError
  preferred_executor_not_eligible preferred_executor_not_found no_eligible_executor : RouteError

pub data SelectionReason : Type 0 where
  preferred_executor fully_deterministic narrow_specialist_capability_fit : SelectionReason
  inexpensive_model_backed_specialist coding_agent_repo_work_required : SelectionReason
  coding_agent_selected premium_general_reasoning_required : SelectionReason
  paid_external_policy_budget_allow : SelectionReason
  policy_rank : Preset → ℕ → SelectionReason

abbrev pub empty_budget : Budget
empty_budget = record {
  max_cost_class = undefined;
  allow_paid_external = undefined;
  require_compiled_context = undefined;
  forbid_native_context = undefined;
  executor_allowlist = none;
  executor_denylist = none;
}

abbrev pub budget_or_empty : Option Budget → Budget
budget_or_empty none = empty_budget
budget_or_empty (some b) = b

pub record Selected : Type 0 where
  pub profile : Profile
  pub reason : SelectionReason

pub record RouteReceipt : Type 0 where
  pub route_receipt_id : String
  pub created_at : String
  pub actor_id : Option String
  pub parent_task_run_id : Option String
  pub required_capabilities : List String
  pub attachment_refs : List String
  pub policy_preset : Preset
  pub budget_envelope : Budget
  pub considered_executors : List Profile
  pub eligible_executors : List Profile
  pub rejected_candidates : List Rejected
  pub selected_executor_id : String
  pub selected_executor_class : String
  pub selection_reason : SelectionReason
  pub cost_class : CostClass
  pub latency_class : LatencyClass
  pub quality_class : QualityClass
  pub context : ContextMeta

pub record Routed : Type 0 where
  pub route_receipt : RouteReceipt
  pub selected_executor : Profile

-- The request as the loop over the profiles needs it.
pub record Need : Type 0 where
  pub policy : Preset
  pub refs : List String
  pub inferred : List String
