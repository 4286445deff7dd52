-- ===== src/Executors/Adapters.antt =====
-- src/executor-adapters.js, `invokeExecutorAdapter`: what the executor that was selected is made to do.
-- A receipt has the fields that the task run keeps.
use cairnstone_v.Prelude.{
  String, Bool, true, false, ◌||◌, Option, none, some, List, [], ◌∷◌, if◌then◌else◌, ◌==◌,
  string_eq, contains,
}
use cairnstone_v.Prelude.Names.{nonempty_text}
use cairnstone_v.Prelude.Value.{Value, str, truthy}
use cairnstone_v.Prelude.Result.{Result, ok, fail, ◌>>=◌, map_error}
use cairnstone_v.TaskRun.Status.{TaskStatus, DispatchState}
use cairnstone_v.Executors.Profiles.{ContextMode, Profile}
use cairnstone_v.Executors.Policy.{is_text, is_native}
use cairnstone_v.Executors.Context.{
  LookupError, ContextResolution, resolution_of, get_executor_profile,
}
use cairnstone_v.Executors.Pack.{Task, DispatchArgs, PackJson}
use cairnstone_v.Executors.Envelope.{
  EnvelopeError, DispatchContext, build_dispatch_context_envelope,
}

pub record AdapterContract : Type 0 where
  pub executor_id : Value
  pub adapter_id : String
  pub executor_class : String
  pub context_mode : ContextMode
  pub requires_compiled_context : Bool
  pub supported_ref_types : List String
  pub pin_immutable_base_sha : Bool
  pub return_async_status : Bool
  pub cairnstone_native_context : Bool
  pub adapter_live : Bool
  pub dry_run_default : Bool

-- `v !== false`, `v === true`, of a field that may be missing
abbrev not_false : Option Bool → Bool
not_false none = true
not_false (some b) = b

abbrev is_true : Option Bool → Bool
is_true none = false
is_true (some b) = b

unfoldable pub contract_of : Value → Profile → AdapterContract
contract_of executor_id p = record {
  executor_id = executor_id;
  adapter_id = p.adapter_id;
  executor_class = p.executor_class;
  context_mode = p.context_mode;
  requires_compiled_context = p.requires_compiled_context;
  supported_ref_types = p.supported_ref_types;
  pin_immutable_base_sha = p.requires_immutable_base_sha;
  return_async_status = p.execution_mode == "async";
  cairnstone_native_context = is_native p.context_mode;
  adapter_live = p.health.adapter_live;
  dry_run_default =
      not_false p.dry_run_default || is_true p.health.dry_run || p.availability == "stub";
}

unfoldable pub get_adapter_contract : Value → Result LookupError AdapterContract
unfolding contract_of
get_adapter_contract executor_id =
    get_executor_profile executor_id >>= λ p. ok (contract_of executor_id p)

abbrev pub deterministic_mcp_allowlist : List String
deterministic_mcp_allowlist =
    "cairnstone_executor_list" ∷ "cairnstone_executor_get" ∷ "cairnstone_executor_health"
    ∷ "cairnstone_health" ∷ []

-- What a read tool answers: an exception, or a result with its `ok !== false` and its error.
pub data ToolAnswer : Type 0 where
  thrown : String → ToolAnswer
  answered : Bool → Option String → ToolAnswer

-- `invokeAllowlistedRead`, where it is a function.
abbrev pub ReadTool : Type 0
ReadTool = Option (String → ToolAnswer)

abbrev is_ok : {E A : Type 0} → Result E A → Bool
is_ok (ok a) = true
is_ok (fail e) = false

abbrev looked_up : Value → ToolAnswer
looked_up v = elim (get_executor_profile v) [
  | ok p ↦ answered true none
  | fail LookupError.executor_id_required ↦ answered false (some "executor_id_required")
  | fail LookupError.invalid_executor_id ↦ answered false (some "invalid_executor_id")
  | fail LookupError.executor_not_found ↦ answered false (some "executor_not_found")
]

-- The tools that the adapter answers by itself; the argument is `allowlisted_tool_args?.executor_id`.
unfoldable pub local_tool : Value → String → ToolAnswer
local_tool executor_arg tool =
    if tool == "cairnstone_executor_get"
    then looked_up (if truthy executor_arg then executor_arg else str "exec:deterministic-mcp")
    else if tool == "cairnstone_executor_health"
    then if truthy executor_arg then looked_up executor_arg else answered true none
    else answered true none

abbrev run_tool : ReadTool → Value → String → ToolAnswer
run_tool none executor_arg tool = local_tool executor_arg tool
run_tool (some f) executor_arg tool = f tool

abbrev succeeded : ToolAnswer → Bool
succeeded (thrown e) = false
succeeded (answered b e) = b

pub data AdapterError : Type 0 where
  lookup : LookupError → AdapterError
  context : EnvelopeError → AdapterError
  deterministic_tool_not_allowlisted : AdapterError
  tool_failed : Option String → AdapterError

abbrev failure_of : ToolAnswer → AdapterError
failure_of (thrown e) = tool_failed (some e)
failure_of (answered b e) = tool_failed e

-- `result_summary`, as data.
pub data Summary : Type 0 where
  executed_allowlisted_read : String → Summary
  dry_run_stub_recorded : String → ContextResolution → Summary

pub record AdapterResult : Type 0 where
  pub job_id : String
  pub receipt_id : String
  pub adapter_id : String
  pub adapter_live : Bool
  pub result_summary : Summary
  pub dispatch_context : DispatchContext
  pub task_status : TaskStatus
  pub dispatch_state : DispatchState

-- The ids that are minted.
pub record Minted : Type 0 where
  pub job_id : String
  pub receipt_id : String

abbrev pub tool_named : Value → String
tool_named v = elim (nonempty_text v) [ none ↦ "cairnstone_executor_list" | some s ↦ s ]

abbrev run_result : Minted → AdapterContract → DispatchContext → String → AdapterResult
run_result m c ctx tool = record {
  job_id = m.job_id;
  receipt_id = m.receipt_id;
  adapter_id = c.adapter_id;
  adapter_live = true;
  result_summary = executed_allowlisted_read tool;
  dispatch_context = ctx;
  task_status = TaskStatus.completed;
  dispatch_state = DispatchState.completed;
}

-- The one read that the deterministic executor may make. A read that fails is no result.
unfoldable pub run_deterministic :
    ReadTool
    → Value
    → String
    → Minted
    → AdapterContract
    → DispatchContext
    → Result AdapterError AdapterResult
unfolding local_tool
run_deterministic read executor_arg tool m c ctx =
    if contains tool deterministic_mcp_allowlist
    then (let answer = run_tool read executor_arg tool in
        if succeeded answer then ok (run_result m c ctx tool) else fail (failure_of answer))
    else fail deterministic_tool_not_allowlisted

abbrev pub id_text : Value → String
id_text (str s) = s
id_text _ = ""

unfoldable pub stub_job : Value → Minted → AdapterContract → DispatchContext → AdapterResult
stub_job executor_id m c ctx = record {
  job_id = m.job_id;
  receipt_id = m.receipt_id;
  adapter_id = c.adapter_id;
  adapter_live = false;
  result_summary = dry_run_stub_recorded (id_text executor_id) (resolution_of ctx.context_mode);
  dispatch_context = ctx;
  task_status = TaskStatus.queued;
  dispatch_state = DispatchState.dispatched;
}

-- `tool_id` and `executor_arg` are `allowlisted_tool_id` and the executor among the tool's arguments;
-- `stated_mode` is the context mode that the route's receipt states.
pub record Invocation : Type 0 where
  pub read : ReadTool
  pub tool_id : Value
  pub executor_arg : Value
  pub args : DispatchArgs

unfoldable pub invoke_executor_adapter :
    PackJson → Invocation → Value → Value → Task → Minted → Result AdapterError AdapterResult
invoke_executor_adapter json i executor_id stated_mode task m = do
  c ← map_error lookup (get_adapter_contract executor_id)
  ctx ← map_error context (build_dispatch_context_envelope json executor_id task stated_mode i.args)
  (if is_text executor_id "exec:deterministic-mcp"
      then run_deterministic i.read i.executor_arg (tool_named i.tool_id) m c ctx
      else ok (stub_job executor_id m c ctx))
