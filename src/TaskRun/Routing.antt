-- ===== src/TaskRun/Routing.antt =====
-- src/task-run.js, `dispatchTaskRun`: who may commit a run, and the executor that is chosen for it.
-- A receipt that comes with the request has its id and reason as texts or null.
use cairnstone_v.Prelude.{
  String, Bool, true, false, ◌&&◌, ◌||◌, Option, none, some, List, [], ◌∷◌, map, if◌then◌else◌,
  ◌==◌, string_eq,
}
use cairnstone_v.Prelude.Names.{named, actor_pattern, kind_pattern}
use cairnstone_v.Prelude.Value.{Value, null, str, truthy}
use cairnstone_v.Prelude.Dict.{lookup}
use cairnstone_v.Prelude.Result.{Result, ok, fail, ◌>>=◌, ◌>>◌, unless, get_or, map_error}
use cairnstone_v.Executors.Profiles.{ContextMode, Profile}
use cairnstone_v.Executors.Capabilities.{RefItem, plain}
use cairnstone_v.Executors.Policy.{Budget, is_exactly}
use cairnstone_v.Executors.Context.{LookupError, get_executor_profile}
use cairnstone_v.Executors.Request.{RouteRequest, RouteError, Routed}
use cairnstone_v.Executors.Route.{route_executor}
use cairnstone_v.Executors.Adapters.{AdapterError, Minted, Invocation}
use cairnstone_v.TaskRun.{TaskRow, Table, RouteReason, chosen, stated, is_actor}
use cairnstone_v.TaskRun.Status.{TaskStatus, DispatchState}

-- A `route_receipt` that is an object with a truthy `selected_executor_id`.
pub record SuppliedReceipt : Type 0 where
  pub selected_executor_id : Value
  pub route_receipt_id : Option String
  pub selection_reason : Option String
  pub required_capabilities : Option (List String)
  pub context_mode : Value
  pub context_resolution : Value

pub record DispatchRequest : Type 0 where
  pub task_run_id : Value
  pub human_commit : Value
  pub committed_by : Value
  pub preferred_executor : Value
  pub policy_preset : Option String
  pub budget_envelope : Option Budget
  pub required_capabilities : Option (List String)
  pub route_receipt : Option SuppliedReceipt
  pub invocation : Invocation

pub data DispatchError : Type 0 where
  human_commit_required invalid_task_run_dispatch task_run_not_found : DispatchError
  dispatch_actor_forbidden task_run_not_dispatchable type_error : DispatchError
  executor_route_failed : RouteError → DispatchError
  adapter : AdapterError → DispatchError

-- The ids that a dispatch mints, and its moment.
pub record Fresh : Type 0 where
  pub now : String
  pub receipt : String
  pub minted : Minted

abbrev pub actor_may_dispatch : TaskRow → String → Bool
actor_may_dispatch row actor = row.requested_by == actor || is_actor row.assignee_actor_id actor

abbrev pub is_proposed : TaskStatus → Bool
is_proposed TaskStatus.proposed = true
is_proposed TaskStatus.queued = false
is_proposed TaskStatus.running = false
is_proposed TaskStatus.completed = false
is_proposed TaskStatus.failed = false
is_proposed TaskStatus.cancelled = false

abbrev pub is_not_dispatched : DispatchState → Bool
is_not_dispatched DispatchState.not_dispatched = true
is_not_dispatched DispatchState.dispatched = false
is_not_dispatched DispatchState.running = false
is_not_dispatched DispatchState.completed = false
is_not_dispatched DispatchState.failed = false
is_not_dispatched DispatchState.cancelled = false

abbrev is_dispatchable : TaskRow → Bool
is_dispatchable row = is_proposed row.status && is_not_dispatched row.dispatch_state

-- Who commits, and the row that is to be dispatched.
pub record Committed : Type 0 where
  pub id : String
  pub committer : String
  pub row : TaskRow

unfoldable pub check_commit : DispatchRequest → Table → Result DispatchError Committed
check_commit r t = do
  unless (is_exactly true r.human_commit) human_commit_required
  id ← get_or (named (kind_pattern "tr") r.task_run_id) invalid_task_run_dispatch
  committer ← get_or (named actor_pattern r.committed_by) invalid_task_run_dispatch
  row ← get_or (lookup id t) task_run_not_found
  unless (actor_may_dispatch row committer) dispatch_actor_forbidden
  unless (is_dispatchable row) task_run_not_dispatchable
  ok (record { id = id; committer = committer; row = row })

-- What a dispatch keeps of its route.
pub record Chosen : Type 0 where
  pub executor_id : Value
  pub reason : RouteReason
  pub receipt_id : Option String
  pub capabilities : List String
  pub context_mode : Value

abbrev mode_text : ContextMode → String
mode_text ContextMode.cairnstone_native = "cairnstone_native"
mode_text ContextMode.compiled_context = "compiled_context"

abbrev profile_mode : Result LookupError Profile → Value → Value
profile_mode (ok p) stated_mode = str (mode_text p.context_mode)
profile_mode (fail e) stated_mode = stated_mode

-- `enrichRouteReceiptContext`
unfoldable pub enriched_mode : SuppliedReceipt → Value
enriched_mode s =
    if truthy s.context_mode && truthy s.context_resolution
    then s.context_mode
    else profile_mode (get_executor_profile s.selected_executor_id) s.context_mode

abbrev caps_or : Option (List String) → List String → List String
caps_or none caps = caps
caps_or (some cs) caps = cs

abbrev supplied : SuppliedReceipt → List String → Chosen
supplied s caps = record {
  executor_id = s.selected_executor_id;
  reason = stated s.selection_reason;
  receipt_id = s.route_receipt_id;
  capabilities = caps_or s.required_capabilities caps;
  context_mode = enriched_mode s;
}

abbrev pub routed : Routed → Chosen
routed out = record {
  executor_id = str out.route_receipt.selected_executor_id;
  reason = chosen out.route_receipt.selection_reason;
  receipt_id = some out.route_receipt.route_receipt_id;
  capabilities = out.route_receipt.required_capabilities;
  context_mode = str (mode_text out.route_receipt.context.context_mode);
}

abbrev note_hints : Option String → List String
note_hints none = []
note_hints (some n) = n ∷ []

abbrev text_value : Option String → Value
text_value none = null
text_value (some s) = str s

abbrev pub or_value : Value → Value → Value
or_value a b = if truthy a then a else b

abbrev some_text : Option String → Option String → Option String
some_text none d = d
some_text (some s) d = if s == "" then d else some s

abbrev pub or_budget : Option Budget → Option Budget → Option Budget
or_budget none d = d
or_budget (some b) d = some b

abbrev ref_items : List String → Option (List RefItem)
ref_items refs = some (map (λ s. plain (str s)) refs)

-- `policy_preset || taskRun.policy_preset || "balanced"`
abbrev pub policy_of : DispatchRequest → TaskRow → String
policy_of r row = elim (some_text r.policy_preset (some_text row.policy_preset none)) [
  | none ↦ "balanced"
  | some s ↦ s
]

abbrev route_request : DispatchRequest → Committed → RouteRequest
route_request r c = record {
  required_capabilities =
      some (map (λ s. str s) (caps_or r.required_capabilities c.row.required_capabilities));
  attachment_refs = ref_items c.row.attachment_refs;
  object_refs = ref_items c.row.object_refs;
  work_hints = note_hints c.row.note;
  policy_preset = str (policy_of r c.row);
  preferred_executor = or_value r.preferred_executor (text_value c.row.selected_executor_id);
  budget_envelope = or_budget r.budget_envelope c.row.budget_envelope;
  parent_task_run_id = text_value c.row.parent_task_run_id;
  actor_id = str c.committer;
}

unfoldable pub choose : Fresh → DispatchRequest → Committed → Result DispatchError Chosen
choose f r c = elim r.route_receipt [
  | some s ↦ ok (supplied s (caps_or r.required_capabilities c.row.required_capabilities))
  | none ↦
      map_error executor_route_failed (route_executor f.receipt f.now (route_request r c))
      >>= λ out. ok (routed out)
]
