-- ===== src/TaskRun.antt =====
-- src/task-run.js: the rows of task runs, the tests of a delegated run's ceilings, and how a run is
-- inspected and cancelled. Its children have the other operations and what holds of them.
pub mod Status
pub mod Proposal
pub mod Propose
pub mod Routing
pub mod Dispatch
pub mod History
pub mod Proposing
pub mod Sound
pub mod Proposed
pub mod Committing
pub mod Dispatching
pub mod Reachable
pub mod Closed
pub mod Ending
pub mod Stale
pub mod Query
pub mod Bodies
pub mod Listing
pub mod Scenario
pub mod Journeys
pub mod Ceilings
pub mod Cancelling
pub mod Examples
use cairnstone_v.Prelude.{
  ℕ, String, Option, none, some, Bool, true, false, not, ◌||◌, ◌==◌, string_eq, if◌then◌else◌, List,
  [], ◌∷◌, contains,
}
use cairnstone_v.Prelude.Dict.{Dict, lookup, insert}
use cairnstone_v.Prelude.Value.{Value}
use cairnstone_v.Prelude.Names.{named, actor_pattern, kind_pattern}
use cairnstone_v.Prelude.Result.{Result, ok, fail, ◌>>=◌, ◌>>◌, unless, get_or}
use cairnstone_v.Executors.Policy.{Budget}
use cairnstone_v.Executors.Request.{SelectionReason}
use cairnstone_v.Executors.Adapters.{Summary}
use cairnstone_v.TaskRun.Status.{TaskStatus, DispatchState}

unfoldable pub refs_subset : List String → List String → Bool
refs_subset [] parent = true
refs_subset (r ∷ rs) parent =
    let rest = refs_subset rs parent in if contains r parent then rest else false

abbrev pub is_none : List String → Bool
is_none [] = true
is_none (x ∷ xs) = false

abbrev pub each_within : List String → List String → Bool
each_within [] parent = true
each_within (c ∷ cs) parent =
    let rest = each_within cs parent in if contains c parent then rest else false

-- An empty ceiling is tested by itself.
unfoldable pub caps_subset : List String → List String → Bool
caps_subset child parent = if is_none parent then is_none child else each_within child parent

-- Why an executor was chosen: by the route, or as a receipt states that came with the request.
pub data RouteReason : Type 0 where
  chosen : SelectionReason → RouteReason
  stated : Option String → RouteReason

-- A row of task_runs, with its JSON columns as the lists that they hold.
pub record TaskRow : Type 0 where
  pub task_run_id : String
  pub status : TaskStatus
  pub conversation_id : Option String
  pub parent_turn_id : Option String
  pub requested_by : String
  pub assignee_actor_id : Option String
  pub requested_intent : String
  pub attachment_refs : List String
  pub object_refs : List String
  pub note : Option String
  pub dispatch_state : DispatchState
  pub selected_executor_id : Option String
  pub executor_route_reason : Option RouteReason
  pub required_capabilities : List String
  pub policy_preset : Option String
  pub budget_envelope : Option Budget
  pub parent_task_run_id : Option String
  pub child_task_run_ids : List String
  pub delegation_depth : ℕ
  pub route_receipt_id : Option String
  pub adapter_job_id : Option String
  pub receipt_refs : List String
  pub result_summary : Option Summary
  pub failure_reason : Option String
  pub human_committed_by : Option String
  pub human_committed_at : Option String
  pub started_at : Option String
  pub completed_at : Option String
  pub created_at : String
  pub updated_at : String
  pub cancelled_at : Option String

abbrev pub Table : Type 0
Table = Dict String TaskRow

pub data TaskError : Type 0 where
  invalid_task_run_get invalid_task_run_cancel task_run_not_found : TaskError
  task_run_actor_forbidden task_run_already_terminal type_error : TaskError
  task_run_id_required : TaskError
  invalid_actor : String → TaskError

abbrev pub is_actor : Option String → String → Bool
is_actor none actor = false
is_actor (some a) actor = a == actor

abbrev pub actor_may_inspect : TaskRow → String → Bool
actor_may_inspect row actor =
    row.requested_by == actor
    || is_actor row.assignee_actor_id actor
    || is_actor row.human_committed_by actor

-- `["completed", "failed", "cancelled"].includes(status)`
abbrev pub is_terminal : TaskStatus → Bool
is_terminal TaskStatus.proposed = false
is_terminal TaskStatus.queued = false
is_terminal TaskStatus.running = false
is_terminal TaskStatus.completed = true
is_terminal TaskStatus.failed = true
is_terminal TaskStatus.cancelled = true

unfoldable pub get_task_run : Value → Value → Table → Result TaskError TaskRow
get_task_run task_run_id actor_id t = do
  id ← get_or (named (kind_pattern "tr") task_run_id) invalid_task_run_get
  actor ← get_or (named actor_pattern actor_id) invalid_task_run_get
  row ← get_or (lookup id t) task_run_not_found
  unless (actor_may_inspect row actor) task_run_actor_forbidden
  ok row

-- `CASE WHEN dispatch_state = 'not_dispatched' THEN 'not_dispatched' ELSE 'cancelled' END`
abbrev pub cancelled_dispatch : DispatchState → DispatchState
cancelled_dispatch DispatchState.not_dispatched = DispatchState.not_dispatched
cancelled_dispatch DispatchState.dispatched = DispatchState.cancelled
cancelled_dispatch DispatchState.running = DispatchState.cancelled
cancelled_dispatch DispatchState.completed = DispatchState.cancelled
cancelled_dispatch DispatchState.failed = DispatchState.cancelled
cancelled_dispatch DispatchState.cancelled = DispatchState.cancelled

-- `reason` is the text of the request, trimmed and cut, or `cancelled_by_actor`.
unfoldable pub as_cancelled : String → String → TaskRow → TaskRow
as_cancelled now reason row = record row {
  status = TaskStatus.cancelled;
  dispatch_state = cancelled_dispatch row.dispatch_state;
  failure_reason = some reason;
  cancelled_at = some now;
  completed_at = some now;
  updated_at = now;
}

unfoldable pub check_cancel : Value → Value → Table → Result TaskError (String × TaskRow)
check_cancel task_run_id actor_id t = do
  id ← get_or (named (kind_pattern "tr") task_run_id) invalid_task_run_cancel
  actor ← get_or (named actor_pattern actor_id) invalid_task_run_cancel
  row ← get_or (lookup id t) task_run_not_found
  unless (actor_may_inspect row actor) task_run_actor_forbidden
  unless (not (is_terminal row.status)) task_run_already_terminal
  ok (id, row)

unfoldable pub cancel_task_run :
    String → String → Value → Value → Table → Result TaskError TaskRow × Table
unfolding check_cancel as_cancelled
cancel_task_run now reason task_run_id actor_id t = elim (check_cancel task_run_id actor_id t) [
  | fail e ↦ (fail e, t)
  | ok (id, row) ↦
      let t' = insert id (as_cancelled now reason row) t in (get_or (lookup id t') type_error, t')
]
