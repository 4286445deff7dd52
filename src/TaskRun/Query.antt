-- ===== src/TaskRun/Query.antt =====
-- src/task-run.js: the listing of runs and the status of one.
use cairnstone_v.Prelude.{
  ℕ, String, Bool, true, false, ◌&&◌, Option, none, some, List, if◌then◌else◌, min, max, ◌==◌,
  string_eq,
}
use cairnstone_v.Prelude.Newest.{query_newest}
use cairnstone_v.Prelude.Names.{named, actor_pattern, kind_pattern}
use cairnstone_v.Prelude.Value.{Value, undefined, null, other, bool, nat, neg, str, truthy}
use cairnstone_v.Prelude.Dict.{values}
use cairnstone_v.Prelude.Result.{Result, ok, fail, ◌>>=◌, get_or}
use cairnstone_v.Executors.Adapters.{Summary}
use cairnstone_v.TaskRun.{
  TaskRow, Table, TaskError, actor_may_inspect, is_actor, is_terminal, get_task_run,
}
use cairnstone_v.TaskRun.Status.{TaskStatus, DispatchState}
use cairnstone_v.TaskRun.Proposal.{optional_id}

abbrev pub max_list : ℕ
max_list = 100

abbrev default_list : ℕ
default_list = 20

pub record ListArgs : Type 0 where
  pub actor_id : Value
  pub status : Value
  pub conversation_id : Value
  pub assignee_actor_id : Value
  pub parent_task_run_id : Value
  pub limit : Value

pub data ListError : Type 0 where
  invalid_actor_id invalid_status invalid_conversation_id invalid_assignee_actor_id : ListError
  invalid_parent_task_run_id : ListError

-- `Number.isInteger(limit) ? Math.max(1, Math.min(MAX_LIST, limit)) : DEFAULT_LIST`
abbrev pub list_limit : Value → ℕ
list_limit (nat n) = max 1 (min max_list n)
list_limit (neg n) = 1
list_limit _ = default_list

abbrev pub status_named : String → Option TaskStatus
status_named s =
    if s == "proposed"
    then some TaskStatus.proposed
    else if s == "queued"
    then some TaskStatus.queued
    else if s == "running"
    then some TaskStatus.running
    else if s == "completed"
    then some TaskStatus.completed
    else if s == "failed"
    then some TaskStatus.failed
    else if s == "cancelled"
    then some TaskStatus.cancelled
    else none

-- A falsy filter that is not null is compared, and no row has it.
pub data StatusFilter : Type 0 where
  any nothing : StatusFilter
  only : TaskStatus → StatusFilter

abbrev named_status : Option TaskStatus → Option StatusFilter
named_status none = none
named_status (some s) = some (only s)

abbrev status_filter : Value → Option StatusFilter
status_filter undefined = some any
status_filter null = some any
status_filter other = none
status_filter (bool b) = if b then none else some nothing
status_filter (nat n) = if truthy (nat n) then none else some nothing
status_filter (neg n) = none
status_filter (str s) = if s == "" then some nothing else named_status (status_named s)

abbrev named_filter : (String → Bool) → ListError → Value → Result ListError (Option String)
named_filter pattern e v =
    if truthy v then elim (named pattern v) [ none ↦ fail e | some s ↦ ok (some s) ] else ok none

pub record Query : Type 0 where
  pub actor : String
  pub status : StatusFilter
  pub conversation : Option String
  pub assignee : Option String
  pub parent : Option String
  pub limit : ℕ

unfoldable pub check_list : ListArgs → Result ListError Query
check_list a = do
  actor ← get_or (named actor_pattern a.actor_id) invalid_actor_id
  status ← get_or (status_filter a.status) invalid_status
  conversation ← optional_id "cvs" invalid_conversation_id a.conversation_id
  assignee ← named_filter actor_pattern invalid_assignee_actor_id a.assignee_actor_id
  parent ← named_filter (kind_pattern "tr") invalid_parent_task_run_id a.parent_task_run_id
  ok (record {
    actor = actor;
    status = status;
    conversation = conversation;
    assignee = assignee;
    parent = parent;
    limit = list_limit a.limit;
  })

abbrev same_status : TaskStatus → TaskStatus → Bool
same_status TaskStatus.proposed TaskStatus.proposed = true
same_status TaskStatus.queued TaskStatus.queued = true
same_status TaskStatus.running TaskStatus.running = true
same_status TaskStatus.completed TaskStatus.completed = true
same_status TaskStatus.failed TaskStatus.failed = true
same_status TaskStatus.cancelled TaskStatus.cancelled = true
same_status _ _ = false

abbrev pub has_status : StatusFilter → TaskStatus → Bool
has_status any s = true
has_status nothing s = false
has_status (only x) s = same_status x s

-- `(? IS NULL OR column = ?)`
abbrev pub column_is : Option String → Option String → Bool
column_is none c = true
column_is (some x) c = is_actor c x

-- The `WHERE` of the query.
unfoldable pub selected : Query → TaskRow → Bool
selected q row =
    actor_may_inspect row q.actor
    && has_status q.status row.status
    && column_is q.conversation row.conversation_id
    && column_is q.assignee row.assignee_actor_id
    && column_is q.parent row.parent_task_run_id

unfoldable pub list_task_runs : ListArgs → Table → Result ListError (List TaskRow)
unfolding query_newest selected
list_task_runs a t = do
  q ← check_list a
  ok (query_newest TaskRow.created_at (selected q) q.limit (values t))

-- `taskRunStatus`
pub record Progress : Type 0 where
  pub task_run_id : String
  pub status : TaskStatus
  pub dispatch_state : DispatchState
  pub selected_executor_id : Option String
  pub adapter_job_id : Option String
  pub result_summary : Option Summary
  pub failure_reason : Option String
  pub started_at : Option String
  pub completed_at : Option String
  pub parent_task_run_id : Option String
  pub child_task_run_ids : List String
  pub is_proposed : Bool
  pub is_queued : Bool
  pub is_running : Bool
  pub terminal : Bool

unfoldable progress_of : TaskRow → Progress
progress_of row = record {
  task_run_id = row.task_run_id;
  status = row.status;
  dispatch_state = row.dispatch_state;
  selected_executor_id = row.selected_executor_id;
  adapter_job_id = row.adapter_job_id;
  result_summary = row.result_summary;
  failure_reason = row.failure_reason;
  started_at = row.started_at;
  completed_at = row.completed_at;
  parent_task_run_id = row.parent_task_run_id;
  child_task_run_ids = row.child_task_run_ids;
  is_proposed = same_status row.status TaskStatus.proposed;
  is_queued = same_status row.status TaskStatus.queued;
  is_running = same_status row.status TaskStatus.running;
  terminal = is_terminal row.status;
}

unfoldable pub task_run_status : Value → Value → Table → Result TaskError Progress
unfolding progress_of
task_run_status task_run_id actor_id t =
    get_task_run task_run_id actor_id t >>= λ row. ok (progress_of row)
