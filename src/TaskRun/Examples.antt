-- ===== src/TaskRun/Examples.antt =====
-- Runs, a cancellation and a listing, and the theorems on them.
use cairnstone_v.Prelude.{refl, none, some, [], ◌∷◌, string_eq}
use cairnstone_v.Prelude.Dict.{lookup, insert}
use cairnstone_v.Prelude.Text.{trim}
use cairnstone_v.Prelude.Names.{actor_pattern, kind_pattern}
use cairnstone_v.Prelude.Newest.{query_newest, newest_first, place_newest}
use cairnstone_v.Prelude.Value.{str, null, undefined}
use cairnstone_v.Prelude.Result.{◌>>=◌}
use cairnstone_v.TaskRun.Status.{TaskStatus, DispatchState}
use cairnstone_v.TaskRun.{TaskRow, Table, check_cancel, as_cancelled, cancel_task_run}
use cairnstone_v.TaskRun.Query.{ListArgs, check_list, selected, list_task_runs}
use cairnstone_v.TaskRun.Listing.{IsAnswer, list_task_runs-IsAnswer}
use cairnstone_v.TaskRun.Cancelling.{IsCancelled, cancel_task_run-IsCancelled}

abbrev running_row : TaskRow
running_row = record {
  task_run_id = "tr:one";
  status = TaskStatus.running;
  conversation_id = none;
  parent_turn_id = none;
  requested_by = "human:owner";
  assignee_actor_id = some "claude:worker";
  requested_intent = "ask-to-work";
  attachment_refs = "msg:a" ∷ [];
  object_refs = "msg:a" ∷ [];
  note = none;
  dispatch_state = DispatchState.running;
  selected_executor_id = some "exec:cursor-cloud";
  executor_route_reason = none;
  required_capabilities = [];
  policy_preset = none;
  budget_envelope = none;
  parent_task_run_id = none;
  child_task_run_ids = [];
  delegation_depth = 0;
  route_receipt_id = none;
  adapter_job_id = none;
  receipt_refs = [];
  result_summary = none;
  failure_reason = none;
  human_committed_by = some "human:owner";
  human_committed_at = none;
  started_at = none;
  completed_at = none;
  created_at = "2026-01-01";
  updated_at = "2026-01-01";
  cancelled_at = none;
}

abbrev cancelled_row : TaskRow
cancelled_row = record running_row {
  status = TaskStatus.cancelled;
  dispatch_state = DispatchState.cancelled;
  failure_reason = some "no longer needed";
  cancelled_at = some "2026-01-02";
  completed_at = some "2026-01-02";
  updated_at = "2026-01-02";
}

abbrev runs : Table
runs = ("tr:one", running_row) ∷ []

cancel_task_run-IsCancelled_example :
    IsCancelled
      (str "tr:one")
      (str "claude:worker")
      runs
      (cancel_task_run "2026-01-02" "no longer needed" (str "tr:one") (str "claude:worker") runs).1
      cancelled_row
unfolding cancel_task_run check_cancel as_cancelled ◌>>=◌ actor_pattern kind_pattern trim lookup
    insert
cancel_task_run-IsCancelled_example =
    cancel_task_run-IsCancelled "2026-01-02" "no longer needed" (str "tr:one") (str "claude:worker")
      runs cancelled_row refl

abbrev older_row : TaskRow
older_row = record running_row { task_run_id = "tr:two"; created_at = "2025-12-01" }

abbrev foreign_row : TaskRow
foreign_row = record running_row {
  task_run_id = "tr:three";
  requested_by = "human:other";
  assignee_actor_id = none;
  human_committed_by = none;
}

abbrev three_runs : Table
three_runs = ("tr:two", older_row) ∷ ("tr:one", running_row) ∷ ("tr:three", foreign_row) ∷ []

abbrev list_args : ListArgs
list_args = record {
  actor_id = str "claude:worker";
  status = str "running";
  conversation_id = null;
  assignee_actor_id = null;
  parent_task_run_id = null;
  limit = undefined;
}

list_task_runs-IsAnswer_example : IsAnswer list_args three_runs (running_row ∷ older_row ∷ [])
unfolding list_task_runs check_list query_newest newest_first place_newest selected ◌>>=◌
    actor_pattern trim
list_task_runs-IsAnswer_example =
    list_task_runs-IsAnswer list_args three_runs (running_row ∷ older_row ∷ []) refl
