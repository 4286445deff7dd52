-- ===== src/TaskRun/Dispatch.antt =====
-- src/task-run.js, `dispatchTaskRun`: a proposed run is given to an executor, on a human's commit. The
-- table of receipts is written to and never read here, and is left out.
use cairnstone_v.Prelude.{String, Option, none, some, [], ◌∷◌, if◌then◌else◌, string_eq}
use cairnstone_v.Prelude.Dict.{lookup, insert}
use cairnstone_v.Prelude.Result.{Result, ok, fail, ◌>>=◌, get_or, map_error}
use cairnstone_v.Executors.Pack.{Task, PackJson}
use cairnstone_v.Executors.Adapters.{AdapterResult, id_text, invoke_executor_adapter}
use cairnstone_v.TaskRun.{TaskRow, Table, is_terminal}
use cairnstone_v.TaskRun.Status.{TaskStatus}
use cairnstone_v.TaskRun.Routing.{
  DispatchRequest, DispatchError, Fresh, Committed, check_commit, Chosen, or_budget, policy_of,
  choose, type_error, adapter,
}

abbrev pub task_of : TaskRow → Task
task_of row = record {
  task_run_id = row.task_run_id;
  requested_intent = row.requested_intent;
  note = row.note;
  attachment_refs = row.attachment_refs;
  object_refs = row.object_refs;
  parent_task_run_id = row.parent_task_run_id;
}

abbrev completion : TaskStatus → String → Option String
completion status now = if is_terminal status then some now else none

-- The columns that the UPDATE sets.
unfoldable pub as_dispatched :
    Fresh → DispatchRequest → Committed → Chosen → AdapterResult → TaskRow → TaskRow
as_dispatched f r c x a row = record row {
  status = a.task_status;
  dispatch_state = a.dispatch_state;
  selected_executor_id = some (id_text x.executor_id);
  executor_route_reason = some x.reason;
  required_capabilities = x.capabilities;
  policy_preset = some (policy_of r c.row);
  budget_envelope = or_budget r.budget_envelope c.row.budget_envelope;
  route_receipt_id = x.receipt_id;
  adapter_job_id = some a.job_id;
  receipt_refs = a.receipt_id ∷ [];
  result_summary = some a.result_summary;
  failure_reason = none;
  human_committed_by = some c.committer;
  human_committed_at = some f.now;
  started_at = some f.now;
  completed_at = completion a.task_status f.now;
  updated_at = f.now;
}

-- What stands before the UPDATE: reads, the route and the adapter.
pub record Ready : Type 0 where
  pub committed : Committed
  pub chosen : Chosen
  pub result : AdapterResult

unfoldable pub check_dispatch :
    PackJson → Fresh → DispatchRequest → Table → Result DispatchError Ready
check_dispatch json f r t = do
  c ← check_commit r t
  x ← choose f r c
  a ← map_error adapter (
      invoke_executor_adapter json r.invocation x.executor_id x.context_mode (task_of c.row)
        f.minted)
  ok (record { committed = c; chosen = x; result = a })

-- The UPDATE, which no status guards.
unfoldable pub update_row : String → (TaskRow → TaskRow) → Table → Table
update_row id f t = elim (lookup id t) [ none ↦ t | some row ↦ insert id (f row) t ]

unfoldable pub dispatch_task_run :
    PackJson → Fresh → DispatchRequest → Table → Result DispatchError TaskRow × Table
dispatch_task_run json f r t = elim (check_dispatch json f r t) [
  | fail e ↦ (fail e, t)
  | ok d ↦
      let t' = update_row d.committed.id (as_dispatched f r d.committed d.chosen d.result) t in
      (get_or (lookup d.committed.id t') type_error, t')
]
