-- ===== src/TaskRun/Propose.antt =====
-- src/task-run.js, `proposeTaskRun`: a run is proposed, by itself or below a parent. The answers of a
-- database without the later columns are left out.
use cairnstone_v.Prelude.{
  ℕ, ◌+◌, String, Bool, true, false, ◌||◌, Option, none, some, List, [], if◌then◌else◌, ltb, leb,
  length, push, ◌==◌, string_eq,
}
use cairnstone_v.Prelude.Text.{trim, slice_units}
use cairnstone_v.Prelude.Names.{named, kind_pattern}
use cairnstone_v.Prelude.Value.{Value, truthy}
use cairnstone_v.Prelude.Dict.{lookup, insert}
use cairnstone_v.Prelude.Result.{Result, ok, fail, ◌>>=◌, ◌>>◌, unless, get_or}
use cairnstone_v.AccessGrant.Create.{RefParser}
use cairnstone_v.TaskRun.{TaskRow, Table, refs_subset, caps_subset}
use cairnstone_v.TaskRun.Status.{TaskStatus, DispatchState}
use cairnstone_v.TaskRun.Proposal.{
  ProposeArgs, ProposeError, max_delegation_depth, max_fanout, named_or, if_any, Proposal,
  check_proposal, invalid_parent_task_run_id, parent_task_run_not_found,
  parent_task_run_not_dispatchable_for_subdelegation, delegation_depth_exceeded,
  delegation_fanout_exceeded, child_attachment_ceiling_violation,
  child_object_ref_ceiling_violation, child_capability_ceiling_violation, task_run_already_exists,
  type_error,
}

abbrev is_active_status : TaskStatus → Bool
is_active_status TaskStatus.queued = true
is_active_status TaskStatus.running = true
is_active_status _ = false

abbrev is_active_dispatch : DispatchState → Bool
is_active_dispatch DispatchState.dispatched = true
is_active_dispatch DispatchState.running = true
is_active_dispatch _ = false

abbrev pub is_active_parent : TaskRow → Bool
is_active_parent p = is_active_dispatch p.dispatch_state || is_active_status p.status

-- The references that a child of a run may have, and those of its objects.
abbrev pub attachment_ceiling : TaskRow → List String
attachment_ceiling p = if_any p.attachment_refs p.object_refs

abbrev pub object_ceiling : TaskRow → List String
object_ceiling p = if_any p.object_refs p.attachment_refs

-- The tests that a parent puts on a child, which give the child's depth.
unfoldable pub check_parent : Proposal → TaskRow → Result ProposeError ℕ
check_parent c p = do
  unless (is_active_parent p) parent_task_run_not_dispatchable_for_subdelegation
  unless (leb (p.delegation_depth + 1) max_delegation_depth) delegation_depth_exceeded
  unless (ltb (length p.child_task_run_ids) max_fanout) delegation_fanout_exceeded
  unless (refs_subset c.attachment_refs (attachment_ceiling p)) child_attachment_ceiling_violation
  unless (refs_subset c.object_refs (object_ceiling p)) child_object_ref_ceiling_violation
  unless (caps_subset c.required_capabilities p.required_capabilities)
      child_capability_ceiling_violation
  ok (p.delegation_depth + 1)

unfoldable pub child_depth : Proposal → Option String → Table → Result ProposeError ℕ
child_depth c none t = ok 0
child_depth c (some p) t = get_or (lookup p t) parent_task_run_not_found >>= check_parent c

abbrev preset_text : Option String → Option String
preset_text none = none
preset_text (some s) = if s == "" then none else some (slice_units 32 (trim s))

unfoldable pub proposed_row : String → ProposeArgs → Proposal → Option String → ℕ → TaskRow
proposed_row now a c parent depth = record {
  task_run_id = c.task_run_id;
  status = TaskStatus.proposed;
  conversation_id = c.conversation_id;
  parent_turn_id = c.parent_turn_id;
  requested_by = c.requested_by;
  assignee_actor_id = c.assignee_actor_id;
  requested_intent = c.requested_intent;
  attachment_refs = c.attachment_refs;
  object_refs = c.object_refs;
  note = c.note;
  dispatch_state = DispatchState.not_dispatched;
  selected_executor_id = none;
  executor_route_reason = none;
  required_capabilities = c.required_capabilities;
  policy_preset = preset_text a.policy_preset;
  budget_envelope = a.budget_envelope;
  parent_task_run_id = parent;
  child_task_run_ids = [];
  delegation_depth = depth;
  route_receipt_id = none;
  adapter_job_id = none;
  receipt_refs = [];
  result_summary = none;
  failure_reason = none;
  human_committed_by = none;
  human_committed_at = none;
  started_at = none;
  completed_at = none;
  created_at = now;
  updated_at = now;
  cancelled_at = none;
}

abbrev pub is_new : String → Table → Bool
is_new id t = elim (lookup id t) [ none ↦ true | some r ↦ false ]

-- `parent_task_run_id`, where it is truthy.
abbrev parent_arg : Value → Result ProposeError (Option String)
parent_arg v =
    if truthy v then named_or (named (kind_pattern "tr") v) invalid_parent_task_run_id else ok none

-- The row that is inserted, and the parent that is to list it.
unfoldable pub check_propose :
    RefParser
    → String
    → String
    → ProposeArgs
    → Table
    → Result ProposeError (TaskRow × Option String)
check_propose parse now minted a t = do
  c ← check_proposal parse minted a
  parent ← parent_arg a.parent_task_run_id
  depth ← child_depth c parent t
  unless (is_new c.task_run_id t) task_run_already_exists
  ok (proposed_row now a c parent depth, parent)

abbrev pub with_child : String → String → TaskRow → TaskRow
with_child now id p = record p {
  child_task_run_ids = push id p.child_task_run_ids;
  updated_at = now;
}

-- The update of the parent, which is read again.
unfoldable pub link_parent : String → String → Option String → Table → Table
link_parent now id none t = t
link_parent now id (some parent) t = elim (lookup parent t) [
  | none ↦ t
  | some p ↦ insert parent (with_child now id p) t
]

unfoldable pub propose_task_run :
    RefParser → String → String → ProposeArgs → Table → Result ProposeError TaskRow × Table
unfolding link_parent
propose_task_run parse now minted a t = elim (check_propose parse now minted a t) [
  | fail e ↦ (fail e, t)
  | ok (row, parent) ↦
      let t' = link_parent now row.task_run_id parent (insert row.task_run_id row t) in
      (get_or (lookup row.task_run_id t') type_error, t')
]
