-- ===== src/TaskRun/Scenario.antt =====
-- A proposal, its dispatch and a cancellation, for the examples.
use cairnstone_v.Prelude.{none, some, true, false, [], ◌∷◌, string_eq}
use cairnstone_v.Prelude.Value.{null, bool, str, as_string}
use cairnstone_v.Prelude.Result.{ok, fail}
use cairnstone_v.AccessGrant.Create.{RefParser}
use cairnstone_v.Executors.Profiles.{ContextMode}
use cairnstone_v.Executors.Capabilities.{plain}
use cairnstone_v.Executors.Request.{fully_deterministic}
use cairnstone_v.Executors.Pack.{PackJson, min_envelope}
use cairnstone_v.Executors.Adapters.{AdapterResult, Minted, Invocation, executed_allowlisted_read}
use cairnstone_v.TaskRun.{TaskRow, Table, chosen}
use cairnstone_v.TaskRun.Status.{TaskStatus, DispatchState}
use cairnstone_v.TaskRun.Proposal.{ProposeArgs, Proposal}
use cairnstone_v.TaskRun.Propose.{proposed_row}
use cairnstone_v.TaskRun.Routing.{Fresh, DispatchRequest, Committed, Chosen}
use cairnstone_v.TaskRun.Dispatch.{task_of, as_dispatched}
use cairnstone_v.TaskRun.History.{Call, propose, dispatch, cancel}

-- A parser that takes every text as it is.
abbrev pub any_text : RefParser
any_text v = elim (as_string v) [ none ↦ fail "object_ref_required" | some s ↦ ok s ]

abbrev pub args : ProposeArgs
args = record {
  task_run_id = str "tr:one";
  requested_by = str "human:owner";
  assignee_actor_id = str "claude:worker";
  conversation_id = null;
  parent_turn_id = null;
  attachment_refs = some (plain (str "stone:a") ∷ []);
  object_refs = none;
  note = null;
  requested_intent = null;
  parent_task_run_id = null;
  required_capabilities = none;
  policy_preset = none;
  budget_envelope = none;
}

abbrev pub proposal : Proposal
proposal = record {
  task_run_id = "tr:one";
  requested_by = "human:owner";
  assignee_actor_id = some "claude:worker";
  conversation_id = none;
  parent_turn_id = none;
  attachment_refs = "stone:a" ∷ [];
  object_refs = "stone:a" ∷ [];
  required_capabilities = [];
  note = none;
  requested_intent = "ask-to-work";
}

abbrev pub row : TaskRow
row = proposed_row "2026-01-01" args proposal none 0

abbrev pub json : PackJson
json = record { digest_text = λ refs base body omissions. body; pack_bytes = λ p. 100 }

abbrev pub invocation : Invocation
invocation = record {
  read = none;
  tool_id = null;
  executor_arg = null;
  args = record {
    base_commit_sha = none;
    access_grant_ids = none;
    scope_hints = none;
    compiled_body = null;
    max_pack_bytes = none;
    max_body_chars = none;
    max_refs = none;
    max_omission_entries = none;
    force_compiled_pack = false;
  };
}

abbrev pub minted : Minted
minted = record { job_id = "adjobs:1"; receipt_id = "adrcpt:1" }

abbrev pub result : AdapterResult
result = record {
  job_id = "adjobs:1";
  receipt_id = "adrcpt:1";
  adapter_id = "adapter:deterministic-mcp-v1";
  adapter_live = true;
  result_summary = executed_allowlisted_read "cairnstone_executor_list";
  dispatch_context = record {
    context_mode = ContextMode.cairnstone_native;
    envelope = min_envelope "exec:deterministic-mcp" (task_of row) invocation.args;
    compiled_pack = none;
  };
  task_status = TaskStatus.completed;
  dispatch_state = DispatchState.completed;
}

abbrev pub fresh : Fresh
fresh = record { now = "2026-01-02"; receipt = "errcpt:1"; minted = minted }

abbrev pub order : DispatchRequest
order = record {
  task_run_id = str "tr:one";
  human_commit = bool true;
  committed_by = str "claude:worker";
  preferred_executor = null;
  policy_preset = none;
  budget_envelope = none;
  required_capabilities = none;
  route_receipt = none;
  invocation = invocation;
}

abbrev pub committed : Committed
committed = record { id = "tr:one"; committer = "claude:worker"; row = row }

abbrev pub choice : Chosen
choice = record {
  executor_id = str "exec:deterministic-mcp";
  reason = chosen fully_deterministic;
  receipt_id = some "errcpt:1";
  capabilities = "stone.read" ∷ [];
  context_mode = str "cairnstone_native";
}

abbrev pub runs : Table
runs = ("tr:one", row) ∷ []

abbrev pub done : TaskRow
done = as_dispatched fresh order committed choice result row

abbrev pub proposing : Call
proposing = propose any_text "2026-01-01" "tr:minted" args

abbrev pub dispatching : Call
dispatching = dispatch json fresh order

abbrev pub cancelling : Call
cancelling = cancel "2026-01-03" "no longer needed" (str "tr:one") (str "human:owner")
