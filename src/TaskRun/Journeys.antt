-- ===== src/TaskRun/Journeys.antt =====
-- Runs that are proposed, dispatched and cancelled, and the theorems on them.
use cairnstone_v.Prelude.{◌≡◌, refl, some, [], string_eq}
use cairnstone_v.Prelude.Names.{actor_pattern, kind_pattern}
use cairnstone_v.Prelude.Text.{trim, slice_units, lowered, strip_prefix}
use cairnstone_v.Prelude.Words.{distinct_after}
use cairnstone_v.Prelude.Value.{str}
use cairnstone_v.Prelude.Dict.{lookup, insert}
use cairnstone_v.Prelude.Result.{ok, ◌>>=◌}
use cairnstone_v.Executors.Hints.{search_words, hint_text}
use cairnstone_v.Executors.Capabilities.{
  is_capability, each_entry, normalize_capability_list, normalize_ref_hints, hint_caps, sort_texts,
  place_text, gather_capabilities, infer_required_capabilities,
}
use cairnstone_v.Executors.Policy.{
  missing_caps, is_fully_deterministic, requires_coding_agent, first_reason, policy_allows,
  compare_candidates, place_candidate, sort_candidates,
}
use cairnstone_v.Executors.Context.{
  clone_profile, find_profile, get_executor_profile, resolve_context_resolution,
}
use cairnstone_v.Executors.Route.{
  check_route, select, judge, prefers_cheaper, eligible_of, selection_reason, receipt_of,
  route_among, route_executor,
}
use cairnstone_v.Executors.Envelope.{native_context, context_for, build_dispatch_context_envelope}
use cairnstone_v.Executors.Adapters.{
  get_adapter_contract, contract_of, run_deterministic, local_tool, invoke_executor_adapter,
}
use cairnstone_v.Executors.Handover.{IsHandedOver, invoke_executor_adapter-IsHandedOver}
use cairnstone_v.TaskRun.{as_cancelled, check_cancel, cancel_task_run}
use cairnstone_v.TaskRun.Proposal.{normalize_ref_list, normalize_caps, check_proposal}
use cairnstone_v.TaskRun.Propose.{
  check_propose, child_depth, proposed_row, link_parent, propose_task_run,
}
use cairnstone_v.TaskRun.Proposed.{IsProposed, propose_task_run-IsProposed}
use cairnstone_v.TaskRun.Routing.{check_commit, choose}
use cairnstone_v.TaskRun.Dispatch.{
  task_of, as_dispatched, check_dispatch, update_row, dispatch_task_run,
}
use cairnstone_v.TaskRun.Dispatching.{IsWritten, dispatch_task_run-IsWritten}
use cairnstone_v.TaskRun.History.{apply, here, next, IsSound}
use cairnstone_v.TaskRun.Reachable.{built-IsSound}
use cairnstone_v.TaskRun.Stale.{IsRevived, stale_dispatch_revives}
use cairnstone_v.TaskRun.Closed.{closed_forever}
use cairnstone_v.TaskRun.Ending.{open_run_ends}
use cairnstone_v.TaskRun.Scenario.{
  any_text, args, row, json, invocation, minted, result, fresh, order, committed, choice, runs,
  done, proposing, dispatching, cancelling,
}

propose_task_run-IsProposed_example :
    IsProposed args [] (propose_task_run any_text "2026-01-01" "tr:minted" args []).1 row
unfolding propose_task_run check_propose check_proposal child_depth normalize_ref_list
    normalize_caps each_entry distinct_after slice_units trim actor_pattern kind_pattern ◌>>=◌
    lookup insert link_parent proposed_row
propose_task_run-IsProposed_example =
    propose_task_run-IsProposed any_text "2026-01-01" "tr:minted" args [] row refl

invoke_executor_adapter-IsHandedOver_example :
    IsHandedOver json invocation (str "exec:deterministic-mcp") result
unfolding invoke_executor_adapter get_adapter_contract get_executor_profile find_profile
    clone_profile contract_of run_deterministic local_tool build_dispatch_context_envelope
    context_for native_context kind_pattern trim ◌>>=◌
invoke_executor_adapter-IsHandedOver_example =
    invoke_executor_adapter-IsHandedOver json invocation (str "exec:deterministic-mcp")
      (str "cairnstone_native") (task_of row) minted result refl

dispatch_task_run-IsWritten_example :
    (w : IsWritten order runs (dispatch_task_run json fresh order runs).1) × (w.after ≡ done)
unfolding dispatch_task_run check_dispatch check_commit choose update_row as_dispatched proposed_row
    lookup insert actor_pattern route_executor route_among check_route normalize_capability_list
    normalize_ref_hints infer_required_capabilities gather_capabilities hint_caps hint_text lowered
    search_words each_entry distinct_after slice_units sort_texts place_text is_capability
    strip_prefix select judge prefers_cheaper missing_caps policy_allows first_reason
    is_fully_deterministic requires_coding_agent eligible_of sort_candidates place_candidate
    compare_candidates selection_reason receipt_of resolve_context_resolution
    invoke_executor_adapter get_adapter_contract get_executor_profile find_profile clone_profile
    contract_of run_deterministic local_tool build_dispatch_context_envelope context_for
    native_context kind_pattern trim ◌>>=◌
dispatch_task_run-IsWritten_example = dispatch_task_run-IsWritten json fresh order runs done refl

built-IsSound_example : IsSound (apply cancelling (apply dispatching (apply proposing [])))
built-IsSound_example = built-IsSound (next (next (next here proposing) dispatching) cancelling)

-- A run that is cancelled before its dispatch is not dispatched.
closed_forever_example :
    lookup "tr:one" (apply dispatching (apply cancelling (apply proposing [])))
    ≡ some (as_cancelled "2026-01-03" "no longer needed" row)
unfolding apply propose_task_run check_propose check_proposal child_depth normalize_ref_list
    normalize_caps each_entry distinct_after slice_units trim actor_pattern kind_pattern ◌>>=◌
    lookup insert link_parent proposed_row cancel_task_run check_cancel as_cancelled
closed_forever_example =
    closed_forever "tr:one" (as_cancelled "2026-01-03" "no longer needed" row)
      (next (next here proposing) cancelling) refl refl (next here dispatching)

open_run_ends_example :
    ((cancel_task_run "2026-01-03" "no longer needed"
        (str "tr:one")
        (str "human:owner")
        (apply proposing [])).0
      ≡ ok (as_cancelled "2026-01-03" "no longer needed" row))
    × (lookup "tr:one" (apply dispatching (apply cancelling (apply proposing [])))
        ≡ some (as_cancelled "2026-01-03" "no longer needed" row))
unfolding apply propose_task_run check_propose check_proposal child_depth normalize_ref_list
    normalize_caps each_entry distinct_after slice_units trim actor_pattern kind_pattern ◌>>=◌
    lookup insert link_parent proposed_row
open_run_ends_example =
    open_run_ends "2026-01-03" "no longer needed" (str "tr:one") (str "human:owner") "tr:one"
      "human:owner" row (next here proposing)
      (record {
        named_id = refl;
        named_actor = refl;
        found = refl;
        inspected = refl;
        open_before = refl;
      })
      (next here dispatching)

-- The run is cancelled between the adapter's answer and the statement.
stale_dispatch_revives_example :
    IsRevived
      (cancel_task_run "2026-01-03" "no longer needed" (str "tr:one") (str "human:owner") runs).1
      (update_row "tr:one"
        (as_dispatched fresh order committed choice result)
        (cancel_task_run "2026-01-03" "no longer needed" (str "tr:one") (str "human:owner") runs).1)
      "tr:one"
unfolding check_dispatch check_commit choose as_dispatched proposed_row lookup insert actor_pattern
    route_executor route_among check_route normalize_capability_list normalize_ref_hints
    infer_required_capabilities gather_capabilities hint_caps hint_text lowered search_words
    each_entry distinct_after slice_units sort_texts place_text is_capability strip_prefix select
    judge prefers_cheaper missing_caps policy_allows first_reason is_fully_deterministic
    requires_coding_agent eligible_of sort_candidates place_candidate compare_candidates
    selection_reason receipt_of resolve_context_resolution invoke_executor_adapter
    get_adapter_contract get_executor_profile find_profile clone_profile contract_of
    run_deterministic local_tool build_dispatch_context_envelope context_for native_context
    kind_pattern trim ◌>>=◌ cancel_task_run check_cancel as_cancelled
stale_dispatch_revives_example =
    stale_dispatch_revives json fresh order runs
      (record { committed = committed; chosen = choice; result = result }) "2026-01-03"
      "no longer needed" (str "tr:one") (str "human:owner")
      (as_cancelled "2026-01-03" "no longer needed" row) refl refl refl
