-- ===== src/Executors/Route.antt =====
-- src/executor-profile.js, `routeExecutor`: a request is routed to one profile and gets a receipt.
use cairnstone_v.Prelude.{
  ℕ, String, Bool, true, false, not, ◌&&◌, Option, none, some, List, [], ◌∷◌, ◌++◌, if◌then◌else◌,
  leb, nat_eqb, string_eq,
}
use cairnstone_v.Prelude.Text.{trim}
use cairnstone_v.Prelude.Names.{named, nonempty_text, actor_pattern, kind_pattern}
use cairnstone_v.Prelude.Value.{Value, undefined, null, as_string, truthy}
use cairnstone_v.Prelude.Result.{Result, ok, fail, ◌>>=◌, ◌>>◌, unless, get_or, map_error}
use cairnstone_v.Executors.Profiles.{Profile, seed_executor_profiles}
use cairnstone_v.Executors.Capabilities.{
  list_or_empty, normalize_capability_list, normalize_ref_hints, infer_required_capabilities,
}
use cairnstone_v.Executors.Policy.{
  Preset, Budget, PolicyReason, parse_preset, is_text, missing_caps, is_fully_deterministic,
  requires_coding_agent, policy_allows, sort_candidates,
}
use cairnstone_v.Executors.Context.{find_profile, clone_profile, resolve_context_resolution}
use cairnstone_v.Executors.Request.{
  RouteRequest, RejectReason, by_policy, missing_capabilities,
  deterministic_work_prefers_cheaper_executor, Rejected, RouteError, invalid_policy_preset,
  invalid_actor_id, invalid_parent_task_run_id, capabilities, attachment_refs,
  manual_policy_requires_preferred_executor, invalid_preferred_executor,
  preferred_executor_not_eligible, preferred_executor_not_found, no_eligible_executor,
  SelectionReason, fully_deterministic, narrow_specialist_capability_fit,
  inexpensive_model_backed_specialist, coding_agent_repo_work_required, coding_agent_selected,
  premium_general_reasoning_required, paid_external_policy_budget_allow, policy_rank,
  budget_or_empty, Selected, RouteReceipt, Routed, Need,
}

-- `v === undefined || v === null || v === ""`
abbrev pub is_blank : Value → Bool
is_blank undefined = true
is_blank null = true
is_blank v = is_text v ""

-- The preferred executor is compared as it was given, without a trim.
unfoldable pub prefers_cheaper : List String → Value → Profile → Bool
prefers_cheaper inferred preferred p =
    is_fully_deterministic inferred
    && leb 4 p.selection_rank
    && not (is_text preferred p.executor_id)

abbrev pub policy_verdict : Option PolicyReason → Bool → Option RejectReason
policy_verdict (some r) cheaper = some (by_policy r)
policy_verdict none true = some deterministic_work_prefers_cheaper_executor
policy_verdict none false = none

abbrev pub verdict : List String → Option PolicyReason → Bool → Option RejectReason
verdict [] allowed cheaper = policy_verdict allowed cheaper
verdict (c ∷ cs) allowed cheaper = some (missing_capabilities (c ∷ cs))

-- Why a profile is rejected; `none` where it is eligible.
unfoldable pub judge : List String → Preset → Budget → Value → Profile → Option RejectReason
judge inferred policy b preferred p =
    verdict (missing_caps p inferred) (policy_allows p policy b)
      (prefers_cheaper inferred preferred p)

abbrev pub add_eligible : Option RejectReason → Profile → List Profile → List Profile
add_eligible none p ps = p ∷ ps
add_eligible (some r) p ps = ps

abbrev pub add_rejected : Option RejectReason → Profile → List Rejected → List Rejected
add_rejected none p rs = rs
add_rejected (some r) p rs = record { profile = p; reason = r } ∷ rs

unfoldable pub eligible_of : (Profile → Option RejectReason) → List Profile → List Profile
eligible_of judged [] = []
eligible_of judged (p ∷ ps) = add_eligible (judged p) p (eligible_of judged ps)

unfoldable pub rejected_of : (Profile → Option RejectReason) → List Profile → List Rejected
rejected_of judged [] = []
rejected_of judged (p ∷ ps) = add_rejected (judged p) p (rejected_of judged ps)

abbrev pub is_manual : Preset → Bool
is_manual Preset.manual = true
is_manual Preset.economy = false
is_manual Preset.balanced = false
is_manual Preset.best = false

unfoldable pub selection_reason : List String → Preset → ℕ → SelectionReason
selection_reason inferred policy rank =
    if is_fully_deterministic inferred && nat_eqb rank 1
    then fully_deterministic
    else if nat_eqb rank 2
    then narrow_specialist_capability_fit
    else if nat_eqb rank 3
    then inexpensive_model_backed_specialist
    else if nat_eqb rank 4
    then if requires_coding_agent inferred
      then coding_agent_repo_work_required
      else coding_agent_selected
    else if nat_eqb rank 5
    then premium_general_reasoning_required
    else if nat_eqb rank 6
    then paid_external_policy_budget_allow
    else policy_rank policy rank

abbrev pub not_eligible : Option Profile → RouteError
not_eligible none = preferred_executor_not_found
not_eligible (some p) = preferred_executor_not_eligible

abbrev pub select_preferred : List Profile → List Profile → String → Result RouteError Selected
select_preferred registry eligible id =
    unless (kind_pattern "exec" id) invalid_preferred_executor
    >> get_or (find_profile id eligible) (not_eligible (find_profile id registry))
    >>= λ p. ok (record { profile = p; reason = SelectionReason.preferred_executor })

abbrev pub select_first : List String → Preset → List Profile → Result RouteError Selected
select_first inferred policy [] = fail no_eligible_executor
select_first inferred policy (p ∷ ps) =
    ok (record { profile = p; reason = selection_reason inferred policy p.selection_rank })

abbrev pub select_as :
    List Profile → List String → Preset → Option String → List Profile → Result RouteError Selected
select_as registry inferred policy none eligible =
    if is_manual policy
    then fail manual_policy_requires_preferred_executor
    else select_first inferred policy (sort_candidates policy eligible)
select_as registry inferred policy (some id) eligible = select_preferred registry eligible id

-- The selection among the profiles of a registry that were found eligible.
unfoldable pub select :
    List Profile → List String → Preset → Value → List Profile → Result RouteError Selected
select registry inferred policy preferred eligible =
    select_as registry inferred policy (nonempty_text preferred) eligible

-- `v ? String(v).trim() : null`, for a text
abbrev trimmed_text : Value → Option String
trimmed_text v =
    if truthy v then elim (as_string v) [ none ↦ none | some s ↦ some (trim s) ] else none

abbrev is_actor_arg : Value → Bool
is_actor_arg v =
    if is_blank v then true else elim (named actor_pattern v) [ none ↦ false | some s ↦ true ]

abbrev is_parent_arg : Value → Bool
is_parent_arg v =
    if is_blank v
    then true
    else elim (as_string v) [ none ↦ false | some s ↦ kind_pattern "tr" (trim s) ]

abbrev is_preferred : SelectionReason → Bool
is_preferred SelectionReason.preferred_executor = true
is_preferred _ = false

unfoldable pub check_route : RouteRequest → Result RouteError Need
unfolding ◌>>=◌
check_route r = do
  policy ← get_or (parse_preset r.policy_preset) invalid_policy_preset
  unless (is_actor_arg r.actor_id) invalid_actor_id
  unless (is_parent_arg r.parent_task_run_id) invalid_parent_task_run_id
  caps ← map_error capabilities (normalize_capability_list r.required_capabilities)
  refs ←
      map_error attachment_refs
        (normalize_ref_hints (list_or_empty r.attachment_refs ++ list_or_empty r.object_refs))
  ok (record {
    policy = policy;
    refs = refs;
    inferred = infer_required_capabilities caps refs r.work_hints;
  })

abbrev pub judged_by : RouteRequest → Need → Profile → Option RejectReason
judged_by r n = judge n.inferred n.policy (budget_or_empty r.budget_envelope) r.preferred_executor

unfoldable pub receipt_of :
    (id now : String) → List Profile → RouteRequest → Need → Selected → RouteReceipt
receipt_of id now registry r n s = record {
  route_receipt_id = id;
  created_at = now;
  actor_id = trimmed_text r.actor_id;
  parent_task_run_id = trimmed_text r.parent_task_run_id;
  required_capabilities = n.inferred;
  attachment_refs = n.refs;
  policy_preset = n.policy;
  budget_envelope = budget_or_empty r.budget_envelope;
  considered_executors = registry;
  eligible_executors = eligible_of (judged_by r n) registry;
  rejected_candidates = rejected_of (judged_by r n) registry;
  selected_executor_id = s.profile.executor_id;
  selected_executor_class = s.profile.executor_class;
  selection_reason = s.reason;
  cost_class = s.profile.cost_class;
  latency_class = s.profile.latency_class;
  quality_class = s.profile.quality_class;
  context = resolve_context_resolution s.profile (is_preferred s.reason);
}

-- The route over a registry of profiles.
unfoldable pub route_among :
    List Profile → (id now : String) → RouteRequest → Result RouteError Routed
unfolding receipt_of
route_among registry id now r = check_route r >>= λ n.
    select registry n.inferred n.policy r.preferred_executor (eligible_of (judged_by r n) registry)
    >>= λ s. ok (record {
      route_receipt = receipt_of id now registry r n s;
      selected_executor = clone_profile s.profile;
    })

unfoldable pub route_executor : (id now : String) → RouteRequest → Result RouteError Routed
unfolding route_among
route_executor id now r = route_among seed_executor_profiles id now r
