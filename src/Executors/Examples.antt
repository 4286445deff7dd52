-- ===== src/Executors/Examples.antt =====
-- Requests that are routed, and the theorems on them.
use cairnstone_v.Prelude.{String, ◌⊎◌, ◌≡◌, refl, none, some, [], ◌∷◌, ◌↔◌, In, string_eq}
use cairnstone_v.Prelude.Names.{kind_pattern, actor_pattern}
use cairnstone_v.Prelude.Text.{trim, slice_units, lowered, strip_prefix}
use cairnstone_v.Prelude.Words.{distinct_after}
use cairnstone_v.Prelude.Value.{undefined, null, str}
use cairnstone_v.Prelude.Result.{ok, ◌>>=◌}
use cairnstone_v.Executors.Profiles.{seed_executor_profiles, cursor_cloud, Profile}
use cairnstone_v.Executors.Hints.{search_words, hint_text}
use cairnstone_v.Executors.Capabilities.{
  plain, is_capability, each_entry, normalize_capability_list, normalize_ref_hints, hint_caps,
  sort_texts, place_text, gather_capabilities, infer_required_capabilities,
}
use cairnstone_v.Executors.Policy.{
  Preset, missing_caps, is_fully_deterministic, requires_coding_agent, first_reason, policy_allows,
  compare_candidates, place_candidate, sort_candidates,
}
use cairnstone_v.Executors.Context.{clone_profile, find_profile}
use cairnstone_v.Executors.Request.{
  RouteRequest, Need, Selected, Routed, coding_agent_repo_work_required,
}
use cairnstone_v.Executors.Route.{
  check_route, select, judge, prefers_cheaper, eligible_of, selection_reason, receipt_of,
  route_among, route_executor,
}
use cairnstone_v.Executors.Selection.{IsRouted, route_executor-IsRouted}
use cairnstone_v.Executors.Inferred.{Needed, infer_required_capabilities-Needed}
use cairnstone_v.Prelude.Names.{named, kind_pattern}
use cairnstone_v.Executors.Listing.{Matches, list_executor_profiles_exact}
use cairnstone_v.Executors.Context.{get_executor_profile, list_executor_profiles}
use cairnstone_v.Executors.Completeness.{Fits, route_executor_finds}

abbrev request : RouteRequest
request = record {
  required_capabilities = none;
  attachment_refs = some (plain (str " repo:owner/name ") ∷ []);
  object_refs = none;
  work_hints = "Fix it, and open a Pull-Request" ∷ [];
  policy_preset = null;
  preferred_executor = null;
  budget_envelope = none;
  parent_task_run_id = null;
  actor_id = str "human:owner";
}

abbrev need : Need
need = record {
  policy = Preset.balanced;
  refs = "repo:owner/name" ∷ [];
  inferred = "repo.diff" ∷ "repo.edit" ∷ "repo.pr" ∷ "repo.read" ∷ [];
}

abbrev chosen : Selected
chosen = record { profile = cursor_cloud; reason = coding_agent_repo_work_required }

abbrev routed : Routed
routed = record {
  route_receipt = receipt_of "errcpt:1" "2026-01-01" seed_executor_profiles request need chosen;
  selected_executor = clone_profile cursor_cloud;
}

request_checked : check_route request ≡ ok need
unfolding check_route normalize_capability_list normalize_ref_hints infer_required_capabilities
    gather_capabilities hint_caps hint_text lowered search_words each_entry distinct_after
    slice_units sort_texts trim place_text strip_prefix ◌>>=◌ actor_pattern kind_pattern
    is_capability
request_checked = refl

route_executor-IsRouted_example : IsRouted seed_executor_profiles request routed
unfolding check_route normalize_capability_list normalize_ref_hints infer_required_capabilities
    gather_capabilities hint_caps hint_text lowered search_words each_entry distinct_after
    slice_units sort_texts trim place_text strip_prefix ◌>>=◌ actor_pattern kind_pattern
    is_capability route_executor route_among select judge prefers_cheaper missing_caps policy_allows
    first_reason is_fully_deterministic requires_coding_agent eligible_of sort_candidates
    place_candidate compare_candidates selection_reason find_profile
route_executor-IsRouted_example =
    route_executor-IsRouted "errcpt:1" "2026-01-01" request routed refl

route_executor_finds_example :
    ((out : Routed) × (route_executor "errcpt:1" "2026-01-01" request ≡ ok out))
    ↔ ((q : Profile) × In q seed_executor_profiles × Fits request need q)
route_executor_finds_example =
    route_executor_finds "errcpt:1" "2026-01-01" request need request_checked refl refl

infer_required_capabilities-Needed_example :
    In "repo.test" (infer_required_capabilities [] ("repo:owner/name" ∷ []) ("Run the tests" ∷ []))
    ↔ (Needed [] ("repo:owner/name" ∷ []) ("Run the tests" ∷ []) "repo.test"
        ⊎ ((◌≡◌ {A = String} "repo.test" "stone.read")
            × ((d : String) → ¬ Needed [] ("repo:owner/name" ∷ []) ("Run the tests" ∷ []) d)))
infer_required_capabilities-Needed_example =
    infer_required_capabilities-Needed [] ("repo:owner/name" ∷ []) ("Run the tests" ∷ [])
      "repo.test"

list_executor_profiles_exact_example :
    (In cursor_cloud (list_executor_profiles (str "coding_agent") null) ↔ (
      (get_executor_profile (str "exec:cursor-cloud") ≡ ok cursor_cloud)
      × Matches (str "coding_agent") "coding_agent"
      × Matches null "stub"))
    × ((get_executor_profile (str " exec:cursor-cloud ") ≡ ok cursor_cloud) ↔ (
        In cursor_cloud (list_executor_profiles undefined undefined)
        × (named (kind_pattern "exec") (str " exec:cursor-cloud ") ≡ some "exec:cursor-cloud")))
list_executor_profiles_exact_example =
    list_executor_profiles_exact (str "coding_agent") null (str " exec:cursor-cloud ") cursor_cloud
