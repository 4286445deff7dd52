-- ===== src/Executors/Context.antt =====
-- src/executor-profile.js: the lookup of a profile, and how context reaches an executor.
use cairnstone_v.Prelude.{
  String, Bool, true, false, not, ◌||◌, Option, none, some, List, [], ◌∷◌, if◌then◌else◌, ◌==◌,
  string_eq, keep,
}
use cairnstone_v.Prelude.Text.{trim}
use cairnstone_v.Prelude.Names.{named, kind_pattern}
use cairnstone_v.Prelude.Value.{Value, as_string, truthy}
use cairnstone_v.Prelude.Result.{Result, ok, ◌>>=◌, get_or}
use cairnstone_v.Executors.Profiles.{ContextMode, Profile, seed_executor_profiles}
use cairnstone_v.Executors.Policy.{is_native}

pub data LookupError : Type 0 where
  executor_id_required invalid_executor_id executor_not_found : LookupError

-- `PROFILE_BY_ID.get(id)`
unfoldable pub find_profile : String → List Profile → Option Profile
find_profile id [] = none
find_profile id (p ∷ ps) = if p.executor_id == id then some p else find_profile id ps

-- `cloneProfile`: a profile that needs its context compiled says so.
unfoldable pub clone_profile : Profile → Profile
clone_profile p = record p {
  requires_compiled_context = p.requires_compiled_context || not (is_native p.context_mode);
}

unfoldable pub get_executor_profile : Value → Result LookupError Profile
get_executor_profile executor_id = do
  id ← get_or (named (kind_pattern "exec") executor_id) invalid_executor_id
  p ← get_or (find_profile id seed_executor_profiles) executor_not_found
  ok (clone_profile p)

-- A filter of a listing: the texts that are compared are trimmed, and what is falsy filters nothing.
abbrev pub agrees : Value → String → Bool
agrees v text =
    if truthy v then elim (as_string v) [ none ↦ false | some s ↦ text == trim s ] else true

unfoldable pub clone_all : List Profile → List Profile
clone_all [] = []
clone_all (p ∷ ps) = clone_profile p ∷ clone_all ps

unfoldable pub list_executor_profiles : Value → Value → List Profile
list_executor_profiles executor_class availability =
    keep (λ p. agrees availability p.availability)
      (keep (λ p. agrees executor_class p.executor_class) (clone_all seed_executor_profiles))

pub data ContextResolution : Type 0 where
  reference_only_native compiled_transmitted : ContextResolution

pub data ContextReason : Type 0 where
  executor_cairnstone_aware_resolves_canonical_refs : ContextReason
  executor_requires_compiled_context_no_cairnstone_access : ContextReason
  executor_compiled_context_mode : ContextReason

pub record ContextMeta : Type 0 where
  pub context_mode : ContextMode
  pub context_resolution : ContextResolution
  pub context_resolution_reason : ContextReason
  pub human_preferred_executor_honored : Bool
  pub requires_compiled_context : Bool
  pub compiled_pack_required : Bool
  pub supported_ref_types : List String
  pub context_resolution_endpoint : Option String

abbrev pub resolution_of : ContextMode → ContextResolution
resolution_of ContextMode.cairnstone_native = reference_only_native
resolution_of ContextMode.compiled_context = compiled_transmitted

abbrev pub reason_of : ContextMode → Bool → ContextReason
reason_of ContextMode.cairnstone_native required = executor_cairnstone_aware_resolves_canonical_refs
reason_of ContextMode.compiled_context true =
    executor_requires_compiled_context_no_cairnstone_access
reason_of ContextMode.compiled_context false = executor_compiled_context_mode

-- The flag says whether the selection's reason is that the executor was preferred.
unfoldable pub resolve_context_resolution : Profile → Bool → ContextMeta
resolve_context_resolution p preferred =
    let required = not (is_native p.context_mode) || p.requires_compiled_context in
    record {
      context_mode = p.context_mode;
      context_resolution = resolution_of p.context_mode;
      context_resolution_reason = reason_of p.context_mode p.requires_compiled_context;
      human_preferred_executor_honored = preferred;
      requires_compiled_context = required;
      compiled_pack_required = required;
      supported_ref_types = p.supported_ref_types;
      context_resolution_endpoint = p.context_resolution_endpoint;
    }
