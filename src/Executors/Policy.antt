-- ===== src/Executors/Policy.antt =====
-- src/executor-profile.js: which profiles a request's policy and budget admit, and in what order they
-- are preferred.
use Prim.Native.Nat.{compare, Ordering}
use cairnstone_v.Prelude.{
  ℕ, String, Bool, true, false, not, ◌&&◌, ◌||◌, Option, none, some, List, [], ◌∷◌, if◌then◌else◌,
  ltb, leb, ◌==◌, string_eq, contains, all,
}
use cairnstone_v.Prelude.Text.{lower_is}
use cairnstone_v.Prelude.Names.{nonempty_text}
use cairnstone_v.Prelude.Value.{Value, as_string, as_bool, truthy}
use cairnstone_v.Executors.Profiles.{CostClass, QualityClass, ContextMode, Profile}

pub data Preset : Type 0 where
  economy balanced best manual : Preset

abbrev pub preset_named : String → Option Preset
preset_named s =
    if lower_is s "economy"
    then some Preset.economy
    else if lower_is s "balanced"
    then some Preset.balanced
    else if lower_is s "best"
    then some Preset.best
    else if lower_is s "manual"
    then some Preset.manual
    else none

abbrev pub parse_preset : Value → Option Preset
parse_preset v = elim (nonempty_text v) [ none ↦ some Preset.balanced | some s ↦ preset_named s ]

-- The fields of `budget_envelope` that the route reads; a list that is none is no array.
pub record Budget : Type 0 where
  pub max_cost_class : Value
  pub allow_paid_external : Value
  pub require_compiled_context : Value
  pub forbid_native_context : Value
  pub executor_allowlist : Option (List Value)
  pub executor_denylist : Option (List Value)

-- `v === true`, `v === false`
abbrev pub is_exactly : Bool → Value → Bool
is_exactly b v = elim (as_bool v) [ none ↦ false | some c ↦ if b then c else not c ]

-- `v === text`
abbrev pub is_text : Value → String → Bool
is_text v text = elim (as_string v) [ none ↦ false | some s ↦ s == text ]

abbrev pub includes_text : List Value → String → Bool
includes_text [] text = false
includes_text (v ∷ vs) text = is_text v text || includes_text vs text

abbrev pub is_native : ContextMode → Bool
is_native ContextMode.cairnstone_native = true
is_native ContextMode.compiled_context = false

abbrev pub is_compiled_profile : Profile → Bool
is_compiled_profile p = not (is_native p.context_mode) || p.requires_compiled_context

abbrev pub host_satisfied_compiled_capabilities : List String
host_satisfied_compiled_capabilities = "stone.read" ∷ []

-- A capability that the profile has, or that the host gives a compiled context.
abbrev pub is_covered : Profile → String → Bool
is_covered p c =
    contains c p.capabilities
    || (is_compiled_profile p && contains c host_satisfied_compiled_capabilities)

unfoldable pub missing_caps : Profile → List String → List String
missing_caps p [] = []
missing_caps p (c ∷ cs) = let rest = missing_caps p cs in if is_covered p c then rest else c ∷ rest

abbrev pub deterministic_caps : List String
deterministic_caps =
    "repo.read" ∷ "repo.search" ∷ "d1.inspect" ∷ "cloudflare.inspect" ∷ "stone.read"
    ∷ "attachment.resolve" ∷ []

abbrev is_cons : List String → Bool
is_cons [] = false
is_cons (c ∷ cs) = true

unfoldable pub is_fully_deterministic : List String → Bool
is_fully_deterministic required =
    is_cons required && all (λ c. contains c deterministic_caps) required

abbrev pub coding_caps : List String
coding_caps = "repo.edit" ∷ "repo.pr" ∷ "repo.diff" ∷ "repo.test" ∷ []

unfoldable pub requires_coding_agent : List String → Bool
requires_coding_agent [] = false
requires_coding_agent (c ∷ cs) = contains c coding_caps || requires_coding_agent cs

abbrev pub cost_rank : CostClass → ℕ
cost_rank CostClass.free = 0
cost_rank CostClass.low = 1
cost_rank CostClass.medium = 2
cost_rank CostClass.high = 3
cost_rank CostClass.paid_external = 4

-- `costRank` of a text from outside.
abbrev pub limit_rank : Value → ℕ
limit_rank v =
    if is_text v "free"
    then 0
    else if is_text v "low"
    then 1
    else if is_text v "medium"
    then 2
    else if is_text v "high"
    then 3
    else if is_text v "paid_external"
    then 4
    else 9

abbrev pub quality_rank : QualityClass → ℕ
quality_rank QualityClass.deterministic = 0
quality_rank QualityClass.specialist = 1
quality_rank QualityClass.balanced = 2
quality_rank QualityClass.premium = 3

pub data PolicyReason : Type 0 where
  economy_rejects_high_cost economy_rejects_premium budget_max_cost_class_exceeded : PolicyReason
  paid_external_not_allowed budget_requires_compiled_context : PolicyReason
  budget_forbids_native_context not_in_executor_allowlist executor_denylist : PolicyReason

abbrev pub is_economy : Preset → Bool
is_economy Preset.economy = true
is_economy Preset.balanced = false
is_economy Preset.best = false
is_economy Preset.manual = false

abbrev pub is_paid : CostClass → Bool
is_paid CostClass.paid_external = true
is_paid CostClass.free = false
is_paid CostClass.low = false
is_paid CostClass.medium = false
is_paid CostClass.high = false

-- An allowlist that is empty or missing admits every executor.
abbrev pub is_allowlisted : Option (List Value) → String → Bool
is_allowlisted none id = true
is_allowlisted (some []) id = true
is_allowlisted (some (v ∷ vs)) id = includes_text (v ∷ vs) id

abbrev pub is_denylisted : Option (List Value) → String → Bool
is_denylisted none id = false
is_denylisted (some vs) id = includes_text vs id

-- The first reason whose test holds.
unfoldable pub first_reason : List (Bool × PolicyReason) → Option PolicyReason
first_reason [] = none
first_reason ((b, r) ∷ rest) = if b then some r else first_reason rest

abbrev pub policy_tests : Profile → Preset → Budget → List (Bool × PolicyReason)
policy_tests p policy b =
    (is_economy policy && leb 3 (cost_rank p.cost_class), economy_rejects_high_cost)
    ∷ (is_economy policy && leb 5 p.selection_rank, economy_rejects_premium)
    ∷ (
      truthy b.max_cost_class && ltb (limit_rank b.max_cost_class) (cost_rank p.cost_class),
      budget_max_cost_class_exceeded,
    )
    ∷ (is_exactly false b.allow_paid_external && is_paid p.cost_class, paid_external_not_allowed)
    ∷ (
      is_exactly true b.require_compiled_context && is_native p.context_mode,
      budget_requires_compiled_context,
    )
    ∷ (
      is_exactly true b.forbid_native_context && is_native p.context_mode,
      budget_forbids_native_context,
    )
    ∷ (not (is_allowlisted b.executor_allowlist p.executor_id), not_in_executor_allowlist)
    ∷ (is_denylisted b.executor_denylist p.executor_id, executor_denylist)
    ∷ []

-- `none` where the policy and the budget admit the profile.
unfoldable pub policy_allows : Profile → Preset → Budget → Option PolicyReason
unfolding first_reason
policy_allows p policy b = first_reason (policy_tests p policy b)

abbrev pub context_mode_rank : Profile → ℕ
context_mode_rank p = if is_native p.context_mode then 0 else 1

-- The sign of a difference, and of the next one where it is 0.
abbrev pub then_by : Ordering → Ordering → Ordering
then_by Ordering.lt next = Ordering.lt
then_by Ordering.eq next = next
then_by Ordering.gt next = Ordering.gt

unfoldable pub compare_candidates : Profile → Profile → Preset → Ordering
compare_candidates a b Preset.best =
    then_by (compare (quality_rank b.quality_class) (quality_rank a.quality_class)) (
      then_by (compare a.selection_rank b.selection_rank)
        (compare (context_mode_rank a) (context_mode_rank b)))
compare_candidates a b Preset.economy =
    then_by (compare (cost_rank a.cost_class) (cost_rank b.cost_class)) (
      then_by (compare a.selection_rank b.selection_rank)
        (compare (context_mode_rank a) (context_mode_rank b)))
compare_candidates a b _ = then_by (compare a.selection_rank b.selection_rank) (
    then_by (compare (cost_rank a.cost_class) (cost_rank b.cost_class))
      (compare (context_mode_rank a) (context_mode_rank b)))

-- No difference above 0: `a` may stand before `b`.
abbrev pub not_after : Ordering → Bool
not_after Ordering.lt = true
not_after Ordering.eq = true
not_after Ordering.gt = false

-- A stable sort by the comparison.
unfoldable pub place_candidate : Preset → Profile → List Profile → List Profile
place_candidate policy p [] = p ∷ []
place_candidate policy p (q ∷ qs) =
    if not_after (compare_candidates p q policy)
    then p ∷ q ∷ qs
    else q ∷ place_candidate policy p qs

unfoldable pub sort_candidates : Preset → List Profile → List Profile
unfolding place_candidate
sort_candidates policy [] = []
sort_candidates policy (p ∷ ps) = place_candidate policy p (sort_candidates policy ps)
