-- ===== src/ScopePolicy.antt =====
-- src/resource-scope-policy.js: which scopes an authorization request is given for a resource.
pub mod Narrowing
pub mod Grant
pub mod Examples
use cairnstone_v.Prelude.{
  String, Option, none, some, Bool, true, false, not, ◌&&◌, ◌||◌, ◌==◌, string_eq, if◌then◌else◌,
  List, [], ◌∷◌, contains, push, keep, take, leb, length, nat_eqb, map,
}
use cairnstone_v.Prelude.Text.{trim}
use cairnstone_v.Prelude.Value.{Value, as_string}
use cairnstone_v.Prelude.Words.{words, distinct_after, drop_slashes, not_empty}
use cairnstone_v.Prelude.Result.{Result, ok, fail, ◌>>=◌, get_or}
use Prim.Native.String.{◌++◌ as append}

pub data ResourceClass : Type 0 where
  core messages : ResourceClass

abbrev pub core_scope : String
core_scope = "mcp:core"

abbrev pub messages_scopes : List String
messages_scopes = "messages.read" ∷ "messages.write" ∷ []

abbrev pub canonical_messages_resource : String
canonical_messages_resource = "https://cairnstone-messages.jaredtechfit.workers.dev"

abbrev pub canonical_core_resource : String
canonical_core_resource = "https://cairnstone-v6.jaredtechfit.workers.dev/mcp/core-auth"

-- `RESOURCE_SCOPE_POLICY`
abbrev pub default_scopes : ResourceClass → List String
default_scopes core = core_scope ∷ []
default_scopes messages = "messages.read" ∷ []

abbrev pub allowed_scopes : ResourceClass → List String
allowed_scopes core = core_scope ∷ []
allowed_scopes messages = messages_scopes

-- What a request names its scopes by: an array, as the texts of its members, or a value.
pub data Requested : Type 0 where
  texts : List String → Requested
  value : Value → Requested

unfoldable pub parse_requested_scopes : Requested → List String
parse_requested_scopes (texts ts) = take 64 (distinct_after [] (keep not_empty (map trim ts)))
parse_requested_scopes (value v) = elim (as_string v) [
  | none ↦ []
  | some s ↦ take 64 (distinct_after [] (words s))
]

unfoldable pub normalize_registered_resource : Value → String
normalize_registered_resource v = elim (as_string v) [ none ↦ "" | some s ↦ drop_slashes (trim s) ]

unfoldable pub is_canonical_messages_resource : Value → Bool
is_canonical_messages_resource v =
    let resource = normalize_registered_resource v in
    resource == canonical_messages_resource || resource == append canonical_messages_resource "/mcp"

unfoldable pub canonicalize_messages_resource : Value → Option String
canonicalize_messages_resource v =
    if is_canonical_messages_resource v then some canonical_messages_resource else none

unfoldable pub messages_resources_equivalent : Value → Value → Bool
unfolding canonicalize_messages_resource
messages_resources_equivalent a b = elim (canonicalize_messages_resource a) [
  | none ↦ false
  | some l ↦ elim (canonicalize_messages_resource b) [ none ↦ false | some r ↦ l == r ]
]

-- `env.CORE_AUTH_RESOURCE` and `url.origin`.
pub record Deployment : Type 0 where
  pub configured : Value
  pub origin : Value

abbrev is_own_origin : String → String → Bool
is_own_origin origin resource = not_empty origin && resource == append origin "/mcp/core-auth"

unfoldable pub is_canonical_core_resource : Deployment → Value → Bool
is_canonical_core_resource d v =
    let resource = normalize_registered_resource v in
    let configured = normalize_registered_resource d.configured in
    not_empty resource
    && ((not_empty configured && resource == configured)
        || resource == canonical_core_resource
        || is_own_origin (normalize_registered_resource d.origin) resource)

unfoldable pub resolve_resource_class : Deployment → Value → Option ResourceClass
resolve_resource_class d v =
    if is_canonical_core_resource d v
    then some core
    else if is_canonical_messages_resource v
    then some messages
    else none

unfoldable pub registered_scope_owner : String → Option ResourceClass
registered_scope_owner scope =
    if scope == core_scope
    then some core
    else if contains scope messages_scopes
    then some messages
    else none

abbrev pub all_registered_scopes : List String
all_registered_scopes = core_scope ∷ messages_scopes

abbrev pub advertised_authorization_scopes : List String
advertised_authorization_scopes = all_registered_scopes

abbrev pub same_class : ResourceClass → ResourceClass → Bool
same_class core core = true
same_class messages messages = true
same_class core messages = false
same_class messages core = false

-- The three lists that the loop fills.
pub record Sorting : Type 0 where
  pub eligible : List String
  pub foreign : List String
  pub unknown : List String

abbrev pub sort_scope : ResourceClass → String → Sorting → Sorting
sort_scope klass scope acc = elim (registered_scope_owner scope) [
  | none ↦ record acc { unknown = push scope acc.unknown }
  | some owner ↦
      if not (contains scope (allowed_scopes klass)) || not (same_class owner klass)
      then record acc { foreign = push scope acc.foreign }
      else if contains scope acc.eligible
      then acc
      else record acc { eligible = push scope acc.eligible }
]

unfoldable pub sort_scopes : ResourceClass → List String → Sorting → Sorting
unfolding registered_scope_owner
sort_scopes klass [] acc = acc
sort_scopes klass (scope ∷ scopes) acc = sort_scopes klass scopes (sort_scope klass scope acc)

pub data PolicyError : Type 0 where
  invalid_target : PolicyError
  invalid_scope : ResourceClass → List String → PolicyError

pub record Granted : Type 0 where
  pub resource_class : ResourceClass
  pub scopes : List String
  pub defaulted : Bool
  pub narrowed : List String

abbrev pub is_empty : List String → Bool
is_empty [] = true
is_empty (x ∷ xs) = false

abbrev pub nothing_sorted : Sorting
nothing_sorted = record { eligible = []; foreign = []; unknown = [] }

abbrev pub decide_scopes : ResourceClass → Sorting → Result PolicyError Granted
decide_scopes klass s =
    if not (is_empty s.unknown)
    then fail (invalid_scope klass s.unknown)
    else if is_empty s.eligible
    then fail (invalid_scope klass s.foreign)
    else ok (record {
      resource_class = klass;
      scopes = s.eligible;
      defaulted = false;
      narrowed = s.foreign;
    })

-- The answer for a class, from the scopes that are asked for.
unfoldable pub decide_requested : ResourceClass → List String → Result PolicyError Granted
unfolding sort_scopes
decide_requested klass requested =
    if is_empty requested
    then ok (record {
      resource_class = klass;
      scopes = default_scopes klass;
      defaulted = true;
      narrowed = [];
    })
    else decide_scopes klass (sort_scopes klass requested nothing_sorted)

unfoldable pub resolve_resource_scope_policy :
    Deployment → Value → Requested → Result PolicyError Granted
unfolding decide_requested
resolve_resource_scope_policy d resource requested = do
  klass ← get_or (resolve_resource_class d resource) invalid_target
  decide_requested klass (parse_requested_scopes requested)
