-- ===== src/PrivateRealm/Scope.antt =====
-- src/private-realm/scope.js: the id patterns, `assertHomeScope` and `assertSelector`.
use cairnstone_v.Prelude.{
  ℕ, String, Option, none, some, Bool, ◌||◌, not, ◌==◌, string_eq, if◌then◌else◌,
}
use cairnstone_v.Prelude.Text.{matches_class, is_alnum, is_lower_digit}
use cairnstone_v.Prelude.Tests.{nat_eqb}
use cairnstone_v.Prelude.Value.{Value, undefined, null, str, as_string, or_default}
use cairnstone_v.PrivateRealm.Check.{
  Role, admin, member, HomeScope, home_scope_required, invalid_account_id, invalid_tenant_id,
  invalid_principal_id, invalid_connection_id, invalid_home_role, invalid_provider_label,
  scope_must_not_carry_selectors, invalid_selector, Check, pass, raise, ◌>>=◌, ◌>>◌, require,
  get_or_fail,
}

-- `[A-Za-z0-9_-]` and `[A-Za-z0-9:._-]`.
abbrev pub is_id_char : ℕ → Bool
is_id_char c = is_alnum c || nat_eqb c b'_' || nat_eqb c b'-'

abbrev is_message_char : ℕ → Bool
is_message_char c = is_id_char c || nat_eqb c b':' || nat_eqb c b'.'

-- `ID_PATTERNS`
abbrev pub acct_pattern : String → Bool
acct_pattern = matches_class "acct_" is_id_char 4 60

abbrev pub ten_pattern : String → Bool
ten_pattern = matches_class "ten_" is_id_char 4 60

abbrev pub prin_pattern : String → Bool
prin_pattern = matches_class "prin_" is_id_char 4 60

abbrev pub conn_pattern : String → Bool
conn_pattern = matches_class "conn_" is_id_char 4 60

abbrev pub home_pattern : String → Bool
home_pattern = matches_class "home_" is_id_char 8 70

abbrev pub ibx_pattern : String → Bool
ibx_pattern = matches_class "ibx_" is_id_char 4 70

abbrev pub message_pattern : String → Bool
message_pattern = matches_class "" is_message_char 8 120

abbrev pub thread_pattern : String → Bool
thread_pattern = matches_class "" is_message_char 1 120

-- `/^[a-z0-9_.-]{1,40}$/`
abbrev label_pattern : String → Bool
label_pattern =
    matches_class "" (λ c. is_lower_digit c || nat_eqb c b'_' || nat_eqb c b'.' || nat_eqb c b'-') 1
      40

-- `typeof v === "string" && pattern.test(v)`
abbrev pub matching : (String → Bool) → Value → Option String
matching pattern v = elim (as_string v) [
  | none ↦ none
  | some s ↦ if pattern s then some s else none
]

abbrev role_named : String → Option Role
role_named s = if s == "admin" then some admin else if s == "member" then some member else none

-- `HOME_ROLES.includes(v)`
abbrev pub parse_role : Value → Option Role
parse_role v = elim (as_string v) [ none ↦ none | some s ↦ role_named s ]

-- The fields of a scope object, `undefined` where one is absent.
pub record ScopeFields : Type 0 where
  pub account_id : Value
  pub tenant_id : Value
  pub principal_id : Value
  pub connection_id : Value
  pub home_role : Value
  pub provider_label : Value
  pub has_home_id : Bool
  pub has_inbox_id : Bool

-- The argument `scope`: null, a primitive or an array, or an object.
pub data ScopeArg : Type 0 where
  no_object : ScopeArg
  fields : ScopeFields → ScopeArg

assert_fields : ScopeFields → Check HomeScope
assert_fields f = do
  account ← get_or_fail (matching acct_pattern f.account_id) (raise invalid_account_id)
  tenant ← get_or_fail (matching ten_pattern f.tenant_id) (raise invalid_tenant_id)
  principal ← get_or_fail (matching prin_pattern f.principal_id) (raise invalid_principal_id)
  connection ← get_or_fail (matching conn_pattern f.connection_id) (raise invalid_connection_id)
  role ← get_or_fail (parse_role (or_default f.home_role (str "member"))) (raise invalid_home_role)
  label ←
      get_or_fail (matching label_pattern (or_default f.provider_label (str "unspecified")))
        (raise invalid_provider_label)
  require (not (f.has_home_id || f.has_inbox_id)) (raise scope_must_not_carry_selectors)
  pass (record {
    account_id = account;
    tenant_id = tenant;
    principal_id = principal;
    connection_id = connection;
    home_role = role;
    provider_label = label;
  })

unfoldable pub assert_home_scope : ScopeArg → Check HomeScope
unfolding assert_fields
assert_home_scope no_object = raise home_scope_required
assert_home_scope (fields f) = assert_fields f

-- The argument `selector`: undefined or null, another non-object, or an object with `homeId`.
pub data SelectorArg : Type 0 where
  absent no_object : SelectorArg
  home : Value → SelectorArg

assert_home_id : Value → Check (Option String)
assert_home_id undefined = pass none
assert_home_id null = pass none
assert_home_id v = do
  id ← get_or_fail (matching home_pattern v) (raise invalid_selector)
  pass (some id)

-- The selected `homeId`, or none.
unfoldable pub assert_selector : SelectorArg → Check (Option String)
unfolding assert_home_id
assert_selector absent = pass none
assert_selector no_object = raise invalid_selector
assert_selector (home v) = assert_home_id v
