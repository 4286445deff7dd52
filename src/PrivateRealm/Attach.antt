-- ===== src/PrivateRealm/Attach.antt =====
-- src/private-realm/store.js: `newHome` and `ensureDefaultHome`.
use cairnstone_v.Prelude.{
  ℕ, String, none, some, Bool, true, false, ◌&&◌, ◌||◌, not, [], ◌∷◌, ◌==◌, nat_eqb, string_eq,
  if◌then◌else◌,
}
use cairnstone_v.Prelude.Dict.{Dict, lookup, insert}
use cairnstone_v.PrivateRealm.Check.{
  Role, admin, member, HomeScope, type_error, Check, pass, raise, ◌>>=◌, ◌>>◌, require, get_or_fail,
}
use cairnstone_v.PrivateRealm.Scope.{ScopeArg, assert_home_scope}
use cairnstone_v.PrivateRealm.State.{active, Connection, Home, Store}
use cairnstone_v.PrivateRealm.Authority.{
  Outcome, settle, allow, deny_auth, is_active, is_admin, active_admin_count, save,
}

pub record Ensured : Type 0 where
  pub home_id : String
  pub created : Bool
  pub connection_attached : Bool
  pub role : Role

-- `newHome`: the Home under its minted id, before its first connection.
unfoldable pub new_home : ℕ → String → HomeScope → Home
new_home now home_id scope = record {
  home_id = home_id;
  account_id = scope.account_id;
  tenant_id = scope.tenant_id;
  status = active;
  created_at = now;
  connections = [];
  inboxes = [];
  grants = [];
  messages = [];
  deliveries = [];
}

-- A connection that is known already: nothing is attached.
unfoldable pub ensure_known : ℕ → HomeScope → String → Store → Check (Store × Ensured)
ensure_known now scope id s = do
  home ← get_or_fail (lookup id s.homes) (raise type_error)
  require (home.account_id == scope.account_id && home.tenant_id == scope.tenant_id)
      (deny_auth (some id) scope "ensure_home" "connection_conflict")
  conn ← get_or_fail (lookup scope.connection_id home.connections) (raise type_error)
  require (conn.principal_id == scope.principal_id)
      (deny_auth (some id) scope "ensure_home" "connection_conflict")
  require (is_active conn.status) (deny_auth (some id) scope "ensure_home" "connection_revoked")
  pass (
    allow now home scope "ensure_home" (some "idempotent") s,
    record { home_id = id; created = false; connection_attached = false; role = conn.role },
  )

unfoldable pub new_connection : ℕ → HomeScope → Role → Connection
new_connection now scope role = record {
  connection_id = scope.connection_id;
  principal_id = scope.principal_id;
  provider_label = scope.provider_label;
  role = role;
  status = active;
  created_at = now;
  revoked_at = none;
}

-- The Home with the connection of `scope` under `role`.
unfoldable pub attach : ℕ → HomeScope → Role → Home → Home
unfolding new_connection
attach now scope role home = record home {
  connections = insert scope.connection_id (new_connection now scope role) home.connections;
}

abbrev pub attach_reason : Bool → Bool → Bool → String
attach_reason wants_admin granted created =
    if wants_admin && not granted
    then "role_downgraded_to_member"
    else if created
    then "created"
    else "attached"

abbrev pub role_of : Bool → Role
role_of true = admin
role_of false = member

-- The last part: the role, the connection, its index entry, the audit row.
unfoldable pub finish_attach : ℕ → HomeScope → Bool → Home → Store → Store × Ensured
unfolding attach
finish_attach now scope created home s =
    let wants_admin = is_admin scope.home_role in
    let granted = created || (wants_admin && nat_eqb (active_admin_count home) 0) in
    let attached = attach now scope (role_of granted) home in
    let indexed : Store = record (save attached s) {
      connection_index = insert scope.connection_id home.home_id s.connection_index;
    } in
    let reason = attach_reason wants_admin granted created in
    (
      allow now home scope "ensure_home" (some reason) indexed,
      record {
        home_id = home.home_id;
        created = created;
        connection_attached = true;
        role = role_of granted;
      },
    )

-- `c.principal_id === scope.principal_id` for some connection, revoked ones included.
abbrev pub has_principal : String → Dict String Connection → Bool
has_principal principal [] = false
has_principal principal ((k, c) ∷ m) =
    if c.principal_id == principal then true else has_principal principal m

unfoldable pub ensure_existing : ℕ → HomeScope → String → Store → Check (Store × Ensured)
unfolding finish_attach
ensure_existing now scope id s = do
  home ← get_or_fail (lookup id s.homes) (raise type_error)
  require (home.tenant_id == scope.tenant_id)
      (deny_auth (some id) scope "ensure_home" "account_tenant_mismatch")
  require (is_active home.status) (deny_auth (some id) scope "ensure_home" "home_inactive")
  require (not (has_principal scope.principal_id home.connections))
      (deny_auth (some id) scope "ensure_home" "principal_conflict")
  pass (finish_attach now scope false home s)

-- `newHome` writes the Home and the account's entry.
unfoldable pub ensure_created : ℕ → String → HomeScope → Store → Store × Ensured
unfolding finish_attach new_home
ensure_created now minted scope s =
    let home = new_home now minted scope in
    let registered : Store = record (save home s) {
      account_index = insert scope.account_id minted s.account_index;
    } in
    finish_attach now scope true home registered

unfoldable pub ensure_unknown : ℕ → String → HomeScope → Store → Check (Store × Ensured)
unfolding ensure_existing ensure_created
ensure_unknown now minted scope s = elim (lookup scope.account_id s.account_index) [
  | some id ↦ ensure_existing now scope id s
  | none ↦ pass (ensure_created now minted scope s)
]

-- `minted` is the id that `mintId("home", 12)` gives, if it is called.
unfoldable pub check_ensure_default_home : ℕ → String → ScopeArg → Store → Check (Store × Ensured)
unfolding ensure_known ensure_unknown
check_ensure_default_home now minted scope_in s = do
  scope ← assert_home_scope scope_in
  elim (lookup scope.connection_id s.connection_index) [
    | some id ↦ ensure_known now scope id s
    | none ↦ ensure_unknown now minted scope s
  ]

unfoldable pub ensure_default_home : ℕ → String → ScopeArg → Store → Outcome Ensured × Store
unfolding check_ensure_default_home
ensure_default_home now minted scope_in s =
    settle now (check_ensure_default_home now minted scope_in s) s
