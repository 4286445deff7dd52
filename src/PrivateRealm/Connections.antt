-- ===== src/PrivateRealm/Connections.antt =====
-- src/private-realm/store.js: `setConnectionRole`, `revokeConnection`, `resolveHome`.
use cairnstone_v.Prelude.{
  ℕ, String, Option, none, some, Bool, true, false, ◌&&◌, not, ◌==◌, leb, string_eq, if◌then◌else◌,
}
use cairnstone_v.Prelude.Dict.{lookup, insert, update_all}
use cairnstone_v.Prelude.Value.{Value, undefined, as_string}
use cairnstone_v.PrivateRealm.Check.{
  Role, admin, member, invalid_home_role, invalid_connection_id, Check, pass, raise, ◌>>=◌, ◌>>◌,
  require, get_or_fail,
}
use cairnstone_v.PrivateRealm.Scope.{ScopeArg, SelectorArg, parse_role}
use cairnstone_v.PrivateRealm.State.{revoked, Connection, Grant, Home, Store}
use cairnstone_v.PrivateRealm.Authority.{
  Outcome, settle, allow, deny_ctx, is_active, is_admin, is_live, Ctx, authorize, require_admin,
  active_admin_count, save,
}

abbrev role_reason : Role → String
role_reason admin = "role_admin"
role_reason member = "role_member"

-- Whether the last active admin would step down.
abbrev pub drops_last_admin : Connection → Role → Home → Bool
drops_last_admin target role home =
    is_admin target.role && not (is_admin role) && leb (active_admin_count home) 1

unfoldable pub with_role : String → Connection → Role → Home → Home
with_role id target role home = record home {
  connections = insert id (record target { role = role }) home.connections;
}

-- `target_arg` of `setConnectionRole` and others: any value; only a text can be a key.
abbrev pub find_connection : Value → Home → Option (String × Connection)
find_connection v home = elim (as_string v) [
  | none ↦ none
  | some id ↦ elim (lookup id home.connections) [ none ↦ none | some c ↦ some (id, c) ]
]

unfoldable pub check_set_connection_role :
    ℕ → ScopeArg → Value → Value → SelectorArg → Store → Check (Store × (String × Role))
unfolding with_role
check_set_connection_role now scope_in target_arg role_arg selector s = do
  ctx ← authorize scope_in selector "set_role" s
  require_admin ctx "set_role"
  role ← get_or_fail (parse_role role_arg) (raise invalid_home_role)
  found ←
      get_or_fail (find_connection target_arg ctx.home)
        (deny_ctx ctx "set_role" "target_not_active_in_home")
  require (is_active found.1.status) (deny_ctx ctx "set_role" "target_not_active_in_home")
  require (not (drops_last_admin found.1 role ctx.home))
      (deny_ctx ctx "set_role" "last_admin_protected")
  pass (
    allow now ctx.home ctx.scope "set_role" (some (role_reason role))
        (save (with_role found.0 found.1 role ctx.home) s),
    (found.0, role),
  )

unfoldable pub set_connection_role :
    ℕ → ScopeArg → Value → Value → SelectorArg → Store → Outcome (String × Role) × Store
unfolding check_set_connection_role
set_connection_role now scope_in target_arg role_arg selector s =
    settle now (check_set_connection_role now scope_in target_arg role_arg selector s) s

pub record Changed : Type 0 where
  pub id : String
  pub changed : Bool

-- Every live grant of the connection ends: the keys that end in `|target`.
abbrev pub end_grant : ℕ → String → String × String → Grant → Grant
end_grant now target (inbox, connection) g =
    if connection == target && is_live g then record g { revoked_at = some now } else g

unfoldable pub with_revoked : ℕ → String → Connection → Home → Home
with_revoked now id target home = record home {
  connections =
      insert id (record target { status = revoked; revoked_at = some now }) home.connections;
  grants = update_all (end_grant now id) home.grants;
}

-- `targetConnectionId === undefined ? own : targetConnectionId`, which must be a text.
abbrev revoke_target : Ctx → Value → Check String
revoke_target ctx undefined = pass ctx.conn.connection_id
revoke_target ctx v = get_or_fail (as_string v) (raise invalid_connection_id)

unfoldable pub check_revoke_connection :
    ℕ → ScopeArg → Value → SelectorArg → Store → Check (Store × Changed)
unfolding with_revoked
check_revoke_connection now scope_in target_arg selector s = do
  ctx ← authorize scope_in selector "revoke_connection" s
  id ← revoke_target ctx target_arg
  if id == ctx.conn.connection_id then pass tt else require_admin ctx "revoke_connection"
  target ←
      get_or_fail (lookup id ctx.home.connections)
        (deny_ctx ctx "revoke_connection" "target_not_in_home")
  pass (
      if is_active target.status
      then (
        allow now ctx.home ctx.scope "revoke_connection" (some "revoked")
            (save (with_revoked now id target ctx.home) s),
        record { id = id; changed = true },
      )
      else (
        allow now ctx.home ctx.scope "revoke_connection" (some "already_revoked") s,
        record { id = id; changed = false },
      ))

unfoldable pub revoke_connection :
    ℕ → ScopeArg → Value → SelectorArg → Store → Outcome Changed × Store
unfolding check_revoke_connection
revoke_connection now scope_in target_arg selector s =
    settle now (check_revoke_connection now scope_in target_arg selector s) s

unfoldable pub check_resolve_home :
    ℕ → ScopeArg → SelectorArg → Store → Check (Store × (String × Role))
check_resolve_home now scope_in selector s = do
  ctx ← authorize scope_in selector "resolve_home" s
  pass (allow now ctx.home ctx.scope "resolve_home" none s, (ctx.home.home_id, ctx.conn.role))

unfoldable pub resolve_home : ℕ → ScopeArg → SelectorArg → Store → Outcome (String × Role) × Store
unfolding check_resolve_home
resolve_home now scope_in selector s = settle now (check_resolve_home now scope_in selector s) s
