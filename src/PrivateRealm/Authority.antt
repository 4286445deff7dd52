-- ===== src/PrivateRealm/Authority.antt =====
-- src/private-realm/store.js: the audit log, `authorize`, `requireAdmin` and `checkCapability`.
use cairnstone_v.Prelude.{
  ℕ, String, Option, none, some, Bool, true, false, ◌&&◌, ◌||◌, not, [], ◌∷◌, ◌++◌, ◌==◌, string_eq,
  pair_eq, if◌then◌else◌,
}
use cairnstone_v.Prelude.Dict.{lookup, insert, tally}
use cairnstone_v.Prelude.Value.{Value, as_string}
use cairnstone_v.PrivateRealm.Check.{
  Role, admin, member, HomeScope, RealmError, type_error, DenyCode, scope_not_authorized,
  capability_denied, Denial, Check, pass, deny, raise, ◌>>=◌, ◌>>◌, require, get_or_fail,
}
use cairnstone_v.PrivateRealm.Scope.{
  ScopeArg, SelectorArg, assert_home_scope, assert_selector, ibx_pattern, matching,
}
use cairnstone_v.PrivateRealm.State.{
  Status, active, revoked, InboxScope, home_scope, connection_scope, agent_identity, Capability,
  read, send, ack, Connection, Inbox, Grant, Home, Verdict, AuditRow, Store,
}

-- What an operation tells its caller.
pub data Outcome (A : Type 0) : Type 0 where
  ok : A → Outcome A
  denied : DenyCode → Outcome A
  thrown : RealmError → Outcome A

audit_row : ℕ → Option String → HomeScope → String → Verdict → Option String → AuditRow
audit_row now home_id scope action outcome reason = record {
  home_id = home_id;
  connection_id = scope.connection_id;
  principal_id = scope.principal_id;
  action = action;
  outcome = outcome;
  reason = reason;
  created_at = now;
}

unfoldable pub audit :
    ℕ → Option String → HomeScope → String → Verdict → Option String → Store → Store
unfolding audit_row
audit now home_id scope action outcome reason s = record s {
  audit_log = s.audit_log ++ audit_row now home_id scope action outcome reason ∷ [];
}

-- The audit row of a success.
abbrev pub allow : ℕ → Home → HomeScope → String → Option String → Store → Store
allow now home scope action reason = audit now (some home.home_id) scope action Verdict.allow reason

unfoldable pub audit_denial : ℕ → Denial → Store → Store
audit_denial now d = audit now d.home_id d.scope d.action Verdict.deny (some d.reason)

-- An operation runs its checks; a denial leaves its audit row and nothing else.
unfoldable pub settle : {A : Type 0} → ℕ → Check (Store × A) → Store → Outcome A × Store
settle now (pass (s', a)) s = (ok a, s')
settle now (deny d) s = (denied d.code, audit_denial now d s)
settle now (raise e) s = (thrown e, s)

abbrev pub deny_auth : {A : Type 0} → Option String → HomeScope → String → String → Check A
deny_auth home_id scope action reason = deny (record {
  home_id = home_id;
  scope = scope;
  action = action;
  reason = reason;
  code = scope_not_authorized;
})

abbrev pub deny_capability : {A : Type 0} → String → HomeScope → String → String → Check A
deny_capability home_id scope action reason = deny (record {
  home_id = some home_id;
  scope = scope;
  action = action;
  reason = reason;
  code = capability_denied;
})

abbrev pub is_active : Status → Bool
is_active active = true
is_active revoked = false

abbrev pub is_admin : Role → Bool
is_admin admin = true
is_admin member = false

abbrev pub is_private : InboxScope → Bool
is_private connection_scope = true
is_private home_scope = false
is_private agent_identity = false

abbrev pub selects : Option String → String → Bool
selects none id = true
selects (some h) id = h == id

abbrev pub owned_by : Option String → String → Bool
owned_by none id = false
owned_by (some c) id = c == id

abbrev pub is_live : Grant → Bool
is_live g = elim (g.revoked_at) [ none ↦ true | some t ↦ false ]

pub record Ctx : Type 0 where
  pub scope : HomeScope
  pub home : Home
  pub conn : Connection

unfoldable pub authorize_scope : HomeScope → Option String → String → Store → Check Ctx
authorize_scope scope selector action s = do
  id ←
      get_or_fail (lookup scope.connection_id s.connection_index)
        (deny_auth none scope action "connection_unknown")
  home ← get_or_fail (lookup id s.homes) (raise type_error)
  require (home.account_id == scope.account_id && home.tenant_id == scope.tenant_id)
      (deny_auth (some id) scope action "account_or_tenant_mismatch")
  conn ← get_or_fail (lookup scope.connection_id home.connections) (raise type_error)
  require (conn.principal_id == scope.principal_id)
      (deny_auth (some id) scope action "principal_mismatch")
  require (is_active home.status) (deny_auth (some id) scope action "home_inactive")
  require (is_active conn.status) (deny_auth (some id) scope action "connection_revoked")
  require (selects selector id) (deny_auth (some id) scope action "selector_mismatch")
  pass (record { scope = scope; home = home; conn = conn })

unfoldable pub authorize : ScopeArg → SelectorArg → String → Store → Check Ctx
authorize scope_in selector_in action s = do
  scope ← assert_home_scope scope_in
  selector ← assert_selector selector_in
  authorize_scope scope selector action s

abbrev pub deny_ctx : {A : Type 0} → Ctx → String → String → Check A
deny_ctx ctx action reason = deny_capability ctx.home.home_id ctx.scope action reason

unfoldable pub require_admin : Ctx → String → Check (Unit {0})
require_admin ctx action = require (is_admin ctx.conn.role) (deny_ctx ctx action "admin_required")

abbrev pub is_active_admin : Connection → Bool
is_active_admin c = is_active c.status && is_admin c.role

abbrev pub active_admin_count : Home → ℕ
active_admin_count home = tally is_active_admin home.connections

abbrev pub parse_capability : Value → Option Capability
parse_capability v = elim (as_string v) [
  | none ↦ none
  | some s ↦
      if s == "read"
      then some read
      else if s == "send"
      then some send
      else if s == "ack"
      then some ack
      else none
]

-- `grant[capability] === 1`
abbrev pub allows : Grant → Capability → Bool
allows g read = g.read
allows g send = g.send
allows g ack = g.ack

abbrev grant_reason : Bool → String
grant_reason true = "capability_not_granted"
grant_reason false = "no_grant"

-- The inbox with its id, which is known to be a text by then.
unfoldable pub check_capability : Ctx → Value → Value → String → Check (String × Inbox)
check_capability ctx inbox_arg capability_arg action = do
  capability ←
      get_or_fail (parse_capability capability_arg) (deny_ctx ctx action "unknown_capability")
  inbox_id ← get_or_fail (matching ibx_pattern inbox_arg) (deny_ctx ctx action "invalid_inbox_id")
  inbox ← get_or_fail (lookup inbox_id ctx.home.inboxes) (deny_ctx ctx action "inbox_unavailable")
  require (is_active inbox.status) (deny_ctx ctx action "inbox_unavailable")
  require (not (is_private inbox.scope) || owned_by inbox.owner ctx.conn.connection_id)
      (deny_ctx ctx action "connection_private_sibling_denied")
  grant ←
      get_or_fail (lookup (inbox_id, ctx.conn.connection_id) ctx.home.grants)
        (deny_ctx ctx action (grant_reason false))
  require (is_live grant && allows grant capability)
      (deny_ctx ctx action (grant_reason (is_live grant)))
  pass (inbox_id, inbox)

-- `homes.set(home.home_id, home)`: a write through the Home that `authorize` found.
unfoldable pub save : Home → Store → Store
save home s = record s { homes = insert home.home_id home s.homes }
