-- ===== src/PrivateRealm/Grants.antt =====
-- src/private-realm/store.js: `grantInbox`, `revokeGrant`, `can`.
use cairnstone_v.Prelude.{
  ℕ, String, Option, none, some, Bool, true, false, ◌||◌, not, List, [], ◌∷◌, nat_eqb, string_eq,
  pair_eq, if◌then◌else◌,
}
use cairnstone_v.Prelude.Dict.{lookup, insert}
use cairnstone_v.Prelude.Value.{Value, undefined, null, other, bool, nat, neg, str, as_string}
use cairnstone_v.PrivateRealm.Check.{
  invalid_caps, Check, pass, deny, raise, ◌>>=◌, ◌>>◌, require, get_or_fail,
}
use cairnstone_v.PrivateRealm.Scope.{ScopeArg, SelectorArg}
use cairnstone_v.PrivateRealm.State.{Capability, read, send, ack, Inbox, Grant, Home, Store}
use cairnstone_v.PrivateRealm.Authority.{
  Outcome, ok, thrown, settle, audit_denial, allow, deny_ctx, is_active, is_private, is_live,
  authorize, require_admin, parse_capability, check_capability, save,
}
use cairnstone_v.PrivateRealm.Connections.{find_connection}

-- `caps`: no object, or the own enumerable fields of one in their order.
pub data CapsArg : Type 0 where
  no_object : CapsArg
  caps : List (String × Value) → CapsArg

-- `caps[key] === true || caps[key] === 1`
abbrev is_on : Value → Bool
is_on (bool b) = b
is_on (nat n) = nat_eqb n 1
is_on undefined = false
is_on null = false
is_on other = false
is_on (neg n) = false
is_on (str s) = false

abbrev set_capability : Capability → Bool → Grant → Grant
set_capability read b g = record g { read = b }
set_capability send b g = record g { send = b }
set_capability ack b g = record g { ack = b }

unfoldable pub read_caps : List (String × Value) → Grant → Check Grant
read_caps [] g = pass g
read_caps ((key, v) ∷ rest) g = do
  c ← get_or_fail (parse_capability (str key)) (raise invalid_caps)
  read_caps rest (set_capability c (is_on v) g)

-- The grant that `caps` asks for: at least one capability.
unfoldable pub parse_caps : ℕ → CapsArg → Check Grant
unfolding read_caps
parse_caps now no_object = raise invalid_caps
parse_caps now (caps entries) = do
  g ←
      read_caps entries
        (record { read = false; send = false; ack = false; granted_at = now; revoked_at = none })
  require (g.read || g.send || g.ack) (raise invalid_caps)
  pass g

abbrev pub find_inbox : Value → Home → Option (String × Inbox)
find_inbox v home = elim (as_string v) [
  | none ↦ none
  | some id ↦ elim (lookup id home.inboxes) [ none ↦ none | some i ↦ some (id, i) ]
]

unfoldable pub with_grant : String → String → Grant → Home → Home
with_grant inbox connection g home = record home {
  grants = insert (inbox, connection) g home.grants;
}

unfoldable pub check_grant_inbox :
    ℕ → ScopeArg → Value → Value → CapsArg → SelectorArg → Store → Check (Store × Unit {0})
unfolding with_grant
check_grant_inbox now scope_in inbox_arg target_arg caps_arg selector s = do
  ctx ← authorize scope_in selector "grant" s
  require_admin ctx "grant"
  inbox ← get_or_fail (find_inbox inbox_arg ctx.home) (deny_ctx ctx "grant" "inbox_unavailable")
  require (is_active inbox.1.status) (deny_ctx ctx "grant" "inbox_unavailable")
  require (not (is_private inbox.1.scope))
      (deny_ctx ctx "grant" "connection_private_sibling_denied")
  target ←
      get_or_fail (find_connection target_arg ctx.home)
        (deny_ctx ctx "grant" "target_not_active_in_home")
  require (is_active target.1.status) (deny_ctx ctx "grant" "target_not_active_in_home")
  g ← parse_caps now caps_arg
  pass (
    allow now ctx.home ctx.scope "grant" (some "granted")
        (save (with_grant inbox.0 target.0 g ctx.home) s),
    tt,
  )

unfoldable pub grant_inbox :
    ℕ → ScopeArg → Value → Value → CapsArg → SelectorArg → Store → Outcome (Unit {0}) × Store
unfolding check_grant_inbox
grant_inbox now scope_in inbox_arg target_arg caps_arg selector s =
    settle now (check_grant_inbox now scope_in inbox_arg target_arg caps_arg selector s) s

-- The live grant at a key whose second part may be any value.
abbrev pub find_live_grant : String → Value → Home → Option (String × Grant)
find_live_grant inbox v home = elim (as_string v) [
  | none ↦ none
  | some connection ↦ elim (lookup (inbox, connection) home.grants) [
    | none ↦ none
    | some g ↦ if is_live g then some (connection, g) else none
  ]
]

unfoldable pub check_revoke_grant :
    ℕ → ScopeArg → Value → Value → SelectorArg → Store → Check (Store × Bool)
unfolding with_grant
check_revoke_grant now scope_in inbox_arg target_arg selector s = do
  ctx ← authorize scope_in selector "revoke_grant" s
  require_admin ctx "revoke_grant"
  inbox ←
      get_or_fail (find_inbox inbox_arg ctx.home) (deny_ctx ctx "revoke_grant" "inbox_unavailable")
  require (not (is_private inbox.1.scope))
      (deny_ctx ctx "revoke_grant" "connection_private_sibling_denied")
  elim (find_live_grant inbox.0 target_arg ctx.home) [
    | none ↦ pass (allow now ctx.home ctx.scope "revoke_grant" (some "already_absent") s, false)
    | some (connection, g) ↦ pass (
      allow now ctx.home ctx.scope "revoke_grant" (some "revoked")
          (save (with_grant inbox.0 connection (record g { revoked_at = some now }) ctx.home) s),
      true,
    )
  ]

unfoldable pub revoke_grant :
    ℕ → ScopeArg → Value → Value → SelectorArg → Store → Outcome Bool × Store
unfolding check_revoke_grant
revoke_grant now scope_in inbox_arg target_arg selector s =
    settle now (check_revoke_grant now scope_in inbox_arg target_arg selector s) s

abbrev can_label : Option Capability → String
can_label (some read) = "can_read"
can_label (some send) = "can_send"
can_label (some ack) = "can_ack"
can_label none = "can_invalid"

-- What `can` checks before it answers.
unfoldable pub check_can : ScopeArg → Value → Value → SelectorArg → Store → Check (String × Inbox)
check_can scope_in inbox_arg capability_arg selector s = do
  ctx ← authorize scope_in selector (can_label (parse_capability capability_arg)) s
  check_capability ctx inbox_arg capability_arg (can_label (parse_capability capability_arg))

-- The two denials are caught and answered by `false`; their audit rows stay.
abbrev pub answer : ℕ → Check (String × Inbox) → Store → Outcome Bool × Store
answer now (pass found) s = (ok true, s)
answer now (deny d) s = (ok false, audit_denial now d s)
answer now (raise e) s = (thrown e, s)

unfoldable pub can : ℕ → ScopeArg → Value → Value → SelectorArg → Store → Outcome Bool × Store
unfolding check_can
can now scope_in inbox_arg capability_arg selector s =
    answer now (check_can scope_in inbox_arg capability_arg selector s) s
