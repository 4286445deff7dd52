-- ===== src/PrivateRealm/Inboxes.antt =====
-- src/private-realm/store.js: `createInbox`, `listInboxes`.
use cairnstone_v.Prelude.{
  ℕ, String, Option, none, some, Bool, true, false, ◌&&◌, ◌||◌, not, List, [], ◌∷◌, ◌==◌, leb,
  string_eq, pair_eq, if◌then◌else◌,
}
use cairnstone_v.Prelude.Dict.{lookup, insert, values}
use cairnstone_v.Prelude.Text.{js_length}
use cairnstone_v.Prelude.Value.{Value, undefined, bool, str, as_string, as_bool, or_default}
use cairnstone_v.PrivateRealm.Check.{
  invalid_inbox_scope, invalid_options, invalid_plane, invalid_label, invalid_inbox_id, Check, pass,
  raise, ◌>>=◌, ◌>>◌, require, get_or_fail,
}
use cairnstone_v.PrivateRealm.Scope.{ScopeArg, SelectorArg, ibx_pattern, matching}
use cairnstone_v.PrivateRealm.State.{
  active, InboxScope, home_scope, connection_scope, agent_identity, Plane, chat, work,
  notifications, control, Inbox, Grant, Home, Store,
}
use cairnstone_v.PrivateRealm.Authority.{
  Outcome, settle, allow, deny_ctx, is_active, is_admin, is_private, owned_by, is_live, Ctx,
  authorize, require_admin, save,
}

abbrev parse_inbox_scope : Value → Option InboxScope
parse_inbox_scope v = elim (as_string v) [
  | none ↦ none
  | some s ↦
      if s == "home"
      then some home_scope
      else if s == "connection"
      then some connection_scope
      else if s == "agent_identity"
      then some agent_identity
      else none
]

abbrev parse_plane : Value → Option Plane
parse_plane v = elim (as_string v) [
  | none ↦ none
  | some s ↦
      if s == "chat"
      then some chat
      else if s == "work"
      then some work
      else if s == "notifications"
      then some notifications
      else if s == "control"
      then some control
      else none
]

-- `opts` of `createInbox`; a field that is not given is `undefined`.
pub record CreateOptions : Type 0 where
  pub scope : Value
  pub plane : Value
  pub label : Value
  pub inbox_id : Value
  pub grant_to_creator : Value

pub record CreateRequest : Type 0 where
  pub scope : InboxScope
  pub plane : Plane
  pub label : String
  pub inbox_id : Option String
  pub grant_to_creator : Bool

abbrev pub max_label_chars : ℕ
max_label_chars = 120

abbrev short_label : String → Option String
short_label s = if leb (js_length s) max_label_chars then some s else none

abbrev parse_label : Value → Option String
parse_label v = elim (as_string v) [ none ↦ none | some s ↦ short_label s ]

parse_inbox_id : Value → Check (Option String)
parse_inbox_id undefined = pass none
parse_inbox_id v = do
  id ← get_or_fail (matching ibx_pattern v) (raise invalid_inbox_id)
  pass (some id)

unfoldable pub check_create_options : CreateOptions → Check CreateRequest
unfolding parse_inbox_id
check_create_options o = do
  scope ← get_or_fail (parse_inbox_scope o.scope) (raise invalid_inbox_scope)
  to_creator ←
      get_or_fail (as_bool (or_default o.grant_to_creator (bool false))) (raise invalid_options)
  require (not (to_creator && is_private scope)) (raise invalid_options)
  plane ← get_or_fail (parse_plane (or_default o.plane (str "chat"))) (raise invalid_plane)
  label ← get_or_fail (parse_label (or_default o.label (str ""))) (raise invalid_label)
  inbox_id ← parse_inbox_id o.inbox_id
  pass (record {
    scope = scope;
    plane = plane;
    label = label;
    inbox_id = inbox_id;
    grant_to_creator = to_creator;
  })

abbrev pub id_or : Option String → String → String
id_or (some id) minted = id
id_or none minted = minted

-- The owner of an inbox of this scope that the connection creates.
abbrev pub owner_for : InboxScope → String → Option String
owner_for connection_scope connection = some connection
owner_for home_scope connection = none
owner_for agent_identity connection = none

abbrev same_scope : InboxScope → InboxScope → Bool
same_scope home_scope home_scope = true
same_scope connection_scope connection_scope = true
same_scope agent_identity agent_identity = true
same_scope _ _ = false

abbrev same_plane : Plane → Plane → Bool
same_plane chat chat = true
same_plane work work = true
same_plane notifications notifications = true
same_plane control control = true
same_plane _ _ = false

abbrev same_owner : Option String → Option String → Bool
same_owner none none = true
same_owner (some a) (some b) = a == b
same_owner _ _ = false

unfoldable pub full_grant : ℕ → Grant
full_grant now = record {
  read = true;
  send = true;
  ack = true;
  granted_at = now;
  revoked_at = none;
}

-- The inbox that a request creates, and the grants with that of its owner or creator.
unfoldable pub new_inbox : ℕ → String → CreateRequest → String → Inbox
new_inbox now id r connection = record {
  inbox_id = id;
  scope = r.scope;
  plane = r.plane;
  owner = owner_for r.scope connection;
  label = r.label;
  status = active;
  created_at = now;
}

unfoldable pub with_inbox : ℕ → String → CreateRequest → String → Home → Home
unfolding full_grant new_inbox
with_inbox now id r connection home = record home {
  inboxes = insert id (new_inbox now id r connection) home.inboxes;
  grants =
      if is_private r.scope || r.grant_to_creator
      then insert (id, connection) (full_grant now) home.grants
      else home.grants;
}

pub record Created : Type 0 where
  pub inbox_id : String
  pub created : Bool

unfoldable pub place_inbox : ℕ → String → CreateRequest → Ctx → Store → Check (Store × Created)
unfolding with_inbox
place_inbox now id r ctx s = elim (lookup id ctx.home.inboxes) [
  | some existing ↦ do
    require
        (same_scope existing.scope r.scope
          && same_plane existing.plane r.plane
          && same_owner existing.owner (owner_for r.scope ctx.conn.connection_id))
        (deny_ctx ctx "create_inbox" "inbox_conflict")
    pass (
      allow now ctx.home ctx.scope "create_inbox" (some "idempotent") s,
      record { inbox_id = id; created = false },
    )
  | none ↦ pass (
    allow now ctx.home ctx.scope "create_inbox" (some "created")
        (save (with_inbox now id r ctx.conn.connection_id ctx.home) s),
    record { inbox_id = id; created = true },
  )
]

-- `minted` is the id that `mintId("ibx", 10)` gives, if it is called.
unfoldable pub check_create_inbox :
    ℕ → String → ScopeArg → CreateOptions → SelectorArg → Store → Check (Store × Created)
unfolding place_inbox
check_create_inbox now minted scope_in opts selector s = do
  ctx ← authorize scope_in selector "create_inbox" s
  r ← check_create_options opts
  if is_private r.scope then pass tt else require_admin ctx "create_inbox"
  place_inbox now (id_or r.inbox_id minted) r ctx s

unfoldable pub create_inbox :
    ℕ → String → ScopeArg → CreateOptions → SelectorArg → Store → Outcome Created × Store
unfolding check_create_inbox
create_inbox now minted scope_in opts selector s =
    settle now (check_create_inbox now minted scope_in opts selector s) s

pub record Listed : Type 0 where
  pub inbox_id : String
  pub scope : InboxScope
  pub plane : Plane
  pub label : String
  pub granted : Bool

-- Whether the connection holds a live grant on the inbox.
abbrev pub is_granted : Ctx → Inbox → Bool
is_granted ctx inbox = elim (lookup (inbox.inbox_id, ctx.conn.connection_id) ctx.home.grants) [
  | none ↦ false
  | some g ↦ is_live g
]

abbrev pub is_listed : Ctx → Inbox → Bool
is_listed ctx inbox =
    is_active inbox.status
    && (not (is_private inbox.scope) || owned_by inbox.owner ctx.conn.connection_id)
    && (is_granted ctx inbox || (is_admin ctx.conn.role && not (is_private inbox.scope)))

unfoldable pub list_from : Ctx → List Inbox → List Listed
list_from ctx [] = []
list_from ctx (inbox ∷ rest) =
    let entry : Listed = record {
      inbox_id = inbox.inbox_id;
      scope = inbox.scope;
      plane = inbox.plane;
      label = inbox.label;
      granted = is_granted ctx inbox;
    } in
    if is_listed ctx inbox then entry ∷ list_from ctx rest else list_from ctx rest

unfoldable pub check_list_inboxes : ℕ → ScopeArg → SelectorArg → Store → Check (Store × List Listed)
check_list_inboxes now scope_in selector s = do
  ctx ← authorize scope_in selector "list_inboxes" s
  pass (allow now ctx.home ctx.scope "list_inboxes" none s, list_from ctx (values ctx.home.inboxes))

unfoldable pub list_inboxes : ℕ → ScopeArg → SelectorArg → Store → Outcome (List Listed) × Store
unfolding check_list_inboxes
list_inboxes now scope_in selector s = settle now (check_list_inboxes now scope_in selector s) s
