-- ===== src/PrivateRealm/Run.antt =====
-- The Home store over time: the calls that it takes in any order, from a store with nothing in it.
pub mod Moves
pub mod Evolution
pub mod History
pub mod Forever
pub mod Isolation
use cairnstone_v.Prelude.{ℕ, String, ◌≡◌, none, [], string_eq}
use cairnstone_v.Prelude.Dict.{lookup}
use cairnstone_v.Prelude.Value.{Value}
use cairnstone_v.PrivateRealm.Check.{HomeScope, Check, pass}
use cairnstone_v.PrivateRealm.Scope.{ScopeArg, SelectorArg, assert_home_scope}
use cairnstone_v.PrivateRealm.State.{Store}
use cairnstone_v.PrivateRealm.Attach.{ensure_default_home}
use cairnstone_v.PrivateRealm.Connections.{set_connection_role, revoke_connection, resolve_home}
use cairnstone_v.PrivateRealm.Inboxes.{CreateOptions, create_inbox, list_inboxes}
use cairnstone_v.PrivateRealm.Grants.{CapsArg, grant_inbox, revoke_grant, can}
use cairnstone_v.PrivateRealm.Send.{Digest, SendOptions, Request, begin_send, commit_send}
use cairnstone_v.PrivateRealm.Mailbox.{list_inbox, read_inbox, ack_message}

-- `STORE_METHODS`; `send` is two calls, since other calls may come while its digests are awaited.
pub data Call : Type 0 where
  ensure : ℕ → String → ScopeArg → Call
  resolve : ℕ → ScopeArg → SelectorArg → Call
  set_role : ℕ → ScopeArg → Value → Value → SelectorArg → Call
  revoke : ℕ → ScopeArg → Value → SelectorArg → Call
  create : ℕ → String → ScopeArg → CreateOptions → SelectorArg → Call
  inboxes : ℕ → ScopeArg → SelectorArg → Call
  give : ℕ → ScopeArg → Value → Value → CapsArg → SelectorArg → Call
  take_back : ℕ → ScopeArg → Value → Value → SelectorArg → Call
  probe : ℕ → ScopeArg → Value → Value → SelectorArg → Call
  begin : ℕ → ScopeArg → SendOptions → SelectorArg → Call
  commit : ℕ → Request → Call
  headers : ℕ → ScopeArg → Value → Value → SelectorArg → Call
  letters : ℕ → ScopeArg → Value → Value → SelectorArg → Call
  acknowledge : ℕ → ScopeArg → Value → Value → SelectorArg → Call

unfoldable pub apply : Digest → Call → Store → Store
apply digest (ensure now minted scope_in) s = (ensure_default_home now minted scope_in s).1
apply digest (resolve now scope_in sel) s = (resolve_home now scope_in sel s).1
apply digest (set_role now scope_in target role sel) s =
    (set_connection_role now scope_in target role sel s).1
apply digest (revoke now scope_in target sel) s = (revoke_connection now scope_in target sel s).1
apply digest (create now minted scope_in o sel) s = (create_inbox now minted scope_in o sel s).1
apply digest (inboxes now scope_in sel) s = (list_inboxes now scope_in sel s).1
apply digest (give now scope_in inbox target wanted sel) s =
    (grant_inbox now scope_in inbox target wanted sel s).1
apply digest (take_back now scope_in inbox target sel) s =
    (revoke_grant now scope_in inbox target sel s).1
apply digest (probe now scope_in inbox capability sel) s =
    (can now scope_in inbox capability sel s).1
apply digest (begin now scope_in o sel) s = (begin_send now scope_in o sel s).1
apply digest (commit now r) s = (commit_send digest now r s).1
apply digest (headers now scope_in inbox limit sel) s =
    (list_inbox now scope_in inbox limit sel s).1
apply digest (letters now scope_in inbox limit sel) s =
    (read_inbox now scope_in inbox limit sel s).1
apply digest (acknowledge now scope_in inbox message sel) s =
    (ack_message now scope_in inbox message sel s).1

-- Whose call it is.
abbrev pub caller_of : Call → Check HomeScope
caller_of (ensure now minted scope_in) = assert_home_scope scope_in
caller_of (resolve now scope_in sel) = assert_home_scope scope_in
caller_of (set_role now scope_in target role sel) = assert_home_scope scope_in
caller_of (revoke now scope_in target sel) = assert_home_scope scope_in
caller_of (create now minted scope_in o sel) = assert_home_scope scope_in
caller_of (inboxes now scope_in sel) = assert_home_scope scope_in
caller_of (give now scope_in inbox target wanted sel) = assert_home_scope scope_in
caller_of (take_back now scope_in inbox target sel) = assert_home_scope scope_in
caller_of (probe now scope_in inbox capability sel) = assert_home_scope scope_in
caller_of (begin now scope_in o sel) = assert_home_scope scope_in
caller_of (commit now r) = pass r.scope
caller_of (headers now scope_in inbox limit sel) = assert_home_scope scope_in
caller_of (letters now scope_in inbox limit sel) = assert_home_scope scope_in
caller_of (acknowledge now scope_in inbox message sel) = assert_home_scope scope_in

-- `mintId` draws 12 random bytes: no Home has the id yet.
abbrev pub IsFresh : Call → Store → Type 0
IsFresh (ensure now minted scope_in) s = lookup minted s.homes ≡ none
IsFresh _ s = Unit

unfoldable pub empty_store : Store
empty_store = record { homes = []; account_index = []; connection_index = []; audit_log = [] }

-- The stores that may come after a store.
pub data Later (digest : Digest) (s : Store) : Store → Type 0 where
  here : Later digest s s
  next :
      {t : Store} → Later digest s t → (c : Call) → IsFresh c t → Later digest s (apply digest c t)

abbrev pub Reachable : Digest → Store → Type 0
Reachable digest s = Later digest empty_store s
