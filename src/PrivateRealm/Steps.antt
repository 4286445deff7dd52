-- ===== src/PrivateRealm/Steps.antt =====
-- The transitions of the Home store as relations: what one operation may do to a Home and to the
-- store, with the guards under which it does it.
pub mod Resolved
pub mod Acted
pub mod Calls
pub mod Mail
use cairnstone_v.Prelude.{
  ℕ, String, ◌≡◌, Option, none, some, Bool, true, false, ◌&&◌, List, ◌==◌, string_eq, pair_eq, All,
}
use cairnstone_v.Prelude.Dict.{lookup, insert}
use cairnstone_v.PrivateRealm.Check.{Role, HomeScope, pass}
use cairnstone_v.PrivateRealm.State.{
  Connection, Inbox, Grant, Message, Delivery, Home, Verdict, Store,
}
use cairnstone_v.PrivateRealm.Authority.{
  is_active, is_private, is_live, active_admin_count, audit, allow, save,
}
use cairnstone_v.PrivateRealm.Attach.{has_principal, attach, new_home}
use cairnstone_v.PrivateRealm.Connections.{drops_last_admin, with_role, with_revoked}
use cairnstone_v.PrivateRealm.Inboxes.{CreateRequest, with_inbox}
use cairnstone_v.PrivateRealm.Grants.{with_grant}
use cairnstone_v.PrivateRealm.Send.{with_message}
use cairnstone_v.PrivateRealm.Mailbox.{Reading, read_entries, with_ack}

-- An active inbox that is there.
pub record IsOpen (home : Home) (id : String) : Type 0 where
  pub inbox : Inbox
  pub found : lookup id home.inboxes ≡ some inbox

-- What one operation may do to the Home of its caller, at the time `now`.
pub data HomeStep (now : ℕ) (home : Home) : Home → Type 0 where
  role_change :
      (id : String) (c : Connection) (role : Role)
      → lookup id home.connections ≡ some c
      → is_active c.status ≡ true
      → drops_last_admin c role home ≡ false
      → HomeStep now home (with_role id c role home)
  revocation :
      (id : String) (c : Connection)
      → lookup id home.connections ≡ some c
      → is_active c.status ≡ true
      → HomeStep now home (with_revoked now id c home)
  creation :
      (id : String) (r : CreateRequest) (connection : String) (c : Connection)
      → lookup id home.inboxes ≡ none
      → lookup connection home.connections ≡ some c
      → is_active c.status ≡ true
      → HomeStep now home (with_inbox now id r c.connection_id home)
  granting :
      (id : String) (inbox : Inbox) (connection : String) (c : Connection) (g : Grant)
      → lookup id home.inboxes ≡ some inbox
      → is_private inbox.scope ≡ false
      → lookup connection home.connections ≡ some c
      → is_active c.status ≡ true
      → HomeStep now home (with_grant id connection g home)
  ending :
      (id connection : String) (g : Grant)
      → HomeStep now home (with_grant id connection (record g { revoked_at = some now }) home)
  delivery :
      (m : Message) (targets : List String)
      → lookup m.message_id home.messages ≡ none
      → All (IsOpen home) targets
      → HomeStep now home (with_message now m targets home)
  reading :
      (inbox : String) (room : ℕ) (r : Reading)
      → read_entries now home.messages inbox room home.deliveries ≡ pass r
      → HomeStep now home (record home { deliveries = r.deliveries })
  acking :
      (key : String × String) (d : Delivery)
      → lookup key home.deliveries ≡ some d
      → d.acked_at ≡ none
      → HomeStep now home (with_ack now key d home)

-- What one operation of the connection `c` may do to the store.
pub data Step (c : String) (s : Store) : Store → Type 0 where
  noted :
      (now : ℕ) (home_id : Option String) (scope : HomeScope) (action : String) (outcome : Verdict)
      (reason : Option String)
      → Step c s (audit now home_id scope action outcome reason s)
  touched :
      (now : ℕ) (id : String) (home home' : Home) (scope : HomeScope) (action : String)
      (reason : Option String)
      → lookup c s.connection_index ≡ some id
      → lookup id s.homes ≡ some home
      → HomeStep now home home'
      → Step c s (allow now home scope action reason (save home' s))
  attached :
      (now : ℕ) (id : String) (home : Home) (scope : HomeScope) (role : Role)
      (reason : Option String)
      → scope.connection_id ≡ c
      → lookup c s.connection_index ≡ none
      → lookup scope.account_id s.account_index ≡ some id
      → lookup id s.homes ≡ some home
      → home.tenant_id ≡ scope.tenant_id
      → has_principal scope.principal_id home.connections ≡ false
      → Step c s (
          allow now home scope "ensure_home" reason (record (save (attach now scope role home) s) {
            connection_index = insert scope.connection_id home.home_id s.connection_index;
          }))
  founded :
      (now : ℕ) (minted : String) (scope : HomeScope) (reason : Option String)
      → scope.connection_id ≡ c
      → lookup c s.connection_index ≡ none
      → lookup scope.account_id s.account_index ≡ none
      → lookup minted s.homes ≡ none
      → Step c s (
          allow now (new_home now minted scope) scope "ensure_home" reason (record s {
            homes =
                insert minted
                  (attach now scope Role.admin (new_home now minted scope))
                  (insert minted (new_home now minted scope) s.homes);
            account_index = insert scope.account_id minted s.account_index;
            connection_index = insert scope.connection_id minted s.connection_index;
          }))
