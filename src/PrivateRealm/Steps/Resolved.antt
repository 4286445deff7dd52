-- ===== src/PrivateRealm/Steps/Resolved.antt =====
-- What `authorize` and `checkCapability` have established when they pass.
use cairnstone_v.Prelude.{
  String, ◌≡◌, Option, some, true, ◌||◌, not, string_eq, pair_eq, arith, eq_iff, Option-cases, inl,
  inr,
}
use cairnstone_v.Prelude.Dict.{lookup}
use cairnstone_v.Prelude.Value.{Value}
use cairnstone_v.PrivateRealm.Check.{HomeScope, pass, bind-eq-pass, ◌>>=◌}
use cairnstone_v.PrivateRealm.Scope.{
  ScopeArg, SelectorArg, assert_home_scope, assert_selector, ibx_pattern, matching,
}
use cairnstone_v.PrivateRealm.State.{Capability, Inbox, Grant, Store}
use cairnstone_v.PrivateRealm.Authority.{
  is_active, is_private, owned_by, is_live, allows, selects, Ctx, authorize_scope, authorize,
  parse_capability, check_capability, require_admin, is_admin,
}

pub record Resolved (scope : HomeScope) (selector : Option String) (s : Store) (ctx : Ctx)
    : Type 0 where
  pub id : String
  pub indexed : lookup scope.connection_id s.connection_index ≡ some id
  pub found : lookup id s.homes ≡ some ctx.home
  pub connected : lookup scope.connection_id ctx.home.connections ≡ some ctx.conn
  pub scoped : ctx.scope ≡ scope
  pub account : ctx.home.account_id ≡ scope.account_id
  pub tenant : ctx.home.tenant_id ≡ scope.tenant_id
  pub principal : ctx.conn.principal_id ≡ scope.principal_id
  pub home_active : is_active ctx.home.status ≡ true
  pub conn_active : is_active ctx.conn.status ≡ true
  pub selected : selects selector id ≡ true

pub authorize_scope-Resolved :
    (scope : HomeScope) (selector : Option String) (action : String) (s : Store) (ctx : Ctx)
    → authorize_scope scope selector action s ≡ pass ctx
    → Resolved scope selector s ctx
unfolding authorize_scope ◌>>=◌
authorize_scope-Resolved scope selector action s ctx h =
    elim (Option-cases (lookup scope.connection_id s.connection_index)) [
      | inl e ↦ absurd (ground arith)
      | inr (i, e) ↦ elim (Option-cases (lookup i s.homes)) [
        | inl e2 ↦ absurd (ground arith)
        | inr (hm, e2) ↦ record {
          id = i;
          indexed = e;
          found = ground arith;
          connected = ground arith;
          scoped = ground arith;
          account = ground (arith, eq_iff hm.account_id scope.account_id);
          tenant = ground (arith, eq_iff hm.tenant_id scope.tenant_id);
          principal = ground (arith, eq_iff ctx.conn.principal_id scope.principal_id);
          home_active = ground arith;
          conn_active = ground arith;
          selected = ground arith;
        }
      ]
    ]

pub authorize-Resolved :
    (scope_in : ScopeArg) (selector_in : SelectorArg) (action : String) (s : Store) (ctx : Ctx)
    → authorize scope_in selector_in action s ≡ pass ctx
    → (scope : HomeScope) × (selector : Option String) × (assert_home_scope scope_in ≡ pass scope)
      × (assert_selector selector_in ≡ pass selector)
      × Resolved scope selector s ctx
unfolding authorize
authorize-Resolved scope_in selector_in action s ctx h =
    let (scope, e1, h1) = bind-eq-pass _ _ h in
    let (selector, e2, h2) = bind-eq-pass _ _ h1 in
    (scope, selector, e1, e2, authorize_scope-Resolved scope selector action s ctx h2)

-- A connection whose Home, account and selector agree passes.
pub authorize_scope_complete :
    (scope : HomeScope) (selector : Option String) (action : String) (s : Store) (ctx : Ctx)
    → Resolved scope selector s ctx
    → authorize_scope scope selector action s ≡ pass ctx
unfolding authorize_scope ◌>>=◌
authorize_scope_complete scope selector action s ctx r = ground (
  arith,
  eq_iff ctx.home.account_id scope.account_id,
  eq_iff ctx.home.tenant_id scope.tenant_id,
  eq_iff ctx.conn.principal_id scope.principal_id,
)

-- What a live grant of a capability on a reachable inbox is.
pub record Permitted (ctx : Ctx) (capability : Capability) (id : String) (inbox : Inbox)
    : Type 0 where
  pub found : lookup id ctx.home.inboxes ≡ some inbox
  pub active : is_active inbox.status ≡ true
  pub reachable :
      (not (is_private inbox.scope) || owned_by inbox.owner ctx.conn.connection_id) ≡ true
  pub grant : Grant
  pub granted : lookup (id, ctx.conn.connection_id) ctx.home.grants ≡ some grant
  pub live : is_live grant ≡ true
  pub allowed : allows grant capability ≡ true

pub check_capability-Permitted :
    (ctx : Ctx) (inbox_arg capability_arg : Value) (action : String) (id : String) (inbox : Inbox)
    → check_capability ctx inbox_arg capability_arg action ≡ pass (id, inbox)
    → (c : Capability) × (parse_capability capability_arg ≡ some c)
      × (matching ibx_pattern inbox_arg ≡ some id)
      × Permitted ctx c id inbox
unfolding check_capability
check_capability-Permitted ctx inbox_arg capability_arg action id inbox h =
    let (c, e1, h1) = bind-eq-pass _ _ h in
    let (i, e2, h2) = bind-eq-pass _ _ h1 in
    let (ib, e3, h3) = bind-eq-pass _ _ h2 in
    let (a4, e4, h4) = bind-eq-pass _ _ h3 in
    let (a5, e5, h5) = bind-eq-pass _ _ h4 in
    let (g, e6, h6) = bind-eq-pass _ _ h5 in
    let (a7, e7, h7) = bind-eq-pass _ _ h6 in
    (
      c,
      ground arith,
      ground arith,
      record {
        found = ground arith;
        active = ground arith;
        reachable = ground arith;
        grant = g;
        granted = ground arith;
        live = ground arith;
        allowed = ground arith;
      },
    )

pub check_capability_complete :
    (ctx : Ctx) (inbox_arg capability_arg : Value) (action : String) (c : Capability) (id : String)
    (inbox : Inbox)
    → parse_capability capability_arg ≡ some c
    → matching ibx_pattern inbox_arg ≡ some id
    → Permitted ctx c id inbox
    → check_capability ctx inbox_arg capability_arg action ≡ pass (id, inbox)
unfolding check_capability ◌>>=◌
check_capability_complete ctx inbox_arg capability_arg action c id inbox e m p =
    rw (e, m) (ground arith)

pub require_admin-pass :
    (ctx : Ctx) (action : String) (u : Unit {0})
    → require_admin ctx action ≡ pass u
    → is_admin ctx.conn.role ≡ true
unfolding require_admin
require_admin-pass ctx action u h = ground arith
