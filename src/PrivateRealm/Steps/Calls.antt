-- ===== src/PrivateRealm/Steps/Calls.antt =====
-- Each operation on connections, inboxes and grants that succeeds is one step of its caller.
use cairnstone_v.Prelude.{
  ℕ, String, ◌≡◌, refl, subst, none, some, Bool, string_eq, pair_eq, arith, eq_iff, Option-cases,
  Bool-cases, inl, inr, List,
}
use cairnstone_v.Prelude.Dict.{lookup}
use cairnstone_v.Prelude.Value.{Value}
use cairnstone_v.PrivateRealm.Check.{Role, HomeScope, pass, bind-eq-pass}
use cairnstone_v.PrivateRealm.Scope.{ScopeArg, SelectorArg, assert_home_scope}
use cairnstone_v.PrivateRealm.State.{Verdict, Store}
use cairnstone_v.PrivateRealm.Authority.{is_active, save}
use cairnstone_v.PrivateRealm.Attach.{
  check_ensure_default_home, Ensured, ensure_known, ensure_existing, ensure_created, finish_attach,
  new_home, ensure_unknown,
}
use cairnstone_v.PrivateRealm.Connections.{
  check_set_connection_role, check_revoke_connection, check_resolve_home, Changed, with_role,
  with_revoked,
}
use cairnstone_v.PrivateRealm.Inboxes.{
  CreateOptions, Created, Listed, place_inbox, with_inbox, id_or, check_create_inbox,
  check_list_inboxes,
}
use cairnstone_v.PrivateRealm.Grants.{
  CapsArg, with_grant, check_grant_inbox, check_revoke_grant, find_live_grant,
}
use cairnstone_v.PrivateRealm.Steps.{
  Step, noted, role_change, revocation, creation, granting, ending, attached, founded,
}
use cairnstone_v.PrivateRealm.Steps.Resolved.{authorize-Resolved}
use cairnstone_v.PrivateRealm.Steps.Acted.{Acted, pass-fst, Acted-touched, Acted-noted}

pub set_role-Acted :
    (now : ℕ) (scope_in : ScopeArg) (target role : Value) (selector : SelectorArg) (s s' : Store)
    (a : String × Role)
    → check_set_connection_role now scope_in target role selector s ≡ pass (s', a)
    → Acted scope_in s s'
unfolding check_set_connection_role with_role
set_role-Acted now scope_in target role selector s s' a h =
    let (ctx, e1, h1) = bind-eq-pass _ _ h in
    let (_, e2, h2) = bind-eq-pass _ _ h1 in
    let (ro, e3, h3) = bind-eq-pass _ _ h2 in
    let (found, e4, h4) = bind-eq-pass _ _ h3 in
    let (_, e5, h5) = bind-eq-pass _ _ h4 in
    let (_, e6, h6) = bind-eq-pass _ _ h5 in
    subst (Acted scope_in s) (pass-fst h6) (
      Acted-touched _ _ e1 now _
        (role_change found.0 found.1 ro (ground arith) (ground arith) (ground arith)))

pub revoke_connection-Acted :
    (now : ℕ) (scope_in : ScopeArg) (target : Value) (selector : SelectorArg) (s s' : Store)
    (a : Changed)
    → check_revoke_connection now scope_in target selector s ≡ pass (s', a)
    → Acted scope_in s s'
unfolding check_revoke_connection with_revoked
revoke_connection-Acted now scope_in target selector s s' a h =
    let (ctx, e1, h1) = bind-eq-pass _ _ h in
    let (id, e2, h2) = bind-eq-pass _ _ h1 in
    let (_, e3, h3) = bind-eq-pass _ _ h2 in
    let (c, e4, h4) = bind-eq-pass _ _ h3 in
    elim (Bool-cases (is_active c.status)) [
      | inl t ↦
          subst (Acted scope_in s) (pass-fst (rw t at h4))
            (Acted-touched _ _ e1 now _ (revocation id c (ground arith) t))
      | inr f ↦ subst (Acted scope_in s) (pass-fst (rw f at h4)) (Acted-noted _ _ e1 now _)
    ]

pub resolve_home-Acted :
    (now : ℕ) (scope_in : ScopeArg) (selector : SelectorArg) (s s' : Store) (a : String × Role)
    → check_resolve_home now scope_in selector s ≡ pass (s', a)
    → Acted scope_in s s'
unfolding check_resolve_home
resolve_home-Acted now scope_in selector s s' a h =
    let (ctx, e1, h1) = bind-eq-pass _ _ h in
    subst (Acted scope_in s) (pass-fst h1) (Acted-noted _ _ e1 now _)

pub list_inboxes-Acted :
    (now : ℕ) (scope_in : ScopeArg) (selector : SelectorArg) (s s' : Store) (a : List Listed)
    → check_list_inboxes now scope_in selector s ≡ pass (s', a)
    → Acted scope_in s s'
unfolding check_list_inboxes
list_inboxes-Acted now scope_in selector s s' a h =
    let (ctx, e1, h1) = bind-eq-pass _ _ h in
    subst (Acted scope_in s) (pass-fst h1) (Acted-noted _ _ e1 now _)

pub create_inbox-Acted :
    (now : ℕ) (minted : String) (scope_in : ScopeArg) (o : CreateOptions) (selector : SelectorArg)
    (s s' : Store) (a : Created)
    → check_create_inbox now minted scope_in o selector s ≡ pass (s', a)
    → Acted scope_in s s'
unfolding check_create_inbox place_inbox with_inbox
create_inbox-Acted now minted scope_in o selector s s' a h =
    let (ctx, e1, h1) = bind-eq-pass _ _ h in
    let (r, e2, h2) = bind-eq-pass _ _ h1 in
    let (_, e3, h3) = bind-eq-pass _ _ h2 in
    let (scope, sel, e, _, res) = authorize-Resolved _ _ _ _ _ e1 in
    elim (Option-cases (lookup (id_or r.inbox_id minted) ctx.home.inboxes)) [
      | inl n ↦ subst (Acted scope_in s) (pass-fst (rw (n, place_inbox) at h3)) (
          Acted-touched _ _ e1 now _ (
            creation (id_or r.inbox_id minted) r scope.connection_id ctx.conn n res.connected
              res.conn_active))
      | inr (i, f) ↦
          let (_, _, h5) = bind-eq-pass _ _ (rw (f, place_inbox) at h3) in
          subst (Acted scope_in s) (pass-fst h5) (Acted-noted _ _ e1 now _)
    ]

pub grant_inbox-Acted :
    (now : ℕ) (scope_in : ScopeArg) (inbox target : Value) (wanted : CapsArg)
    (selector : SelectorArg) (s s' : Store) (a : Unit {0})
    → check_grant_inbox now scope_in inbox target wanted selector s ≡ pass (s', a)
    → Acted scope_in s s'
unfolding check_grant_inbox with_grant
grant_inbox-Acted now scope_in inbox target wanted selector s s' a h =
    let (ctx, e1, h1) = bind-eq-pass _ _ h in
    let (_, e2, h2) = bind-eq-pass _ _ h1 in
    let (ib, e3, h3) = bind-eq-pass _ _ h2 in
    let (_, e4, h4) = bind-eq-pass _ _ h3 in
    let (_, e5, h5) = bind-eq-pass _ _ h4 in
    let (c, e6, h6) = bind-eq-pass _ _ h5 in
    let (_, e7, h7) = bind-eq-pass _ _ h6 in
    let (g, e8, h8) = bind-eq-pass _ _ h7 in
    subst (Acted scope_in s) (pass-fst h8) (
      Acted-touched _ _ e1 now _
        (granting ib.0 ib.1 c.0 c.1 g (ground arith) (ground arith) (ground arith) (ground arith)))

pub revoke_grant-Acted :
    (now : ℕ) (scope_in : ScopeArg) (inbox target : Value) (selector : SelectorArg) (s s' : Store)
    (a : Bool)
    → check_revoke_grant now scope_in inbox target selector s ≡ pass (s', a)
    → Acted scope_in s s'
unfolding check_revoke_grant with_grant
revoke_grant-Acted now scope_in inbox target selector s s' a h =
    let (ctx, e1, h1) = bind-eq-pass _ _ h in
    let (_, e2, h2) = bind-eq-pass _ _ h1 in
    let (ib, e3, h3) = bind-eq-pass _ _ h2 in
    let (_, e4, h4) = bind-eq-pass _ _ h3 in
    elim (Option-cases (find_live_grant ib.0 target ctx.home)) [
      | inl n ↦ subst (Acted scope_in s) (pass-fst (rw n at h4)) (Acted-noted _ _ e1 now _)
      | inr (found, f) ↦
          subst (Acted scope_in s) (pass-fst (rw f at h4))
            (Acted-touched _ _ e1 now _ (ending ib.0 found.0 found.1))
    ]

ensure_known-Acted :
    (now : ℕ) (scope_in : ScopeArg) (scope : HomeScope) (id : String) (s s' : Store) (a : Ensured)
    → assert_home_scope scope_in ≡ pass scope
    → ensure_known now scope id s ≡ pass (s', a)
    → Acted scope_in s s'
unfolding ensure_known
ensure_known-Acted now scope_in scope id s s' a e h =
    let (home, e1, h1) = bind-eq-pass _ _ h in
    let (_, e2, h2) = bind-eq-pass _ _ h1 in
    let (c, e3, h3) = bind-eq-pass _ _ h2 in
    let (_, e4, h4) = bind-eq-pass _ _ h3 in
    let (_, e5, h5) = bind-eq-pass _ _ h4 in
    subst (Acted scope_in s) (pass-fst h5) (record {
      scope = scope;
      verified = e;
      step = noted now (some home.home_id) scope "ensure_home" Verdict.allow (some "idempotent");
    })

module _ (now : ℕ) (minted : String) (scope : HomeScope) (s : Store)
    (unknown : lookup scope.connection_id s.connection_index ≡ none) where
  ensure_existing-Step :
      (id : String) (s' : Store) (a : Ensured)
      → lookup scope.account_id s.account_index ≡ some id
      → ensure_existing now scope id s ≡ pass (s', a)
      → Step scope.connection_id s s'
  unfolding ensure_existing finish_attach
  ensure_existing-Step id s' a acc h =
      let (home, e1, h1) = bind-eq-pass _ _ h in
      let (_, e2, h2) = bind-eq-pass _ _ h1 in
      let (_, e3, h3) = bind-eq-pass _ _ h2 in
      let (_, e4, h4) = bind-eq-pass _ _ h3 in
      subst (Step scope.connection_id s) (pass-fst h4) (
        attached now id home scope _ _ refl unknown acc (ground arith)
          (ground (arith, eq_iff home.tenant_id scope.tenant_id)) (ground arith))

  ensure_created-Step :
      lookup scope.account_id s.account_index ≡ none
      → lookup minted s.homes ≡ none
      → Step scope.connection_id s (ensure_created now minted scope s).0
  unfolding ensure_created finish_attach new_home save
  ensure_created-Step acc fresh = founded now minted scope _ refl unknown acc fresh

pub ensure_default_home-Acted :
    (now : ℕ) (minted : String) (scope_in : ScopeArg) (s s' : Store) (a : Ensured)
    → lookup minted s.homes ≡ none
    → check_ensure_default_home now minted scope_in s ≡ pass (s', a)
    → Acted scope_in s s'
unfolding check_ensure_default_home ensure_unknown
ensure_default_home-Acted now minted scope_in s s' a fresh h =
    let (scope, e1, h1) = bind-eq-pass _ _ h in
    elim (Option-cases (lookup scope.connection_id s.connection_index)) [
      | inr (id, known) ↦ ensure_known-Acted now scope_in scope id s s' a e1 (rw known at h1)
      | inl unknown ↦ elim (Option-cases (lookup scope.account_id s.account_index)) [
        | inr (id, acc) ↦ record {
          scope = scope;
          verified = e1;
          step =
              ensure_existing-Step now minted scope s unknown id s' a acc
                (rw (acc, ensure_unknown) at (rw unknown at h1));
        }
        | inl acc ↦ record {
          scope = scope;
          verified = e1;
          step =
              subst (Step scope.connection_id s)
                (pass-fst (rw (acc, ensure_unknown) at (rw unknown at h1)))
                (ensure_created-Step now minted scope s unknown acc fresh);
        }
      ]
    ]
