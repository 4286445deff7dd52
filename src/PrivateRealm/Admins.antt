-- ===== src/PrivateRealm/Admins.antt =====
-- The last admin of a Home.
use cairnstone_v.Prelude.{
  ℕ, String, ◌≡◌, ◌≤◌, refl, ◌∙◌, subst, some, true, false, string_eq, ◌==◌, if◌then◌else◌, arith,
  eq_iff, Bool-cases, inl, inr, List,
}
use cairnstone_v.Prelude.Dict.{lookup, tally-insert}
use cairnstone_v.Prelude.Value.{Value}
use cairnstone_v.PrivateRealm.Check.{Role, Check, pass, deny, raise, bind-eq-pass}
use cairnstone_v.PrivateRealm.Scope.{ScopeArg, SelectorArg}
use cairnstone_v.PrivateRealm.State.{Connection, AuditRow, Home, Store}
use cairnstone_v.PrivateRealm.Authority.{
  settle, audit, audit_denial, save, is_active, is_active_admin, active_admin_count,
}
use cairnstone_v.PrivateRealm.Connections.{
  check_set_connection_role, set_connection_role, with_role, drops_last_admin,
}
use cairnstone_v.PrivateRealm.Invariant.{IsWellFormed}
use cairnstone_v.PrivateRealm.Steps.Resolved.{authorize-Resolved}
use cairnstone_v.PrivateRealm.Steps.Acted.{pass-fst}
use cairnstone_v.PrivateRealm.Run.Evolution.{HomeAt, lookup-save}

abbrev pub HasAdmin : Home → Type 0
HasAdmin home = 1 ≤ active_admin_count home

with_role-HasAdmin :
    (id : String) (c : Connection) (role : Role) (home : Home)
    → lookup id home.connections ≡ some c
    → is_active c.status ≡ true
    → drops_last_admin c role home ≡ false
    → HasAdmin home
    → HasAdmin (with_role id c role home)
unfolding with_role
with_role-HasAdmin id c role home at act last h =
    ground (arith, tally-insert is_active_admin id (record c { role = role }) c home.connections at)

home_id-with_role :
    (id : String) (c : Connection) (role : Role) (home : Home)
    → (with_role id c role home).home_id ≡ home.home_id
unfolding with_role
home_id-with_role id c role home = refl

-- What holds of the store before, and of every store that a passing check hands over, holds after.
pub settle-keeps :
    {A : Type 0} (P : Store → Type 0) (now : ℕ) (m : Check (Store × A)) (s : Store)
    → ((log : List AuditRow) → P s → P (record s { audit_log = log }))
    → ((s' : Store) (a : A) → m ≡ pass (s', a) → P s')
    → P s
    → P (settle now m s).1
unfolding settle audit_denial audit
settle-keeps P now (pass (s', a)) s log k p = k s' a refl
settle-keeps P now (deny d) s log k p = log _ p
settle-keeps P now (raise e) s log k p = p

saved-HasAdmin :
    (s : Store) (home_id j id : String) (home : Home) (c : Connection) (role : Role)
    (log : List AuditRow)
    → home.home_id ≡ home_id
    → lookup home_id s.homes ≡ some home
    → HomeAt HasAdmin j s
    → (HasAdmin home → HasAdmin (with_role id c role home))
    → HomeAt HasAdmin j (record (save (with_role id c role home) s) { audit_log = log })
saved-HasAdmin s home_id j id home c role log e at p keep = elim (Bool-cases (home_id == j)) [
  | inl t ↦ record {
    home = with_role id c role home;
    found = ground (arith, saved);
    holds = keep (
        subst HasAdmin {x = p.home} {y = home} (ground (arith, eq_iff home_id j, p.found)) p.holds);
  }
  | inr f ↦ record { home = p.home; found = ground (arith, saved, p.found); holds = p.holds }
]
  where
    saved :
        lookup j (save (with_role id c role home) s).homes
        ≡ (if home_id == j then some (with_role id c role home) else lookup j s.homes)
    saved =
        lookup-save s (with_role id c role home) home_id j (home_id-with_role id c role home ∙ e)

check_set_role-HasAdmin :
    (now : ℕ) (scope_in : ScopeArg) (target role : Value) (selector : SelectorArg) (s s' : Store)
    (a : String × Role) (id : String)
    → IsWellFormed s
    → HomeAt HasAdmin id s
    → check_set_connection_role now scope_in target role selector s ≡ pass (s', a)
    → HomeAt HasAdmin id s'
unfolding check_set_connection_role audit
check_set_role-HasAdmin now scope_in target role selector s s' a id w p h =
    let (ctx, e1, h1) = bind-eq-pass _ _ h in
    let (_, e2, h2) = bind-eq-pass _ _ h1 in
    let (ro, e3, h3) = bind-eq-pass _ _ h2 in
    let (found, e4, h4) = bind-eq-pass _ _ h3 in
    let (_, e5, h5) = bind-eq-pass _ _ h4 in
    let (_, e6, h6) = bind-eq-pass _ _ h5 in
    let (scope, sel, _, _, res) = authorize-Resolved _ _ _ _ _ e1 in
    subst (HomeAt HasAdmin id) (pass-fst h6) (
      saved-HasAdmin s res.id id found.0 ctx.home found.1 ro _ (w.named res.id ctx.home res.found)
        res.found p
        (with_role-HasAdmin found.0 found.1 ro ctx.home (ground arith) (ground arith)
          (ground arith)))

-- No change of roles takes a Home its last active admin: a Home of a well-formed store with an
-- active admin still has one after any call of `setConnectionRole`, by whatever caller and with
-- whatever arguments, and whether it succeeds or is refused.
pub set_connection_role-HasAdmin :
    (now : ℕ) (scope_in : ScopeArg) (target role : Value) (selector : SelectorArg) (s : Store)
    (id : String)
    → IsWellFormed s
    → HomeAt HasAdmin id s
    → HomeAt HasAdmin id (set_connection_role now scope_in target role selector s).1
unfolding set_connection_role
set_connection_role-HasAdmin now scope_in target role selector s id w p =
    settle-keeps (HomeAt HasAdmin id) now _ s
      (λ log q. record { home = q.home; found = q.found; holds = q.holds })
      (λ s' a h. check_set_role-HasAdmin now scope_in target role selector s s' a id w p h) p
