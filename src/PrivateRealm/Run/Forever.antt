-- ===== src/PrivateRealm/Run/Forever.antt =====
-- What no later call undoes, whatever calls come in between.
use cairnstone_v.Prelude.{
  ℕ, String, ◌≡◌, sym, subst, Option, some, true, string_eq, pair_eq, arith, eq_iff, Bool-cases,
  inl, inr, List,
}
use cairnstone_v.Prelude.Dict.{lookup, lookup-insert}
use cairnstone_v.Prelude.Value.{Value}
use cairnstone_v.PrivateRealm.Check.{
  HomeScope, Denial, scope_not_authorized, Check, pass, deny, raise, bind-eq-pass, pass-injective,
}
use cairnstone_v.PrivateRealm.Scope.{ScopeArg, SelectorArg}
use cairnstone_v.PrivateRealm.State.{revoked, Connection, AuditRow, Message, Home, Store}
use cairnstone_v.PrivateRealm.Authority.{ok, settle, audit, save, is_active, authorize_scope}
use cairnstone_v.PrivateRealm.Connections.{
  Changed, check_revoke_connection, revoke_connection, with_revoked,
}
use cairnstone_v.PrivateRealm.Send.{Digest}
use cairnstone_v.PrivateRealm.Invariant.{IsWellFormed}
use cairnstone_v.PrivateRealm.Steps.Resolved.{authorize-Resolved, authorize_scope-Resolved}
use cairnstone_v.PrivateRealm.Access.{authorize_scope_uniform}
use cairnstone_v.PrivateRealm.Run.{revoke, apply, Reachable, Later}
use cairnstone_v.PrivateRealm.Run.Moves.{
  Moved-IsWellFormed, apply-Moved, Reachable-IsWellFormed, Later-IsWellFormed,
}
use cairnstone_v.PrivateRealm.Run.Evolution.{HomeAt, Later-HomeAt, lookup-save}
use cairnstone_v.PrivateRealm.Run.History.{
  is_revoked, Evolved-is_revoked, HoldsMessage, Evolved-HoldsMessage, Evolved-Keeps, Keeps,
  Keeps-refl, Keeps-trans,
}

pub settle-eq-ok :
    {A : Type 0} (now : ℕ) (m : Check (Store × A)) (s : Store) (a : A)
    → (settle now m s).0 ≡ ok a
    → (m ≡ pass ((settle now m s).1, a))
unfolding settle
settle-eq-ok now (pass (s', b)) s a h = ground arith
settle-eq-ok now (deny d) s a h = cc
settle-eq-ok now (raise e) s a h = cc

-- The Home under an id holds the revocation that a call reports.
abbrev Reports : String → Store × Changed → Type 0
Reports id (s, r) = HomeAt (λ h. is_revoked r.id h ≡ true) id s

with_revoked-HomeAt :
    (now : ℕ) (s : Store) (home_id id : String) (c : Connection) (home : Home) (log : List AuditRow)
    → home.home_id ≡ home_id
    → HomeAt
        (λ h. is_revoked id h ≡ true)
        home_id
        (record (save (with_revoked now id c home) s) { audit_log = log })
unfolding with_revoked
with_revoked-HomeAt now s home_id id c home log e = record {
  home = with_revoked now id c home;
  found =
      ground (
        arith,
        lookup-save s (with_revoked now id c home) home_id home_id e,
        eq_iff home_id home_id,
      );
  holds = ground (
    arith,
    lookup-insert id id (record c { status = revoked; revoked_at = some now }) home.connections,
    eq_iff id id,
  );
}

check_revoke-HomeAt :
    (now : ℕ) (scope_in : ScopeArg) (target : Value) (selector : SelectorArg) (s s' : Store)
    (r : Changed)
    → IsWellFormed s
    → check_revoke_connection now scope_in target selector s ≡ pass (s', r)
    → (id : String) × HomeAt (λ h. is_revoked r.id h ≡ true) id s'
unfolding check_revoke_connection audit
check_revoke-HomeAt now scope_in target selector s s' r w h =
    let (ctx, e1, h1) = bind-eq-pass _ _ h in
    let (id, e2, h2) = bind-eq-pass _ _ h1 in
    let (_, e3, h3) = bind-eq-pass _ _ h2 in
    let (c, e4, h4) = bind-eq-pass _ _ h3 in
    let (scope, sel, _, _, res) = authorize-Resolved _ _ _ _ _ e1 in
    elim (Bool-cases (is_active c.status)) [
      | inl t ↦ (
        res.id,
        subst (Reports res.id) (pass-injective (rw t at h4))
            (with_revoked-HomeAt now s res.id id c ctx.home _ (w.named res.id ctx.home res.found)),
      )
      | inr f ↦ (
        res.id,
        subst (Reports res.id) (pass-injective (rw f at h4))
            (record { home = ctx.home; found = res.found; holds = ground arith }),
      )
    ]

-- No connection of the Home passes that is revoked there.
refused_of_revoked :
    (scope : HomeScope) (selector : Option String) (action : String) (id : String) (t : Store)
    → IsWellFormed t
    → HomeAt (λ h. is_revoked scope.connection_id h ≡ true) id t
    → (d : Denial) × (authorize_scope scope selector action t ≡ deny d)
      × (d.code ≡ scope_not_authorized)
refused_of_revoked scope selector action id t w p =
    elim (authorize_scope_uniform scope selector action t w) [
      | inr refused ↦ refused
      | inl (ctx, e) ↦
          let r = authorize_scope-Resolved scope selector action t ctx e in
          absurd (
            ground (
              arith,
              p.found,
              p.holds,
              r.found,
              r.indexed,
              r.connected,
              r.conn_active,
              w.unique scope.connection_id id,
            ))
    ]

-- A revocation is for ever: once `revokeConnection` has answered for a connection of a reachable
-- store, no later store, whatever calls came in between, authorizes a scope of that connection, for
-- any action and any selector; it is always refused by `scope_not_authorized`.
pub revoked_forever :
    (digest : Digest) (s t : Store) (now : ℕ) (scope_in : ScopeArg) (target : Value)
    (selector_in : SelectorArg) (r : Changed) (scope : HomeScope) (selector : Option String)
    (action : String)
    → Reachable digest s
    → (revoke_connection now scope_in target selector_in s).0 ≡ ok r
    → Later digest (revoke_connection now scope_in target selector_in s).1 t
    → scope.connection_id ≡ r.id
    → (d : Denial) × (authorize_scope scope selector action t ≡ deny d)
      × (d.code ≡ scope_not_authorized)
unfolding revoke_connection apply
revoked_forever digest s t now scope_in target selector_in r scope selector action reach h later e =
    let w = Reachable-IsWellFormed digest s reach in
    let w1 =
      Moved-IsWellFormed (apply-Moved digest (revoke now scope_in target selector_in) s tt) w in
    let (id, p) =
      check_revoke-HomeAt now scope_in target selector_in s _ r w (settle-eq-ok now _ s r h) in
    let kept = Later-HomeAt _ (Evolved-is_revoked r.id) id w1 later p in
    refused_of_revoked scope selector action id t (Later-IsWellFormed w1 later)
      (subst (λ c. HomeAt (λ h. is_revoked c h ≡ true) id t) (sym e) kept)

-- A delivered message is for ever: what a Home of a reachable store holds under a message id every
-- later store holds there, field for field, and every stamp (`read_at`, `acked_at`) that a delivery
-- of the Home bears it still bears with the same time.
pub mail_forever :
    (digest : Digest) (s t : Store) (id : String) (home : Home)
    → Reachable digest s
    → lookup id s.homes ≡ some home
    → Later digest s t
    → HomeAt
        (λ h.
          ((m : String) (x : Message) → HoldsMessage m x home → HoldsMessage m x h)
          × ((key : String × String)
              → Keeps (lookup key home.deliveries) (lookup key h.deliveries)))
        id
        t
mail_forever digest s t id home reach at later =
    Later-HomeAt _
      (λ h h' ok ev p. (
        (λ m x e. Evolved-HoldsMessage m x h h' ok ev (p.0 m x e)),
        (λ key. Keeps-trans (p.1 key) (Evolved-Keeps key h h' ok ev)),
      ))
      id (Reachable-IsWellFormed digest s reach) later
      (record { home = home; found = at; holds = ((λ m x e. e), (λ key. Keeps-refl _)) })
