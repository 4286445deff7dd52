-- ===== src/PrivateRealm/Run/Isolation.antt =====
-- A call reaches no Home but the one of its caller's connection.
use cairnstone_v.Prelude.{String, ◌≡◌, ◌≢◌, refl, sym, ◌∙◌, subst, some, string_eq, arith, eq_iff}
use cairnstone_v.Prelude.Dict.{lookup, insert, lookup-insert}
use cairnstone_v.PrivateRealm.Check.{Role, HomeScope, Check, pass, pass-injective}
use cairnstone_v.PrivateRealm.State.{Store}
use cairnstone_v.PrivateRealm.Authority.{audit, audit_denial, save}
use cairnstone_v.PrivateRealm.Attach.{attach, new_home}
use cairnstone_v.PrivateRealm.Send.{Digest}
use cairnstone_v.PrivateRealm.Steps.{Step, noted, touched, attached, founded}
use cairnstone_v.PrivateRealm.Invariant.{IsWellFormed}
use cairnstone_v.PrivateRealm.Invariant.Homes.{HomeStep-SameFrame}
use cairnstone_v.PrivateRealm.Run.{Call, apply, caller_of, IsFresh, Reachable}
use cairnstone_v.PrivateRealm.Run.Moves.{
  Moved, still, refused, acted, apply-Moved, Reachable-IsWellFormed,
}
use cairnstone_v.PrivateRealm.Run.Evolution.{attach-home_id}

module _ {c : String} {s : Store} (w : IsWellFormed s) (j : String) where
  Step-isolated :
      {s' : Store}
      → Step c s s'
      → lookup c s'.connection_index ≢ some j
      → lookup j s'.homes ≡ lookup j s.homes
  unfolding audit save
  Step-isolated (noted now home_id scope action outcome reason) n = refl
  Step-isolated (touched now id home home' scope action reason ind at st) n = ground (
    arith,
    w.named id home,
    (HomeStep-SameFrame st).home_id,
    lookup-insert home'.home_id j home' s.homes,
    eq_iff home'.home_id j,
  )
  Step-isolated (attached now id home scope role reason e u acc at t p) n = ground (
    arith,
    attach-home_id now scope role home,
    lookup-insert scope.connection_id c home.home_id s.connection_index,
    eq_iff scope.connection_id c,
    lookup-insert (attach now scope role home).home_id j (attach now scope role home) s.homes,
    eq_iff home.home_id j,
  )
  Step-isolated (founded now minted scope reason e u acc fresh) n = ground (
    arith,
    lookup-insert scope.connection_id c minted s.connection_index,
    eq_iff scope.connection_id c,
    eq_iff minted j,
    lookup-insert minted j (attach now scope Role.admin (new_home now minted scope))
        (insert minted (new_home now minted scope) s.homes),
    lookup-insert minted j (new_home now minted scope) s.homes,
  )

Moved-isolated :
    {caller : Check HomeScope} {s s' : Store} (scope : HomeScope) (j : String)
    → IsWellFormed s
    → caller ≡ pass scope
    → Moved caller s s'
    → lookup scope.connection_id s'.connection_index ≢ some j
    → lookup j s'.homes ≡ lookup j s.homes
unfolding audit_denial audit
Moved-isolated scope j w e still n = refl
Moved-isolated scope j w e (refused now d) n = refl
Moved-isolated {s'} scope j w e (acted sc e' st) n = Step-isolated w j st (
    subst (λ (x : HomeScope). lookup x.connection_id s'.connection_index ≢ some j)
      (pass-injective (sym e ∙ e')) n)

-- In a reachable store a call changes no Home but the one in which its caller's connection stands
-- when it is done: every other Home (its connections, inboxes, grants, messages and deliveries) is
-- the same Home before and after, whichever of the calls it is and whether it succeeds or not. The
-- minted id of a Home is assumed new.
pub apply_isolated :
    (digest : Digest) (c : Call) (s : Store) (scope : HomeScope) (other : String)
    → Reachable digest s
    → IsFresh c s
    → caller_of c ≡ pass scope
    → lookup scope.connection_id (apply digest c s).connection_index ≢ some other
    → lookup other (apply digest c s).homes ≡ lookup other s.homes
apply_isolated digest c s scope other r fresh e n =
    Moved-isolated scope other (Reachable-IsWellFormed digest s r) e (apply-Moved digest c s fresh)
      n
