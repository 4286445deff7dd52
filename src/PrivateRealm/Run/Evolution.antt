-- ===== src/PrivateRealm/Run/Evolution.antt =====
-- How one Home changes while the store takes calls, and what no call ever undoes.
use cairnstone_v.Prelude.{
  ℕ, String, ◌≡◌, refl, sym, ◌∙◌, subst, none, some, ◌==◌, string_eq, pair_eq, if◌then◌else◌, arith,
  eq_iff, Bool-cases, inl, inr,
}
use cairnstone_v.Prelude.Dict.{lookup, insert, lookup-insert}
use cairnstone_v.PrivateRealm.Check.{Role, HomeScope, Check}
use cairnstone_v.PrivateRealm.State.{Home, Store}
use cairnstone_v.PrivateRealm.Authority.{audit, audit_denial, save}
use cairnstone_v.PrivateRealm.Attach.{attach, new_home}
use cairnstone_v.PrivateRealm.Send.{Digest}
use cairnstone_v.PrivateRealm.Steps.{Step, noted, touched, attached, founded, HomeStep}
use cairnstone_v.PrivateRealm.Invariant.{IsSound, IsWellFormed}
use cairnstone_v.PrivateRealm.Invariant.Homes.{HomeStep-SameFrame}
use cairnstone_v.PrivateRealm.Invariant.Stores.{not_held}
use cairnstone_v.PrivateRealm.Run.{Later, here, next}
use cairnstone_v.PrivateRealm.Run.Moves.{
  Moved, still, refused, acted, apply-Moved, Later-IsWellFormed,
}

pub data Evolved (home : Home) : Home → Type 0 where
  same : Evolved home home
  stepped : {home' : Home} (now : ℕ) → HomeStep now home home' → Evolved home home'
  joined :
      (now : ℕ) (scope : HomeScope) (role : Role)
      → lookup scope.connection_id home.connections ≡ none
      → Evolved home (attach now scope role home)

-- The Home under an id, and what holds of it.
pub record HomeAt (P : Home → Type 0) (id : String) (s : Store) : Type 0 where
  pub home : Home
  pub found : lookup id s.homes ≡ some home
  pub holds : P home

pub lookup-save :
    (s : Store) (home' : Home) (id j : String)
    → home'.home_id ≡ id
    → lookup j (save home' s).homes ≡ (if id == j then some home' else lookup j s.homes)
unfolding save
lookup-save s home' id j e = ground (arith, lookup-insert home'.home_id j home' s.homes)

pub attach-home_id :
    (now : ℕ) (scope : HomeScope) (role : Role) (home : Home)
    → (attach now scope role home).home_id ≡ home.home_id
unfolding attach
attach-home_id now scope role home = refl

module _ (P : Home → Type 0) (keep : (h h' : Home) → IsSound h → Evolved h h' → P h → P h') where
  rewritten :
      {s : Store} (id j : String) (home home' : Home)
      → IsWellFormed s
      → lookup id s.homes ≡ some home
      → home'.home_id ≡ home.home_id
      → Evolved home home'
      → HomeAt P j s
      → HomeAt P j (save home' s)
  rewritten {s} id j home home' w at same_id ev p = elim (Bool-cases (id == j)) [
    | inl t ↦ record {
      home = home';
      found = ground (arith, lookup-save s home' id j (same_id ∙ w.named id home at));
      holds =
          keep home home' (w.sound id home at) ev
            (subst P (ground (arith, eq_iff id j, p.found)) p.holds);
    }
    | inr f ↦ record {
      home = p.home;
      found = ground (arith, lookup-save s home' id j (same_id ∙ w.named id home at), p.found);
      holds = p.holds;
    }
  ]

  relogged :
      {s : Store} (j : String) (log : _) → HomeAt P j s → HomeAt P j (record s { audit_log = log })
  relogged j log p = record { home = p.home; found = p.found; holds = p.holds }

  Step-HomeAt :
      {c : String} {s s' : Store} (j : String)
      → IsWellFormed s
      → Step c s s'
      → HomeAt P j s
      → HomeAt P j s'
  unfolding audit
  Step-HomeAt j w (noted now home_id scope action outcome reason) p = relogged j _ p
  Step-HomeAt {s} j w (touched now id home home' scope action reason ind at st) p =
      relogged j _
        (rewritten id j home home' w at (HomeStep-SameFrame st).home_id (stepped now st) p)
  Step-HomeAt {s} j w (attached now id home scope role reason e n acc at t pr) p =
      let r =
        rewritten id j home (attach now scope role home) w at (attach-home_id now scope role home)
          (joined now scope role (
            not_held w scope.connection_id id home
              (subst (λ k. lookup k s.connection_index ≡ none) (sym e) n) at))
          p in
      record { home = r.home; found = r.found; holds = r.holds }
  Step-HomeAt {s} j w (founded now minted scope reason e n acc fresh) p = record {
    home = p.home;
    found = ground (
      arith,
      p.found,
      eq_iff minted j,
      lookup-insert minted j (attach now scope Role.admin (new_home now minted scope))
          (insert minted (new_home now minted scope) s.homes),
      lookup-insert minted j (new_home now minted scope) s.homes,
    );
    holds = p.holds;
  }

  Moved-HomeAt :
      {caller : Check HomeScope} {s s' : Store} (j : String)
      → IsWellFormed s
      → Moved caller s s'
      → HomeAt P j s
      → HomeAt P j s'
  unfolding audit_denial audit
  Moved-HomeAt j w still p = p
  Moved-HomeAt j w (refused now d) p = relogged j _ p
  Moved-HomeAt j w (acted scope e st) p = Step-HomeAt j w st p

  -- What a Home keeps through its changes it keeps through every later call.
  pub Later-HomeAt :
      {digest : Digest} {s t : Store} (j : String)
      → IsWellFormed s
      → Later digest s t
      → HomeAt P j s
      → HomeAt P j t
  Later-HomeAt j w here p = p
  Later-HomeAt {digest} j w (next {t} l c fresh) p =
      Moved-HomeAt j (Later-IsWellFormed w l) (apply-Moved digest c t fresh) (Later-HomeAt j w l p)
