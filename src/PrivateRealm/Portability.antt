-- ===== src/PrivateRealm/Portability.antt =====
-- One account, one Home: every connection of the account joins it.
use cairnstone_v.Prelude.{
  ℕ, String, ◌≡◌, refl, sym, ◌∙◌, subst, none, some, Bool, true, false, string_eq, arith, eq_iff,
  Option-cases, inl, inr,
}
use cairnstone_v.Prelude.Dict.{Dict, lookup, insert, lookup-insert_self}
use cairnstone_v.PrivateRealm.Check.{Role, HomeScope, pass, bind-eq-pass, pass-injective}
use cairnstone_v.PrivateRealm.Scope.{ScopeArg, assert_home_scope}
use cairnstone_v.PrivateRealm.State.{Home, Store}
use cairnstone_v.PrivateRealm.Authority.{ok, audit, save}
use cairnstone_v.PrivateRealm.Attach.{
  Ensured, ensure_default_home, check_ensure_default_home, ensure_known, ensure_existing,
  ensure_created, ensure_unknown, finish_attach, attach, new_home,
}
use cairnstone_v.PrivateRealm.Send.{Digest}
use cairnstone_v.PrivateRealm.Invariant.{IsWellFormed, IsSound}
use cairnstone_v.PrivateRealm.Invariant.Homes.{HomeStep-SameFrame}
use cairnstone_v.PrivateRealm.Run.{ensure, apply, Reachable, Later, next}
use cairnstone_v.PrivateRealm.Run.Moves.{
  Moved-IsWellFormed, apply-Moved, Reachable-IsWellFormed, Later-IsWellFormed,
}
use cairnstone_v.PrivateRealm.Run.Evolution.{Evolved, same, stepped, joined, HomeAt, Later-HomeAt}
use cairnstone_v.PrivateRealm.Run.Forever.{settle-eq-ok}

abbrev HasAccount : String → Home → Type 0
HasAccount account home = home.account_id ≡ account

one_home :
    (index : Dict String String) {a b c i j : String}
    → lookup a index ≡ some i
    → a ≡ c
    → lookup b index ≡ some j
    → b ≡ c
    → j ≡ i
one_home index p e q f = ground arith

-- The Home that an answer names is one of the account.
abbrev Joins : String → Store × Ensured → Type 0
Joins account (s, e) = HomeAt (HasAccount account) e.home_id s

attach_found :
    (now : ℕ) (scope : HomeScope) (role : Role) (home : Home) (homes : Dict String Home)
    → let home' = attach now scope role home in
      (lookup home.home_id (insert home'.home_id home' homes) ≡ some home')
      × (home'.account_id ≡ home.account_id)
unfolding attach
attach_found now scope role home homes =
    (lookup-insert_self home.home_id (attach now scope role home) homes, refl)

finish_attach-Joins :
    (now : ℕ) (scope : HomeScope) (created : Bool) (home : Home) (s : Store)
    → home.account_id ≡ scope.account_id
    → Joins scope.account_id (finish_attach now scope created home s)
unfolding finish_attach save audit
finish_attach-Joins now scope created home s e =
    let role = (finish_attach now scope created home s).1.role in
    let found = attach_found now scope role home s.homes in
    record { home = attach now scope role home; found = found.0; holds = found.1 ∙ e }

module _ (now : ℕ) (minted : String) (scope : HomeScope) (s s' : Store) (a : Ensured)
    (w : IsWellFormed s) where
  ensure_known-Joins :
      (id : String) → ensure_known now scope id s ≡ pass (s', a) → Joins scope.account_id (s', a)
  unfolding ensure_known audit
  ensure_known-Joins id h =
      let (home, e1, h1) = bind-eq-pass _ _ h in
      let (_, e2, h2) = bind-eq-pass _ _ h1 in
      let (c, e3, h3) = bind-eq-pass _ _ h2 in
      let (_, e4, h4) = bind-eq-pass _ _ h3 in
      let (_, e5, h5) = bind-eq-pass _ _ h4 in
      subst (Joins scope.account_id) (pass-injective h5) (record {
        home = home;
        found = ground arith;
        holds = ground (arith, eq_iff home.account_id scope.account_id);
      })

  ensure_existing-Joins :
      (id : String)
      → lookup scope.account_id s.account_index ≡ some id
      → ensure_existing now scope id s ≡ pass (s', a)
      → Joins scope.account_id (s', a)
  unfolding ensure_existing
  ensure_existing-Joins id acc h =
      let (home, e1, h1) = bind-eq-pass _ _ h in
      let (_, e2, h2) = bind-eq-pass _ _ h1 in
      let (_, e3, h3) = bind-eq-pass _ _ h2 in
      let (_, e4, h4) = bind-eq-pass _ _ h3 in
      subst (Joins scope.account_id) (pass-injective h4) (
        finish_attach-Joins now scope false home s (ground (arith, w.accounts scope.account_id id)))

  ensure_unknown-Joins :
      ensure_unknown now minted scope s ≡ pass (s', a) → Joins scope.account_id (s', a)
  unfolding ensure_unknown ensure_created new_home
  ensure_unknown-Joins h = elim (Option-cases (lookup scope.account_id s.account_index)) [
    | inr (id, acc) ↦ ensure_existing-Joins id acc (rw (acc, ensure_unknown) at h)
    | inl n ↦
        subst (Joins scope.account_id) (pass-injective (rw (n, ensure_unknown) at h))
          (finish_attach-Joins now scope true (new_home now minted scope) _ refl)
  ]

check_ensure-Joins :
    (now : ℕ) (minted : String) (scope_in : ScopeArg) (scope : HomeScope) (s s' : Store)
    (a : Ensured)
    → IsWellFormed s
    → assert_home_scope scope_in ≡ pass scope
    → check_ensure_default_home now minted scope_in s ≡ pass (s', a)
    → Joins scope.account_id (s', a)
unfolding check_ensure_default_home
check_ensure-Joins now minted scope_in scope s s' a w v h =
    let (sc, e1, h1) = bind-eq-pass _ _ h in
    let same_scope = pass-injective (sym e1 ∙ v) in
    subst (λ (x : HomeScope). Joins x.account_id (s', a)) same_scope
      (elim (Option-cases (lookup sc.connection_id s.connection_index)) [
        | inr (id, known) ↦ ensure_known-Joins now minted sc s s' a w id (rw known at h1)
        | inl unknown ↦ ensure_unknown-Joins now minted sc s s' a w (rw unknown at h1)
      ])

Evolved-HasAccount :
    (account : String) (h h' : Home)
    → IsSound h
    → Evolved h h'
    → HasAccount account h
    → HasAccount account h'
unfolding attach
Evolved-HasAccount account h _ sound same p = p
Evolved-HasAccount account h _ sound (stepped now st) p = (HomeStep-SameFrame st).account_id ∙ p
Evolved-HasAccount account h _ sound (joined now scope role n) p = p

-- Portability: two calls of `ensureDefaultHome` for one account that both succeed, with any calls of
-- any connections in between, name the same Home, whichever connections they come from. The ids
-- that the two calls may mint are assumed new.
pub ensure_same_home :
    (digest : Digest) (s t : Store) (now now' : ℕ) (minted minted' : String)
    (scope_in scope_in' : ScopeArg) (scope scope' : HomeScope) (a a' : Ensured)
    → Reachable digest s
    → lookup minted s.homes ≡ none
    → assert_home_scope scope_in ≡ pass scope
    → (ensure_default_home now minted scope_in s).0 ≡ ok a
    → Later digest (ensure_default_home now minted scope_in s).1 t
    → lookup minted' t.homes ≡ none
    → assert_home_scope scope_in' ≡ pass scope'
    → scope'.account_id ≡ scope.account_id
    → (ensure_default_home now' minted' scope_in' t).0 ≡ ok a'
    → a'.home_id ≡ a.home_id
unfolding ensure_default_home apply
ensure_same_home digest s t now now' minted minted' scope_in scope_in' scope scope' a a' reach fresh
      v h later fresh' v' e h' =
    let w = Reachable-IsWellFormed digest s reach in
    let w1 = Moved-IsWellFormed (apply-Moved digest (ensure now minted scope_in) s fresh) w in
    let wt = Later-IsWellFormed w1 later in
    let w2 = Moved-IsWellFormed (apply-Moved digest (ensure now' minted' scope_in') t fresh') wt in
    let first = check_ensure-Joins now minted scope_in scope s _ a w v (settle-eq-ok now _ s a h) in
    let second =
      check_ensure-Joins now' minted' scope_in' scope' t _ a' wt v' (settle-eq-ok now' _ t a' h') in
    let kept =
      Later-HomeAt _ (Evolved-HasAccount scope.account_id) a.home_id w1
        (next later (ensure now' minted' scope_in') fresh') first in
    one_home _ (w2.registered _ _ kept.found) kept.holds (w2.registered _ _ second.found)
      (second.holds ∙ e)
