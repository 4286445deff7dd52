-- ===== src/PrivateRealm/Invariant/Stores.antt =====
-- Every step of the store keeps it well-formed.
use cairnstone_v.Prelude.{
  ℕ, String, ◌≡◌, sym, subst, none, some, ◌==◌, string_eq, pair_eq, if◌then◌else◌, arith, eq_iff,
  Bool-cases, inl, inr,
}
use cairnstone_v.Prelude.Dict.{Dict, lookup, insert, lookup-insert}
use cairnstone_v.PrivateRealm.Check.{Role, HomeScope}
use cairnstone_v.PrivateRealm.State.{Home, Store}
use cairnstone_v.PrivateRealm.Authority.{audit, save}
use cairnstone_v.PrivateRealm.Attach.{attach, new_home}
use cairnstone_v.PrivateRealm.Invariant.{IsSound, IsWellFormed}
use cairnstone_v.PrivateRealm.Invariant.Homes.{HomeStep-IsSound, HomeStep-SameFrame, SameFrame}
use cairnstone_v.PrivateRealm.Steps.{Step, noted, touched, attached, founded}
use cairnstone_v.PrivateRealm.Invariant.Frames.{
  audit-IsWellFormed, attach_frame, new_home-IsSound, has_connection-new_home, founded_home,
  attach-IsSound, has_connection-attach,
}

module _ (m j : String) (h1 h0 : Home) (homes : Dict String Home) where
  lookup_founded :
      lookup j (insert m h1 (insert m h0 homes)) ≡ (if m == j then some h1 else lookup j homes)
  lookup_founded =
      ground (arith, lookup-insert m j h1 (insert m h0 homes), lookup-insert m j h0 homes)

module _ {s : Store} (w : IsWellFormed s) where
  save-IsWellFormed :
      (id : String) (home home' : Home)
      → lookup id s.homes ≡ some home
      → SameFrame home home'
      → IsSound home'
      → IsWellFormed (save home' s)
  unfolding save
  save-IsWellFormed id home home' at same ok = record {
    named = λ j h e. ground (
      arith,
      w.named id home,
      w.named j h,
      lookup-insert home'.home_id j home' s.homes,
      eq_iff home'.home_id j,
    );
    sound = λ j h e. elim (Bool-cases (home'.home_id == j)) [
      | inl t ↦ subst IsSound (ground (arith, lookup-insert home'.home_id j home' s.homes)) ok
      | inr f ↦ w.sound j h (ground (arith, lookup-insert home'.home_id j home' s.homes))
    ];
    indexed = λ c j e. ground (
      arith,
      w.named id home,
      w.indexed c j,
      same.connections c,
      lookup-insert home'.home_id j home' s.homes,
      eq_iff home'.home_id j,
    );
    unique = λ c j e. ground (
      arith,
      w.named id home,
      w.unique c j,
      same.connections c,
      lookup-insert home'.home_id j home' s.homes,
      eq_iff home'.home_id j,
    );
    accounts = λ a j e. ground (
      arith,
      w.named id home,
      w.accounts a j,
      lookup-insert home'.home_id j home' s.homes,
      eq_iff home'.home_id j,
    );
    registered = λ j h e. ground (
      arith,
      w.named id home,
      w.registered j h,
      w.registered id home,
      same.account_id,
      lookup-insert home'.home_id j home' s.homes,
      eq_iff home'.home_id j,
    );
  }

  -- An unknown connection stands in no Home.
  pub not_held :
      (c id : String) (home : Home)
      → lookup c s.connection_index ≡ none
      → lookup id s.homes ≡ some home
      → lookup c home.connections ≡ none
  not_held c id home n at = ground (arith, w.unique c id)

  attached-IsWellFormed :
      (now : ℕ) (id : String) (home : Home) (scope : HomeScope) (role : Role)
      → lookup scope.connection_id s.connection_index ≡ none
      → lookup id s.homes ≡ some home
      → IsWellFormed (record (save (attach now scope role home) s) {
        connection_index = insert scope.connection_id home.home_id s.connection_index;
      })
  unfolding save
  attached-IsWellFormed now id home scope role n at =
      let home' = attach now scope role home in
      record {
        named = λ j h e. ground (
          arith,
          attach_frame now scope role home,
          w.named id home,
          w.named j h,
          lookup-insert home'.home_id j home' s.homes,
          eq_iff home'.home_id j,
        );
        sound = λ j h e. elim (Bool-cases (home'.home_id == j)) [
          | inl t ↦
              subst IsSound (ground (arith, lookup-insert home'.home_id j home' s.homes))
                (attach-IsSound now scope role home (w.sound id home at))
          | inr f ↦ w.sound j h (ground (arith, lookup-insert home'.home_id j home' s.homes))
        ];
        indexed = λ c j e. ground (
          arith,
          attach_frame now scope role home,
          w.named id home,
          w.indexed c j,
          has_connection-attach now scope role home c,
          lookup-insert home'.home_id j home' s.homes,
          eq_iff home'.home_id j,
          lookup-insert scope.connection_id c home.home_id s.connection_index,
          eq_iff scope.connection_id c,
        );
        unique = λ c j e. ground (
          arith,
          attach_frame now scope role home,
          w.named id home,
          w.unique c j,
          has_connection-attach now scope role home c,
          lookup-insert home'.home_id j home' s.homes,
          eq_iff home'.home_id j,
          lookup-insert scope.connection_id c home.home_id s.connection_index,
          eq_iff scope.connection_id c,
        );
        accounts = λ a j e. ground (
          arith,
          attach_frame now scope role home,
          w.named id home,
          w.accounts a j,
          lookup-insert home'.home_id j home' s.homes,
          eq_iff home'.home_id j,
        );
        registered = λ j h e. ground (
          arith,
          attach_frame now scope role home,
          w.named id home,
          w.registered j h,
          w.registered id home,
          lookup-insert home'.home_id j home' s.homes,
          eq_iff home'.home_id j,
        );
      }

  founded-IsWellFormed :
      (now : ℕ) (minted : String) (scope : HomeScope)
      → lookup scope.connection_id s.connection_index ≡ none
      → lookup scope.account_id s.account_index ≡ none
      → lookup minted s.homes ≡ none
      → IsWellFormed (record s {
        homes =
            insert minted
              (attach now scope Role.admin (new_home now minted scope))
              (insert minted (new_home now minted scope) s.homes);
        account_index = insert scope.account_id minted s.account_index;
        connection_index = insert scope.connection_id minted s.connection_index;
      })
  founded-IsWellFormed now minted scope n acc fresh =
      let fresh_home = new_home now minted scope in
      let home' = attach now scope Role.admin fresh_home in
      let lookups = λ (j : String). lookup_founded minted j home' fresh_home s.homes in
      record {
        named = λ j h e.
            ground (arith, lookups j, founded_home now minted scope, w.named j h, eq_iff minted j);
        sound = λ j h e. elim (Bool-cases (minted == j)) [
          | inl t ↦
              subst IsSound (ground (arith, lookups j))
                (attach-IsSound now scope Role.admin fresh_home (new_home-IsSound now minted scope))
          | inr f ↦ w.sound j h (ground (arith, lookups j))
        ];
        indexed = λ c j e. ground (
          arith,
          lookups j,
          founded_home now minted scope,
          w.indexed c j,
          has_connection-attach now scope Role.admin fresh_home c,
          lookup-insert scope.connection_id c minted s.connection_index,
          eq_iff scope.connection_id c,
          eq_iff minted j,
        );
        unique = λ c j e. ground (
          arith,
          lookups j,
          has_connection-new_home now minted scope c,
          founded_home now minted scope,
          w.unique c j,
          has_connection-attach now scope Role.admin fresh_home c,
          lookup-insert scope.connection_id c minted s.connection_index,
          eq_iff scope.connection_id c,
          eq_iff minted j,
        );
        accounts = λ a j e. ground (
          arith,
          lookups j,
          founded_home now minted scope,
          w.accounts a j,
          lookup-insert scope.account_id a minted s.account_index,
          eq_iff scope.account_id a,
          eq_iff minted j,
        );
        registered = λ j h e. ground (
          arith,
          lookups j,
          founded_home now minted scope,
          w.registered j h,
          lookup-insert scope.account_id h.account_id minted s.account_index,
          eq_iff scope.account_id h.account_id,
          eq_iff minted j,
        );
      }

-- A step of a well-formed store keeps it well-formed.
pub Step-IsWellFormed : {c : String} {s s' : Store} → Step c s s' → IsWellFormed s → IsWellFormed s'
unfolding audit
Step-IsWellFormed (noted now home_id scope action outcome reason) w = audit-IsWellFormed _ w
Step-IsWellFormed (touched now id home home' scope action reason ind at st) w =
    audit-IsWellFormed _ (
      save-IsWellFormed w id home home' at (HomeStep-SameFrame st)
        (HomeStep-IsSound st (w.sound id home at)))
Step-IsWellFormed {s} (attached now id home scope role reason e n acc at t p) w =
    audit-IsWellFormed _ (
      attached-IsWellFormed w now id home scope role
        (subst (λ k. lookup k s.connection_index ≡ none) (sym e) n) at)
Step-IsWellFormed {s} (founded now minted scope reason e n acc fresh) w = audit-IsWellFormed _ (
    founded-IsWellFormed w now minted scope
      (subst (λ k. lookup k s.connection_index ≡ none) (sym e) n) acc fresh)
