-- ===== src/PrivateRealm/Invariant/Frames.antt =====
-- src/private-realm/store.js: the audit log and a new connection keep a store well-formed.
use cairnstone_v.Prelude.{
  ℕ, String, ◌≡◌, refl, true, false, ◌==◌, string_eq, pair_eq, if◌then◌else◌, arith, eq_iff,
}
use cairnstone_v.Prelude.Dict.{lookup-insert, lookup-nil}
use cairnstone_v.PrivateRealm.Check.{Role, HomeScope}
use cairnstone_v.PrivateRealm.State.{Connection, Message, Grant, Home, Store}
use cairnstone_v.PrivateRealm.Attach.{attach, new_home, new_connection}
use cairnstone_v.PrivateRealm.Invariant.{IsSound, has_connection, IsWellFormed}

pub audit-IsWellFormed :
    {s : Store} (r : _) → IsWellFormed s → IsWellFormed (record s { audit_log = r })
audit-IsWellFormed r w = record {
  named = w.named;
  sound = w.sound;
  indexed = w.indexed;
  unique = w.unique;
  accounts = w.accounts;
  registered = w.registered;
}

pub attach_frame :
    (now : ℕ) (scope : HomeScope) (role : Role) (home : Home)
    → let home' = attach now scope role home in
      (home'.home_id ≡ home.home_id) × (home'.account_id ≡ home.account_id)
unfolding attach
attach_frame now scope role home = (refl, refl)

pub new_home-IsSound :
    (now : ℕ) (minted : String) (scope : HomeScope) → IsSound (new_home now minted scope)
unfolding new_home
new_home-IsSound now minted scope = record {
  keyed = λ id c h. ground (arith, lookup-nil {V = Connection} id);
  held = λ i j g h live. ground (arith, lookup-nil {K = String × String} {V = Grant} (i, j));
  filed = λ id m h. ground (arith, lookup-nil {V = Message} id);
  mail = tt;
}

pub has_connection-new_home :
    (now : ℕ) (minted : String) (scope : HomeScope) (c : String)
    → has_connection (new_home now minted scope) c ≡ false
unfolding new_home
has_connection-new_home now minted scope c = ground (arith, lookup-nil {V = Connection} c)

pub founded_home :
    (now : ℕ) (minted : String) (scope : HomeScope)
    → let home = attach now scope Role.admin (new_home now minted scope) in
      (home.home_id ≡ minted) × (home.account_id ≡ scope.account_id)
unfolding attach new_home
founded_home now minted scope = (refl, refl)

pub attach-IsSound :
    (now : ℕ) (scope : HomeScope) (role : Role) (home : Home)
    → IsSound home
    → IsSound (attach now scope role home)
unfolding attach
attach-IsSound now scope role home ok = record {
  keyed = λ j d h. ground (
    arith,
    ok.keyed j d,
    lookup-insert scope.connection_id j (new_connection now scope role) home.connections,
    eq_iff scope.connection_id j,
  );
  held = λ i j g h live. ground (
    arith,
    ok.held i j g,
    lookup-insert scope.connection_id j (new_connection now scope role) home.connections,
  );
  filed = ok.filed;
  mail = ok.mail;
}

pub has_connection-attach :
    (now : ℕ) (scope : HomeScope) (role : Role) (home : Home) (c : String)
    → has_connection (attach now scope role home) c
      ≡ (if scope.connection_id == c then true else has_connection home c)
unfolding attach
has_connection-attach now scope role home c =
    ground
      (arith, lookup-insert scope.connection_id c (new_connection now scope role) home.connections)
