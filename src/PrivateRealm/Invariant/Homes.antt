-- ===== src/PrivateRealm/Invariant/Homes.antt =====
-- Every step inside a Home keeps the Home sound.
use cairnstone_v.Prelude.{
  ℕ, String, ◌≡◌, refl, none, some, true, string_eq, pair_eq, arith, eq_iff, Option-cases, inl, inr,
  List,
}
use cairnstone_v.Prelude.Dict.{
  lookup, lookup-insert, lookup-update_all, AllEntries-insert, AllEntries-map, AllEntries-lookup,
}
use cairnstone_v.PrivateRealm.Check.{Role}
use cairnstone_v.PrivateRealm.State.{revoked, Connection, Grant, Message, Delivery, Home}
use cairnstone_v.PrivateRealm.Authority.{is_active, is_live}
use cairnstone_v.PrivateRealm.Connections.{with_role, with_revoked, end_grant}
use cairnstone_v.PrivateRealm.Inboxes.{CreateRequest, with_inbox, new_inbox, full_grant}
use cairnstone_v.PrivateRealm.Grants.{with_grant}
use cairnstone_v.PrivateRealm.Send.{with_message}
use cairnstone_v.PrivateRealm.Mailbox.{with_ack}
use cairnstone_v.PrivateRealm.Invariant.{has_connection, IsHeld, HasMessage, IsSound}
use cairnstone_v.PrivateRealm.Steps.{
  HomeStep, role_change, revocation, creation, granting, ending, delivery, reading, acking,
}
use cairnstone_v.PrivateRealm.Invariant.Deliveries.{read_entries-mail, deliver-mail}

module _ {home : Home} (ok : IsSound home) where
  with_role-IsSound :
      (id : String) (c : Connection) (role : Role)
      → lookup id home.connections ≡ some c
      → IsSound (with_role id c role home)
  unfolding with_role
  with_role-IsSound id c role at = record {
    keyed = λ j d h. ground (
      arith,
      lookup-insert id j (record c { role = role }) home.connections,
      eq_iff id j,
      ok.keyed id c,
      ok.keyed j d,
    );
    held = λ i j g h live. ground (
      arith,
      ok.held i j g h live,
      lookup-insert id j (record c { role = role }) home.connections,
      eq_iff id j,
    );
    filed = ok.filed;
    mail = ok.mail;
  }

  with_revoked-IsSound :
      (now : ℕ) (id : String) (c : Connection)
      → lookup id home.connections ≡ some c
      → IsSound (with_revoked now id c home)
  unfolding with_revoked
  with_revoked-IsSound now id c at = record {
    keyed = λ j d h. ground (
      arith,
      lookup-insert id j (record c { status = revoked; revoked_at = some now }) home.connections,
      eq_iff id j,
      ok.keyed id c,
      ok.keyed j d,
    );
    held = λ i j g h live. elim (Option-cases (lookup (i, j) home.grants)) [
      | inl n ↦ absurd (ground (arith, lookup-update_all (end_grant now id) (i, j) home.grants))
      | inr (g0, f) ↦ ground (
        arith,
        ok.held i j g0 f,
        lookup-update_all (end_grant now id) (i, j) home.grants,
        lookup-insert id j (record c { status = revoked; revoked_at = some now }) home.connections,
        eq_iff j id,
        eq_iff id j,
      )
    ];
    filed = ok.filed;
    mail = ok.mail;
  }

  with_inbox-IsSound :
      (now : ℕ) (id : String) (r : CreateRequest) (j : String) (c : Connection)
      → lookup id home.inboxes ≡ none
      → lookup j home.connections ≡ some c
      → is_active c.status ≡ true
      → IsSound (with_inbox now id r c.connection_id home)
  unfolding with_inbox
  with_inbox-IsSound now id r key c n at act = record {
    keyed = λ j d h. ok.keyed j d h;
    held = λ i j g h live. ground (
      arith,
      ok.held i j g,
      ok.keyed key c,
      lookup-insert (id, c.connection_id) (i, j) (full_grant now) home.grants,
      lookup-insert id i (new_inbox now id r c.connection_id) home.inboxes,
      eq_iff id i,
      eq_iff c.connection_id j,
    );
    filed = ok.filed;
    mail = ok.mail;
  }

  with_grant-IsSound :
      (id connection : String) (g : Grant)
      → (is_live g ≡ true → IsHeld home id connection)
      → IsSound (with_grant id connection g home)
  unfolding with_grant
  with_grant-IsSound id connection g new = record {
    keyed = ok.keyed;
    held = λ i j g' h live. ground (
      arith,
      new,
      ok.held i j g',
      lookup-insert (id, connection) (i, j) g home.grants,
      eq_iff id i,
      eq_iff connection j,
    );
    filed = ok.filed;
    mail = ok.mail;
  }

  with_message-IsSound :
      (now : ℕ) (m : Message) (ts : List String) → IsSound (with_message now m ts home)
  unfolding with_message
  with_message-IsSound now m ts = record {
    keyed = ok.keyed;
    held = λ i j g h live. record {
      connected = (ok.held i j g h live).connected;
      reachable = (ok.held i j g h live).reachable;
    };
    filed = λ id x e. ground (
      arith,
      lookup-insert m.message_id id m home.messages,
      eq_iff m.message_id id,
      ok.filed id x,
    );
    mail =
        deliver-mail now _ m.message_id ts home.deliveries
          (ground (
            arith,
            lookup-insert m.message_id m.message_id m home.messages,
            eq_iff m.message_id m.message_id,
          ))
          (AllEntries-map home.deliveries
            (λ k d has. record {
              message = has.message;
              inbox = has.inbox;
              stored =
                  ground
                    (arith, has.stored, lookup-insert m.message_id d.message_id m home.messages);
            })
            ok.mail);
  }

  with_ack-IsSound :
      (now : ℕ) (key : String × String) (d : Delivery)
      → lookup key home.deliveries ≡ some d
      → IsSound (with_ack now key d home)
  unfolding with_ack
  with_ack-IsSound now key d at = record {
    keyed = ok.keyed;
    held = λ i j g h live. record {
      connected = (ok.held i j g h live).connected;
      reachable = (ok.held i j g h live).reachable;
    };
    filed = ok.filed;
    mail =
        AllEntries-insert (HasMessage home.messages) key _ home.deliveries
          (let has =
              AllEntries-lookup (HasMessage home.messages) key d home.deliveries at ok.mail in
            record { message = has.message; inbox = has.inbox; stored = has.stored })
          ok.mail;
  }

pub HomeStep-IsSound :
    {now : ℕ} {home home' : Home} → HomeStep now home home' → IsSound home → IsSound home'
HomeStep-IsSound (role_change id c role at act last) ok = with_role-IsSound ok id c role at
HomeStep-IsSound {now} (revocation id c at act) ok = with_revoked-IsSound ok now id c at
HomeStep-IsSound {now} (creation id r key c n at act) ok =
    with_inbox-IsSound ok now id r key c n at act
HomeStep-IsSound (granting id inbox connection c g f p at act) ok =
    with_grant-IsSound ok id connection g
      (λ live. record { connected = ground arith; reachable = ground arith })
HomeStep-IsSound {now} (ending id connection g) ok =
    with_grant-IsSound ok id connection (record g { revoked_at = some now })
      (λ live. absurd (ground arith))
HomeStep-IsSound {now} (delivery m targets n opened) ok = with_message-IsSound ok now m targets
HomeStep-IsSound {now} {home} (reading inbox room r e) ok = record {
  keyed = ok.keyed;
  held = λ i j g h live. record {
    connected = (ok.held i j g h live).connected;
    reachable = (ok.held i j g h live).reachable;
  };
  filed = ok.filed;
  mail = read_entries-mail now home.messages inbox room home.deliveries r e ok.mail;
}
HomeStep-IsSound {now} (acking key d at n) ok = with_ack-IsSound ok now key d at

-- A step keeps the id, the account, the tenant and the state of its Home, and the connections'
-- keys and principals.
pub record SameFrame (home home' : Home) : Type 0 where
  pub home_id : home'.home_id ≡ home.home_id
  pub account_id : home'.account_id ≡ home.account_id
  pub tenant_id : home'.tenant_id ≡ home.tenant_id
  pub status : home'.status ≡ home.status
  pub connections : (c : String) → has_connection home' c ≡ has_connection home c

pub HomeStep-SameFrame :
    {now : ℕ} {home home' : Home} → HomeStep now home home' → SameFrame home home'
unfolding with_role with_revoked with_inbox with_grant with_message with_ack
HomeStep-SameFrame {home} (role_change id c role at act last) = record {
  home_id = refl;
  account_id = refl;
  tenant_id = refl;
  status = refl;
  connections = λ j.
      ground (arith, lookup-insert id j (record c { role = role }) home.connections, eq_iff id j);
}
HomeStep-SameFrame {now} {home} (revocation id c at act) = record {
  home_id = refl;
  account_id = refl;
  tenant_id = refl;
  status = refl;
  connections = λ j. ground (
    arith,
    lookup-insert id j (record c { status = revoked; revoked_at = some now }) home.connections,
    eq_iff id j,
  );
}
HomeStep-SameFrame st = record {
  home_id = refl;
  account_id = refl;
  tenant_id = refl;
  status = refl;
  connections = λ j. refl;
}
