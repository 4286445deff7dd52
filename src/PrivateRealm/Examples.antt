-- ===== src/PrivateRealm/Examples.antt =====
-- A Home with two connections, an inbox and a message, and the theorems of the Home store on it.
use cairnstone_v.Prelude.{
  String, ◌≡◌, refl, Option, none, some, true, false, string_eq, pair_eq, eq_iff, List, [], ◌∷◌,
  arith, ◌⊎◌,
}
use cairnstone_v.Prelude.Dict.{lookup, insert}
use cairnstone_v.Prelude.Text.{matches_class}
use cairnstone_v.Prelude.Value.{undefined, str}
use cairnstone_v.PrivateRealm.Check.{admin, member, Denial, scope_not_authorized, pass, deny, ◌>>=◌}
use cairnstone_v.PrivateRealm.Scope.{absent, assert_home_scope, assert_selector}
use cairnstone_v.PrivateRealm.State.{Message}
use cairnstone_v.PrivateRealm.Authority.{
  ok, Ctx, authorize, authorize_scope, audit, audit_denial, save, settle, require_admin,
  check_capability,
}
use cairnstone_v.PrivateRealm.Attach.{Ensured, ensure_default_home}
use cairnstone_v.PrivateRealm.Connections.{revoke_connection, set_connection_role}
use cairnstone_v.PrivateRealm.Inboxes.{create_inbox, check_create_options}
use cairnstone_v.PrivateRealm.Grants.{can}
use cairnstone_v.PrivateRealm.Send.{commit_send, fingerprint_of, check_targets}
use cairnstone_v.PrivateRealm.Mailbox.{Letter, read_inbox, read_entries}
use cairnstone_v.PrivateRealm.Invariant.{IsWellFormed}
use cairnstone_v.PrivateRealm.Access.{HasAccess, can_exact, authorize_scope_uniform}
use cairnstone_v.PrivateRealm.Admins.{HasAdmin, set_connection_role-HasAdmin}
use cairnstone_v.PrivateRealm.Portability.{ensure_same_home}
use cairnstone_v.PrivateRealm.Replay.{IsReplay, commit_send-IsReplay}
use cairnstone_v.PrivateRealm.Reading.{IsReading, read_inbox-IsReading}
use cairnstone_v.PrivateRealm.Run.{ensure, apply, empty_store, here, next}
use cairnstone_v.PrivateRealm.Run.Moves.{Reachable-IsWellFormed}
use cairnstone_v.PrivateRealm.Run.Evolution.{HomeAt}
use cairnstone_v.PrivateRealm.Run.History.{HoldsMessage, Keeps}
use cairnstone_v.PrivateRealm.Run.Forever.{revoked_forever, mail_forever}
use cairnstone_v.PrivateRealm.Run.Isolation.{apply_isolated}
use cairnstone_v.PrivateRealm.Scenario.{
  toy_digest, alice, alice_scope, bob, bob_scope, carol, carol_scope, joining, request,
  founded_store, joined_store, inbox_store, mail_store, founded_home, founded-Reachable,
  joined-Reachable, inbox-Reachable, mail-Reachable,
}

Reachable-IsWellFormed_example : IsWellFormed mail_store
Reachable-IsWellFormed_example = Reachable-IsWellFormed toy_digest mail_store mail-Reachable

homes-apart : Path (Option String) (some "home_33333333") (some "home_11111111") → ⊥
homes-apart h = ground (arith, eq_iff "home_33333333" "home_11111111")

-- An account that comes new leaves the Home that is there.
apply_isolated_example :
    lookup "home_11111111" (apply toy_digest (ensure 5 "home_33333333" carol) founded_store).homes
    ≡ lookup "home_11111111" founded_store.homes
unfolding apply ensure_default_home empty_store lookup settle ◌>>=◌ assert_home_scope matches_class
    audit save insert
apply_isolated_example =
    apply_isolated toy_digest (ensure 5 "home_33333333" carol) founded_store carol_scope
      "home_11111111" founded-Reachable refl refl homes-apart

revoked_forever_example :
    (d : Denial) × (authorize_scope bob_scope none "send"
        (revoke_connection 5 alice (str "conn_bob1") absent joined_store).1
      ≡ deny d)
    × (d.code ≡ scope_not_authorized)
unfolding apply ensure_default_home empty_store lookup settle ◌>>=◌ assert_home_scope matches_class
    audit save insert revoke_connection authorize_scope authorize assert_selector require_admin
revoked_forever_example =
    revoked_forever toy_digest joined_store _ 5 alice (str "conn_bob1") absent
      (record { id = "conn_bob1"; changed = true }) bob_scope none "send" joined-Reachable refl here
      refl

can_exact_example :
    (HasAccess alice_scope none (str "ibx_main") (str "send") inbox_store
      × (can 5 alice (str "ibx_main") (str "send") absent inbox_store ≡ (ok true, inbox_store)))
    ⊎ ((¬ HasAccess alice_scope none (str "ibx_main") (str "send") inbox_store)
        × ((d : Denial) × (can 5 alice (str "ibx_main") (str "send") absent inbox_store
              ≡ (ok false, audit_denial 5 d inbox_store))))
unfolding assert_home_scope assert_selector matches_class ◌>>=◌
can_exact_example =
    can_exact 5 alice alice_scope absent none (str "ibx_main") (str "send") inbox_store refl refl
      (Reachable-IsWellFormed toy_digest inbox_store inbox-Reachable)

commit_send-IsReplay_example :
    IsReplay request
      (commit_send toy_digest 4 request inbox_store).1
      (commit_send toy_digest 9 request (commit_send toy_digest 4 request inbox_store).1)
unfolding apply ensure_default_home empty_store lookup settle ◌>>=◌ assert_home_scope matches_class
    audit save insert create_inbox commit_send authorize_scope authorize assert_selector
    check_capability fingerprint_of check_create_options require_admin check_targets
commit_send-IsReplay_example =
    commit_send-IsReplay toy_digest 4 9 request inbox_store
      (record { message_id = "message-1"; created = true; delivered_to = some 1 })
      (Reachable-IsWellFormed toy_digest inbox_store inbox-Reachable) refl refl

abbrev letters : List Letter
letters =
    record {
      message_id = "message-1";
      thread_id = "message-1";
      sender_inbox_id = "ibx_main";
      body = "hello";
      body_sha256 = "hello";
      created_at = 4;
      delivered_at = 4;
      read_at = some 6;
    }
    ∷ []

read_inbox-IsReading_example :
    IsReading alice absent mail_store
      (read_inbox 6 alice (str "ibx_main") undefined absent mail_store).1
      (str "ibx_main")
      undefined
      letters
unfolding apply ensure_default_home empty_store lookup settle ◌>>=◌ assert_home_scope matches_class
    audit save insert create_inbox read_inbox authorize_scope authorize assert_selector
    check_capability check_create_options require_admin commit_send check_targets fingerprint_of
    read_entries
read_inbox-IsReading_example =
    read_inbox-IsReading 6 alice (str "ibx_main") undefined absent mail_store letters
      (Reachable-IsWellFormed toy_digest mail_store mail-Reachable) refl

mail_forever_example :
    HomeAt
      (λ h.
        ((m : String) (x : Message) → HoldsMessage m x founded_home → HoldsMessage m x h)
        × ((key : String × String)
            → Keeps (lookup key founded_home.deliveries) (lookup key h.deliveries)))
      "home_11111111"
      joined_store
unfolding apply ensure_default_home empty_store lookup settle ◌>>=◌ assert_home_scope matches_class
    audit save insert
mail_forever_example =
    mail_forever toy_digest founded_store joined_store "home_11111111" founded_home
      founded-Reachable refl (next here joining refl)

set_connection_role-HasAdmin_example :
    HomeAt HasAdmin "home_11111111"
      (set_connection_role 5 alice (str "conn_alice") (str "member") absent founded_store).1
unfolding apply ensure_default_home empty_store lookup settle ◌>>=◌ assert_home_scope matches_class
    audit save insert
set_connection_role-HasAdmin_example =
    set_connection_role-HasAdmin 5 alice (str "conn_alice") (str "member") absent founded_store
      "home_11111111" (Reachable-IsWellFormed toy_digest founded_store founded-Reachable)
      (record { home = founded_home; found = refl; holds = omega arith })

abbrev founded_answer : Ensured
founded_answer = record {
  home_id = "home_11111111";
  created = true;
  connection_attached = true;
  role = admin;
}

abbrev joined_answer : Ensured
joined_answer = record {
  home_id = "home_11111111";
  created = false;
  connection_attached = true;
  role = member;
}

ensure_same_home_example : joined_answer.home_id ≡ founded_answer.home_id
unfolding apply ensure_default_home empty_store lookup settle ◌>>=◌ assert_home_scope matches_class
    audit save insert
ensure_same_home_example =
    ensure_same_home toy_digest empty_store founded_store 1 2 "home_11111111" "home_22222222" alice
      bob alice_scope bob_scope founded_answer joined_answer here refl refl refl here refl refl refl
      refl

authorize_scope_uniform_example :
    ((ctx : Ctx) × (authorize_scope carol_scope none "send" inbox_store ≡ pass ctx))
    ⊎ ((d : Denial) × (authorize_scope carol_scope none "send" inbox_store ≡ deny d)
        × (d.code ≡ scope_not_authorized))
authorize_scope_uniform_example =
    authorize_scope_uniform carol_scope none "send" inbox_store
      (Reachable-IsWellFormed toy_digest inbox_store inbox-Reachable)
