-- ===== src/PrivateRealm/Scenario.antt =====
-- A Home with two connections, an inbox and a message, for the examples.
use cairnstone_v.Prelude.{String, refl, none, true, false, string_eq, pair_eq, [], ◌∷◌}
use cairnstone_v.Prelude.Dict.{lookup, insert}
use cairnstone_v.Prelude.Text.{matches_class}
use cairnstone_v.Prelude.Value.{undefined, str, bool}
use cairnstone_v.PrivateRealm.Check.{admin, member, Role, HomeScope, ◌>>=◌}
use cairnstone_v.PrivateRealm.Scope.{ScopeArg, fields, absent, assert_home_scope}
use cairnstone_v.PrivateRealm.State.{active, Home, Store}
use cairnstone_v.PrivateRealm.Authority.{audit, save, settle}
use cairnstone_v.PrivateRealm.Attach.{ensure_default_home}
use cairnstone_v.PrivateRealm.Send.{Digest, Request}
use cairnstone_v.PrivateRealm.Run.{
  Call, ensure, create, commit, apply, empty_store, Reachable, here, next,
}

abbrev pub toy_digest : Digest
toy_digest = record { sha256_hex = λ s. s; json_text = λ inbox targets thread body. body }

abbrev pub scope_arg : String → String → String → String → ScopeArg
scope_arg account principal connection role = fields (record {
  account_id = str account;
  tenant_id = str "ten_main";
  principal_id = str principal;
  connection_id = str connection;
  home_role = str role;
  provider_label = undefined;
  has_home_id = false;
  has_inbox_id = false;
})

abbrev scope_of : String → String → String → Role → HomeScope
scope_of account principal connection role = record {
  account_id = account;
  tenant_id = "ten_main";
  principal_id = principal;
  connection_id = connection;
  home_role = role;
  provider_label = "unspecified";
}

abbrev pub alice : ScopeArg
alice = scope_arg "acct_main" "prin_alice" "conn_alice" "admin"

abbrev pub alice_scope : HomeScope
alice_scope = scope_of "acct_main" "prin_alice" "conn_alice" admin

abbrev pub bob : ScopeArg
bob = scope_arg "acct_main" "prin_bob1" "conn_bob1" "member"

abbrev pub bob_scope : HomeScope
bob_scope = scope_of "acct_main" "prin_bob1" "conn_bob1" member

abbrev pub carol : ScopeArg
carol = scope_arg "acct_other" "prin_carol" "conn_carol" "admin"

abbrev pub carol_scope : HomeScope
carol_scope = scope_of "acct_other" "prin_carol" "conn_carol" admin

abbrev founding : Call
founding = ensure 1 "home_11111111" alice

abbrev pub joining : Call
joining = ensure 2 "home_22222222" bob

abbrev creating : Call
creating =
    create 3 "ibx_minted" alice
      (record {
        scope = str "home";
        plane = str "chat";
        label = str "main";
        inbox_id = str "ibx_main";
        grant_to_creator = bool true;
      })
      absent

abbrev pub request : Request
request = record {
  scope = alice_scope;
  selector = none;
  from_inbox_id = "ibx_main";
  targets = "ibx_main" ∷ [];
  message_id = "message-1";
  thread_id = "message-1";
  body = "hello";
}

abbrev pub founded_store : Store
founded_store = apply toy_digest founding empty_store

abbrev pub joined_store : Store
joined_store = apply toy_digest joining founded_store

abbrev pub inbox_store : Store
inbox_store = apply toy_digest creating joined_store

abbrev pub mail_store : Store
mail_store = apply toy_digest (commit 4 request) inbox_store

-- The Home of the account as its founding leaves it.
abbrev pub founded_home : Home
founded_home = record {
  home_id = "home_11111111";
  account_id = "acct_main";
  tenant_id = "ten_main";
  status = active;
  created_at = 1;
  connections =
      (
        "conn_alice",
        record {
          connection_id = "conn_alice";
          principal_id = "prin_alice";
          provider_label = "unspecified";
          role = admin;
          status = active;
          created_at = 1;
          revoked_at = none;
        },
      )
      ∷ [];
  inboxes = [];
  grants = [];
  messages = [];
  deliveries = [];
}

pub founded-Reachable : Reachable toy_digest founded_store
unfolding empty_store lookup
founded-Reachable = next here founding refl

pub joined-Reachable : Reachable toy_digest joined_store
unfolding apply ensure_default_home empty_store lookup settle ◌>>=◌ assert_home_scope matches_class
    audit save insert
joined-Reachable = next founded-Reachable joining refl

pub inbox-Reachable : Reachable toy_digest inbox_store
inbox-Reachable = next joined-Reachable creating tt

pub mail-Reachable : Reachable toy_digest mail_store
mail-Reachable = next inbox-Reachable (commit 4 request) tt
