-- ===== src/RealmGuard/Examples.antt =====
-- A call on the legacy surface, and the theorems of the guard on it.
use cairnstone_v.Prelude.{◌≡◌, refl, false, [], ◌∷◌, ◌↔◌, string_eq}
use cairnstone_v.Prelude.Text.{trim, matches_class}
use cairnstone_v.Prelude.Value.{undefined, str}
use cairnstone_v.PrivateRealm.Check.{member, HomeScope, ◌>>=◌}
use cairnstone_v.PrivateRealm.Scope.{ScopeArg, fields, assert_home_scope}
use cairnstone_v.RealmGuard.{
  ActorFields, many, object, private_fields, forbidden, resolve_realm_guard_mode, apply_realm_guard,
}
use cairnstone_v.RealmGuard.Enforcement.{NamesPrivate, enforce_exact}
use cairnstone_v.RealmGuard.Addresses.{IsReserved, home_scope-IsReserved}

abbrev spoofed : ActorFields
spoofed = record {
  from = str "chatgpt:chat";
  recipient_id = undefined;
  actor_id = undefined;
  worker_actor_id = undefined;
  to = many (str "grok:home" ∷ str " Home:HOME_12345678 " ∷ []);
}

enforce_exact_example :
    (apply_realm_guard false (str "Enforce") "cairnstone_send_message" (object spoofed)
      ≡ forbidden (private_fields spoofed))
    ↔ NamesPrivate spoofed
unfolding resolve_realm_guard_mode trim
enforce_exact_example = enforce_exact (str "Enforce") "cairnstone_send_message" spoofed refl refl

abbrev scope_arg : ScopeArg
scope_arg = fields (record {
  account_id = str "acct_main";
  tenant_id = str "ten_main";
  principal_id = str "prin_main";
  connection_id = str "conn_main";
  home_role = undefined;
  provider_label = undefined;
  has_home_id = false;
  has_inbox_id = false;
})

abbrev scope : HomeScope
scope = record {
  account_id = "acct_main";
  tenant_id = "ten_main";
  principal_id = "prin_main";
  connection_id = "conn_main";
  home_role = member;
  provider_label = "unspecified";
}

home_scope-IsReserved_example : IsReserved scope
unfolding assert_home_scope ◌>>=◌ matches_class
home_scope-IsReserved_example = home_scope-IsReserved scope_arg scope refl
