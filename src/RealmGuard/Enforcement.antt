-- ===== src/RealmGuard/Enforcement.antt =====
-- src/realm-guard.js, `applyRealmGuard`: which calls are refused.
use cairnstone_v.Prelude.{
  String, ◌≡◌, ◌≢◌, refl, true, false, string_eq, arith, ◌↔◌, ◌⊎◌, List, [], ◌∷◌, contains,
}
use cairnstone_v.Prelude.Value.{Value}
use cairnstone_v.RealmGuard.{
  enforce, ac1_mailbox_tools, resolve_realm_guard_mode, is_private_realm_actor, private_recipients,
  ActorFields, object, private_fields, find_private_realm_actor_fields, forbidden, gate_found,
  apply_realm_guard,
}

-- An actor field that names the private realm.
abbrev pub NamesPrivate : ActorFields → Type 0
NamesPrivate a =
    (is_private_realm_actor a.from ≡ true)
    ⊎ ((is_private_realm_actor a.recipient_id ≡ true)
        ⊎ ((is_private_realm_actor a.actor_id ≡ true)
            ⊎ ((is_private_realm_actor a.worker_actor_id ≡ true)
                ⊎ (private_recipients a.to ≡ true))))

private_fields-some : (a : ActorFields) → NamesPrivate a → private_fields a ≢ []
unfolding private_fields
private_fields-some a p h = ground arith

private_fields-none : (a : ActorFields) → private_fields a ≢ [] → NamesPrivate a
unfolding private_fields
private_fields-none a n = ground arith

found_forbidden : (fs : List String) → fs ≢ [] → gate_found enforce fs ≡ forbidden fs
found_forbidden [] n = absurd (n refl)
found_forbidden (f ∷ fs) n = refl

forbidden_found : (fs gs : List String) → gate_found enforce fs ≡ forbidden gs → fs ≢ []
forbidden_found [] gs h = cc
forbidden_found (f ∷ fs) gs h = λ e. cc

-- Under `enforce`, a mailbox tool's call without authentication is refused exactly where one of its
-- actor fields or recipients names the private realm.
pub enforce_exact :
    (env : Value) (tool : String) (a : ActorFields)
    → resolve_realm_guard_mode env ≡ enforce
    → contains tool ac1_mailbox_tools ≡ true
    → (apply_realm_guard false env tool (object a) ≡ forbidden (private_fields a)) ↔ NamesPrivate a
unfolding apply_realm_guard find_private_realm_actor_fields
enforce_exact env tool a m t = (
  (λ h. private_fields-none a (
      forbidden_found (private_fields a) (private_fields a)
        (rw (m, t, apply_realm_guard, find_private_realm_actor_fields) at h))),
  (λ p.
      rw (m, t, apply_realm_guard, find_private_realm_actor_fields)
        (found_forbidden (private_fields a) (private_fields-some a p))),
)
