-- ===== src/AccessGrant/Shown.antt =====
-- src/access-grant.js, `rowToGrant`: each column of a row as a caller is shown it.
use cairnstone_v.Prelude.{
  String, ◌≡◌, ◌≢◌, refl, sym, ◌∙◌, Bool, true, false, Option, none, some, ◌↔◌, inl, inr, string_eq,
  ◌==◌, eq_iff, Bool-cases, some-injective, none-ne-some,
}
use cairnstone_v.AccessGrant.Rows.{
  Permission, read, discuss, execute_against, GrantRow, AccessGrant, text_or_null, recorded_only,
  row_to_grant,
}

-- An optional column is shown as its text, where it has one that is not empty.
abbrev IsShownText : Option String → Option String → Type 0
IsShownText column shown = (s : String) → (shown ≡ some s) ↔ ((column ≡ some s) × (s ≢ ""))

pub record IsGrantOf (row : GrantRow) (g : AccessGrant) : Type 0 where
  pub grant_id : g.row.grant_id ≡ row.grant_id
  pub object_ref : g.row.object_ref ≡ row.object_ref
  pub principal : g.row.principal_actor_id ≡ row.principal_actor_id
  pub permission : g.row.permission ≡ row.permission
  pub grantor : g.row.grantor_actor_id ≡ row.grantor_actor_id
  pub created_at : g.row.created_at ≡ row.created_at
  pub expires_at : IsShownText row.expires_at g.row.expires_at
  pub revoked_at : IsShownText row.revoked_at g.row.revoked_at
  pub status : g.row.status ≡ row.status
  pub first_read_at : IsShownText row.first_read_at g.row.first_read_at
  pub notify : g.row.notify ≡ row.notify
  pub message_id : IsShownText row.notify_message_id g.row.notify_message_id
  pub stone_hash : IsShownText row.notify_stone_hash g.row.notify_stone_hash
  pub recorded_only :
      (g.execute_against_recorded_only ≡ true) ↔ (row.permission ≡ Permission.execute_against)

text_or_null-IsShownText : (o : Option String) → IsShownText o (text_or_null o)
text_or_null-IsShownText none s =
    ((λ h. absurd (none-ne-some h)), (λ (h, _). absurd (none-ne-some h)))
text_or_null-IsShownText (some x) s = elim (Bool-cases (x == "")) [
  | inl y ↦ rw y (
    (λ h. absurd (none-ne-some h)),
    (λ (e, n). absurd (n (sym (some-injective e) ∙ (eq_iff x "").0 y))),
  )
  | inr f ↦ rw f (
    (λ e. (e, (λ k. false-ne-true (sym f ∙ (eq_iff x "").1 (some-injective e ∙ k))))),
    (λ (e, n). e),
  )
]
  where
    false-ne-true : false ≡ true → ⊥
    false-ne-true h = cc

recorded_only_iff : (p : Permission) → (recorded_only p ≡ true) ↔ (p ≡ Permission.execute_against)
recorded_only_iff read = ((λ h. cc), (λ h. cc))
recorded_only_iff discuss = ((λ h. cc), (λ h. cc))
recorded_only_iff execute_against = ((λ h. refl), (λ h. refl))

pub row_to_grant-IsGrantOf : (row : GrantRow) → IsGrantOf row (row_to_grant row)
unfolding row_to_grant
row_to_grant-IsGrantOf row = record {
  grant_id = refl;
  object_ref = refl;
  principal = refl;
  permission = refl;
  grantor = refl;
  created_at = refl;
  expires_at = text_or_null-IsShownText row.expires_at;
  revoked_at = text_or_null-IsShownText row.revoked_at;
  status = refl;
  first_read_at = text_or_null-IsShownText row.first_read_at;
  notify = refl;
  message_id = text_or_null-IsShownText row.notify_message_id;
  stone_hash = text_or_null-IsShownText row.notify_stone_hash;
  recorded_only = recorded_only_iff row.permission;
}

-- A column is shown in one way.
shown-same : (o x y : Option String) → IsShownText o x → IsShownText o y → x ≡ y
shown-same o none none f g = refl
shown-same o none (some s) f g = (f s).1 ((g s).0 refl)
shown-same o (some s) y f g = sym ((g s).1 ((f s).0 refl))

flag-same : (P : Type 0) (a b : Bool) → ((a ≡ true) ↔ P) → ((b ≡ true) ↔ P) → a ≡ b
flag-same P true b f g = sym (g.1 (f.0 refl))
flag-same P false true f g = f.1 (g.0 refl)
flag-same P false false f g = refl

pub IsGrantOf-same :
    (row : GrantRow) (g h : AccessGrant) → IsGrantOf row g → IsGrantOf row h → g ≡ h
IsGrantOf-same row g h s t =
    assembled g h (s.grant_id ∙ sym t.grant_id) (s.object_ref ∙ sym t.object_ref)
      (s.principal ∙ sym t.principal) (s.permission ∙ sym t.permission) (s.grantor ∙ sym t.grantor)
      (s.created_at ∙ sym t.created_at) (shown-same _ _ _ s.expires_at t.expires_at)
      (shown-same _ _ _ s.revoked_at t.revoked_at) (s.status ∙ sym t.status)
      (shown-same _ _ _ s.first_read_at t.first_read_at) (s.notify ∙ sym t.notify)
      (shown-same _ _ _ s.message_id t.message_id) (shown-same _ _ _ s.stone_hash t.stone_hash)
      (flag-same (row.permission ≡ Permission.execute_against) _ _ s.recorded_only t.recorded_only)
  where
    assembled :
        (g h : AccessGrant)
        → g.row.grant_id ≡ h.row.grant_id
        → g.row.object_ref ≡ h.row.object_ref
        → g.row.principal_actor_id ≡ h.row.principal_actor_id
        → g.row.permission ≡ h.row.permission
        → g.row.grantor_actor_id ≡ h.row.grantor_actor_id
        → g.row.created_at ≡ h.row.created_at
        → g.row.expires_at ≡ h.row.expires_at
        → g.row.revoked_at ≡ h.row.revoked_at
        → g.row.status ≡ h.row.status
        → g.row.first_read_at ≡ h.row.first_read_at
        → g.row.notify ≡ h.row.notify
        → g.row.notify_message_id ≡ h.row.notify_message_id
        → g.row.notify_stone_hash ≡ h.row.notify_stone_hash
        → g.execute_against_recorded_only ≡ h.execute_against_recorded_only
        → g ≡ h
    assembled g h a b c d e f i j k l m n o p = λ t. record {
      row = record {
        grant_id = a t;
        object_ref = b t;
        principal_actor_id = c t;
        permission = d t;
        grantor_actor_id = e t;
        created_at = f t;
        expires_at = i t;
        revoked_at = j t;
        status = k t;
        first_read_at = l t;
        notify = m t;
        notify_message_id = n t;
        notify_stone_hash = o t;
      };
      execute_against_recorded_only = p t;
    }
