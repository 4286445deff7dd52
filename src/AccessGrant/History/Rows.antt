-- ===== src/AccessGrant/History/Rows.antt =====
-- src/access-grant.js: what the calls leave of a row, in any order and number.
use cairnstone_v.Prelude.{
  String, ◌≡◌, refl, sym, ◌∙◌, subst, Option, some, Bool, true, false, ◌==◌, string_eq, arith,
  eq_iff, Bool-cases, inl, inr,
}
use cairnstone_v.Prelude.Dict.{lookup, lookup-insert}
use cairnstone_v.AccessGrant.Rows.{GrantStatus, GrantRow, Table, is_granted, is_revoked}
use cairnstone_v.AccessGrant.History.{
  apply, actor_of, RowStep, revocation, reading, noting, Write, untouched, inserted, updated,
}
use cairnstone_v.AccessGrant.History.{Later, here, next}
use cairnstone_v.AccessGrant.History.Writes.{apply-Write}

-- What stays of a row: who gives what to whom until when, and every mark that is set.
pub record RowLater (r r' : GrantRow) : Type 0 where
  pub grant_id : r'.grant_id ≡ r.grant_id
  pub object_ref : r'.object_ref ≡ r.object_ref
  pub principal : r'.principal_actor_id ≡ r.principal_actor_id
  pub permission : r'.permission ≡ r.permission
  pub grantor : r'.grantor_actor_id ≡ r.grantor_actor_id
  pub created : r'.created_at ≡ r.created_at
  pub expires : r'.expires_at ≡ r.expires_at
  pub revoked : is_revoked r.status ≡ true → is_revoked r'.status ≡ true
  pub revoked_at : is_revoked r.status ≡ true → r'.revoked_at ≡ r.revoked_at
  pub marked : is_granted r'.status ≡ true → is_granted r.status ≡ true
  pub read_at : is_granted r.status ≡ false → r'.first_read_at ≡ r.first_read_at

RowLater-refl : (r : GrantRow) → RowLater r r
RowLater-refl r = record {
  grant_id = refl;
  object_ref = refl;
  principal = refl;
  permission = refl;
  grantor = refl;
  created = refl;
  expires = refl;
  revoked = λ h. h;
  revoked_at = λ h. refl;
  marked = λ h. h;
  read_at = λ h. refl;
}

granted-apart : (s : GrantStatus) → is_granted s ≡ true → is_revoked s ≡ false
granted-apart s h = ground arith

RowLater-step : (who : Option String) (r r' : GrantRow) → RowStep who r r' → RowLater r r'
RowLater-step who r _ (revocation now n w) = record {
  grant_id = refl;
  object_ref = refl;
  principal = refl;
  permission = refl;
  grantor = refl;
  created = refl;
  expires = refl;
  revoked = λ h. refl;
  revoked_at = λ h. absurd (ground arith);
  marked = λ h. absurd (ground arith);
  read_at = λ h. refl;
}
RowLater-step who r _ (reading now g e w) = record {
  grant_id = refl;
  object_ref = refl;
  principal = refl;
  permission = refl;
  grantor = refl;
  created = refl;
  expires = refl;
  revoked = λ h. absurd (ground (arith, granted-apart r.status g));
  revoked_at = λ h. refl;
  marked = λ h. absurd (ground arith);
  read_at = λ h. absurd (ground arith);
}
RowLater-step who r _ (noting receipt) = record {
  grant_id = refl;
  object_ref = refl;
  principal = refl;
  permission = refl;
  grantor = refl;
  created = refl;
  expires = refl;
  revoked = λ h. h;
  revoked_at = λ h. refl;
  marked = λ h. h;
  read_at = λ h. refl;
}

not_granted : (b : Bool) (c : Bool) → (b ≡ true → c ≡ true) → c ≡ false → b ≡ false
not_granted b c f h = ground arith

RowLater-trans : (r r' r'' : GrantRow) → RowLater r r' → RowLater r' r'' → RowLater r r''
RowLater-trans r r' r'' f g = record {
  grant_id = g.grant_id ∙ f.grant_id;
  object_ref = g.object_ref ∙ f.object_ref;
  principal = g.principal ∙ f.principal;
  permission = g.permission ∙ f.permission;
  grantor = g.grantor ∙ f.grantor;
  created = g.created ∙ f.created;
  expires = g.expires ∙ f.expires;
  revoked = λ h. g.revoked (f.revoked h);
  revoked_at = λ h. g.revoked_at (f.revoked h) ∙ f.revoked_at h;
  marked = λ h. f.marked (g.marked h);
  read_at = λ h. g.read_at (not_granted _ _ f.marked h) ∙ f.read_at h;
}

-- A row of the table after `t` that follows from a row of before.
pub record Survives (id : String) (row : GrantRow) (t : Table) : Type 0 where
  pub row_now : GrantRow
  pub found : lookup id t ≡ some row_now
  pub later : RowLater row row_now

Write-Survives :
    (who : Option String) (id : String) (row : GrantRow) (t t' : Table)
    → Write who t t'
    → lookup id t ≡ some row
    → Survives id row t'
Write-Survives who id row t _ untouched e = record {
  row_now = row;
  found = e;
  later = RowLater-refl row;
}
Write-Survives who id row t _ (inserted {t'} new w n fresh) e =
    let s = Write-Survives who id row t t' w e in
    record {
      row_now = s.row_now;
      found = ground (arith, lookup-insert new.grant_id id new t', s.found, eq_iff new.grant_id id);
      later = s.later;
    }
Write-Survives who id row t _ (updated {t'} i r r' w f step) e =
    let s = Write-Survives who id row t t' w e in
    elim (Bool-cases (i == id)) [
      | inl y ↦
          let same : s.row_now ≡ r = ground (arith, s.found, f, eq_iff i id) in
          record {
            row_now = r';
            found = ground (arith, lookup-insert i id r' t');
            later =
                RowLater-trans row s.row_now r' s.later
                  (subst (λ x. RowLater x r') (sym same) (RowLater-step who r r' step));
          }
      | inr n ↦ record {
        row_now = s.row_now;
        found = ground (arith, lookup-insert i id r' t', s.found);
        later = s.later;
      }
    ]

-- A row that stands in the table stands there after any calls, with its object, its principal, its
-- permission, its grantor and its two dates; it is revoked from its revocation on, with the date of
-- that, it is not `granted` again after a first read, and that keeps its date.
pub Later-Survives :
    {t u : Table} (id : String) (row : GrantRow)
    → Later t u
    → lookup id t ≡ some row
    → Survives id row u
Later-Survives id row here e = record { row_now = row; found = e; later = RowLater-refl row }
Later-Survives id row (next {u} l c) e =
    let s = Later-Survives id row l e in
    let s' = Write-Survives (actor_of c) id s.row_now u (apply c u) (apply-Write c u) s.found in
    record {
      row_now = s'.row_now;
      found = s'.found;
      later = RowLater-trans row s.row_now s'.row_now s.later s'.later;
    }
