-- ===== src/AccessGrant/History/Authority.antt =====
-- src/access-grant.js: who changes a grant.
use cairnstone_v.Prelude.{
  String, ◌≡◌, ◌≢◌, refl, sym, ◌∙◌, ap, subst, Option, some, true, ◌==◌, string_eq, arith, eq_iff,
  Bool-cases, inl, inr, ◌⊎◌,
}
use cairnstone_v.Prelude.Dict.{lookup, lookup-insert}
use cairnstone_v.Prelude.Value.{Value}
use cairnstone_v.Prelude.Result.{ok, Result-cases, fail-ne-ok}
use cairnstone_v.Prelude.Names.{named, kind_pattern}
use cairnstone_v.AccessGrant.Rows.{GrantRow, Table, is_revoked}
use cairnstone_v.AccessGrant.Change.{Changed, check_first_read, mark_access_grant_first_read}
use cairnstone_v.AccessGrant.History.{
  Call, apply, actor_of, RowStep, revocation, noting, Write, untouched, inserted, updated,
}
use cairnstone_v.AccessGrant.History.{Later}
use cairnstone_v.AccessGrant.History.Writes.{apply-Write}
use cairnstone_v.AccessGrant.History.Checks.{check_first_read-IsReader, check_first_read-id}
use cairnstone_v.AccessGrant.History.Rows.{Later-Survives}

-- A change of a row between two moments, with the caller that it needs.
pub record IsAuthorised (who : Option String) (r r' : GrantRow) : Type 0 where
  pub grantor : r'.grantor_actor_id ≡ r.grantor_actor_id
  pub principal : r'.principal_actor_id ≡ r.principal_actor_id
  pub ending :
      ((is_revoked r'.status ≡ is_revoked r.status) × (r'.revoked_at ≡ r.revoked_at))
      ⊎ (who ≡ some r.grantor_actor_id)
  pub reading : (r'.first_read_at ≡ r.first_read_at) ⊎ (who ≡ some r.principal_actor_id)

IsAuthorised-step :
    (who : Option String) (r r' : GrantRow) → RowStep who r r' → IsAuthorised who r r'
IsAuthorised-step who r _ (revocation now n w) = record {
  grantor = refl;
  principal = refl;
  ending = inr w;
  reading = inl refl;
}
IsAuthorised-step who r _ (RowStep.reading now g e w) = record {
  grantor = refl;
  principal = refl;
  ending = inl (ground arith, refl);
  reading = inr w;
}
IsAuthorised-step who r _ (noting receipt) = record {
  grantor = refl;
  principal = refl;
  ending = inl (refl, refl);
  reading = inl refl;
}

or_before :
    {A : Type 0} {who : Option String} {p p' : String} {x y z : A}
    → p' ≡ p
    → (y ≡ x) ⊎ (who ≡ some p)
    → (z ≡ y) ⊎ (who ≡ some p')
    → (z ≡ x) ⊎ (who ≡ some p)
or_before e (inl f) (inl g) = inl (g ∙ f)
or_before e (inr w) g = inr w
or_before e (inl f) (inr w) = inr (w ∙ ap some e)

both_before :
    {A B : Type 0} {who : Option String} {p p' : String} {x y z : A} {a b c : B}
    → p' ≡ p
    → ((y ≡ x) × (b ≡ a)) ⊎ (who ≡ some p)
    → ((z ≡ y) × (c ≡ b)) ⊎ (who ≡ some p')
    → ((z ≡ x) × (c ≡ a)) ⊎ (who ≡ some p)
both_before e (inl (f, f')) (inl (g, g')) = inl (g ∙ f, g' ∙ f')
both_before e (inr w) g = inr w
both_before e (inl f) (inr w) = inr (w ∙ ap some e)

IsAuthorised-trans :
    (who : Option String) (r r' r'' : GrantRow)
    → IsAuthorised who r r'
    → IsAuthorised who r' r''
    → IsAuthorised who r r''
IsAuthorised-trans who r r' r'' f g = record {
  grantor = g.grantor ∙ f.grantor;
  principal = g.principal ∙ f.principal;
  ending = both_before f.grantor f.ending g.ending;
  reading = or_before f.principal f.reading g.reading;
}

-- A row of before, its state now, and the caller's right to the change.
pub record Changes (who : Option String) (id : String) (row : GrantRow) (t : Table) : Type 0 where
  pub row_now : GrantRow
  pub found : lookup id t ≡ some row_now
  pub authorised : IsAuthorised who row row_now

Write-Changes :
    (who : Option String) (id : String) (row : GrantRow) (t t' : Table)
    → Write who t t'
    → lookup id t ≡ some row
    → Changes who id row t'
Write-Changes who id row t _ untouched e = record {
  row_now = row;
  found = e;
  authorised = record {
    grantor = refl;
    principal = refl;
    ending = inl (refl, refl);
    reading = inl refl;
  };
}
Write-Changes who id row t _ (inserted {t'} new w n fresh) e =
    let s = Write-Changes who id row t t' w e in
    record {
      row_now = s.row_now;
      found = ground (arith, lookup-insert new.grant_id id new t', s.found, eq_iff new.grant_id id);
      authorised = s.authorised;
    }
Write-Changes who id row t _ (updated {t'} i r r' w f step) e =
    let s = Write-Changes who id row t t' w e in
    elim (Bool-cases (i == id)) [
      | inl y ↦
          let same : s.row_now ≡ r = ground (arith, s.found, f, eq_iff i id) in
          record {
            row_now = r';
            found = ground (arith, lookup-insert i id r' t');
            authorised =
                IsAuthorised-trans who row s.row_now r' s.authorised
                  (subst (λ x. IsAuthorised who x r') (sym same) (IsAuthorised-step who r r' step));
          }
      | inr n ↦ record {
        row_now = s.row_now;
        found = ground (arith, lookup-insert i id r' t', s.found);
        authorised = s.authorised;
      }
    ]

-- One call leaves every row in the table; it changes whether and when the row was revoked only if
-- its caller is the row's grantor, and when it was first read only if its caller is the row's
-- principal. A creation has no such caller.
pub apply-Changes :
    (c : Call) (t : Table) (id : String) (row : GrantRow)
    → lookup id t ≡ some row
    → Changes (actor_of c) id row (apply c t)
apply-Changes c t id row e = Write-Changes (actor_of c) id row t (apply c t) (apply-Write c t) e

-- A grant that stands revoked in the table is never read for the first time again: after any calls,
-- by any actor and at any moment, the call for its id gives no answer that is ok.
pub first_read_refused :
    {t u : Table} (id : String) (row : GrantRow) (now : String) (id_arg actor : Value)
    → lookup id t ≡ some row
    → is_revoked row.status ≡ true
    → Later t u
    → named (kind_pattern "grant") id_arg ≡ some id
    → (c : Changed) → (mark_access_grant_first_read now id_arg actor u).0 ≢ ok c
unfolding mark_access_grant_first_read
first_read_refused {u} id row now id_arg actor e y l known c h =
    elim (Result-cases (check_first_read now id_arg actor u)) [
      | inr (x, f) ↦ absurd (fail-ne-ok (rw (f, mark_access_grant_first_read) at h))
      | inl ((i, r), f) ↦
          let s = Later-Survives id row l e in
          let reader = check_first_read-IsReader now id_arg actor u i r f in
          let same : i ≡ id = check_first_read-id now id_arg actor u i r id f known in
          absurd (ground (arith, s.later.revoked y, s.found, reader.found, reader.unrevoked))
    ]
