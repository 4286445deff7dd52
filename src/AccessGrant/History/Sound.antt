-- ===== src/AccessGrant/History/Sound.antt =====
-- src/access-grant.js: what holds of every row of a table that the calls have built.
use cairnstone_v.Prelude.{
  subst₂, [], String, ◌≡◌, ◌≢◌, refl, Option, none, some, true, ◌==◌, string_eq, arith, eq_iff,
  Bool-cases, inl, inr,
}
use cairnstone_v.Prelude.Dict.{lookup, insert, lookup-insert}
use cairnstone_v.AccessGrant.Rows.{GrantRow, Table, is_granted, is_first_read, is_revoked}
use cairnstone_v.AccessGrant.Create.{is_future}
use cairnstone_v.AccessGrant.History.{
  apply, actor_of, RowStep, revocation, reading, noting, IsNew, Write, untouched, inserted, updated,
}
use cairnstone_v.AccessGrant.History.{Later, here, next}
use cairnstone_v.AccessGrant.History.Writes.{apply-Write}
use cairnstone_v.Prelude.Dict.{lookup-nil}

-- The marks of a row agree with its status, and its expiry lies behind its creation.
pub record IsSound (id : String) (r : GrantRow) : Type 0 where
  pub named : r.grant_id ≡ id
  pub granted : is_granted r.status ≡ true → (r.first_read_at ≡ none) × (r.revoked_at ≡ none)
  pub read : is_first_read r.status ≡ true → (r.first_read_at ≢ none) × (r.revoked_at ≡ none)
  pub revoked : is_revoked r.status ≡ true → r.revoked_at ≢ none
  pub future : is_future r.expires_at r.created_at ≡ true

abbrev IsSoundTable : Table → Type 0
IsSoundTable t = (id : String) (r : GrantRow) → lookup id t ≡ some r → IsSound id r

IsNew-IsSound : (r : GrantRow) → IsNew r → IsSound r.grant_id r
IsNew-IsSound r n = record {
  named = refl;
  granted = λ h. (n.unread, n.unrevoked);
  read = λ h. absurd (ground (arith, n.status));
  revoked = λ h. absurd (ground (arith, n.status));
  future = n.future;
}

step-IsSound :
    (who : Option String) (id : String) (r r' : GrantRow)
    → IsSound id r
    → RowStep who r r'
    → IsSound id r'
step-IsSound who id r _ s (revocation now n w) = record {
  named = s.named;
  granted = λ h. absurd (ground arith);
  read = λ h. absurd (ground arith);
  revoked = λ h e. cc;
  future = s.future;
}
step-IsSound who id r _ s (reading now g e w) = record {
  named = s.named;
  granted = λ h. absurd (ground arith);
  read = λ h. ((λ x. cc), (s.granted g).1);
  revoked = λ h. absurd (ground arith);
  future = s.future;
}
step-IsSound who id r _ s (noting receipt) = record {
  named = s.named;
  granted = s.granted;
  read = s.read;
  revoked = s.revoked;
  future = s.future;
}

insert-IsSound :
    (id : String) (r : GrantRow) (t : Table)
    → IsSound id r
    → IsSoundTable t
    → IsSoundTable (insert id r t)
insert-IsSound id r t s all j x e = elim (Bool-cases (id == j)) [
  | inl y ↦ subst₂ IsSound ((eq_iff id j).0 y) (ground (arith, lookup-insert id j r t)) s
  | inr n ↦ all j x (ground (arith, lookup-insert id j r t))
]

Write-IsSound :
    (who : Option String) (t t' : Table) → Write who t t' → IsSoundTable t → IsSoundTable t'
Write-IsSound who t _ untouched s = s
Write-IsSound who t _ (inserted {t'} row w n fresh) s =
    insert-IsSound row.grant_id row t' (IsNew-IsSound row n) (Write-IsSound who t t' w s)
Write-IsSound who t _ (updated {t'} id r r' w f step) s =
    let s' = Write-IsSound who t t' w s in
    insert-IsSound id r' t' (step-IsSound who id r r' (s' id r f) step) s'

Later-IsSound : {t u : Table} → Later t u → IsSoundTable t → IsSoundTable u
Later-IsSound here s = s
Later-IsSound (next {u} l c) s =
    Write-IsSound (actor_of c) u (apply c u) (apply-Write c u) (Later-IsSound l s)

-- In a table that any calls have built from an empty one, each row stands under its own id; a
-- `granted` row has neither mark, a row that was read has the mark of that and no revocation, a
-- revoked one has its date, and an expiry lies behind the creation.
pub reachable-IsSound :
    {t : Table} (id : String) (r : GrantRow) → Later [] t → lookup id t ≡ some r → IsSound id r
reachable-IsSound {t} id r l e = Later-IsSound l (λ j x h. absurd (lookup-none j x h)) id r e
  where
    lookup-none : (j : String) (x : GrantRow) → lookup j [] ≡ some x → ⊥
    lookup-none j x h = ground (arith, lookup-nil {V = GrantRow} j)
