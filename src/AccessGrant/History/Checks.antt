-- ===== src/AccessGrant/History/Checks.antt =====
-- src/access-grant.js: what the checks of a change establish.
use cairnstone_v.Prelude.{String, ◌≡◌, some, true, false, string_eq, arith, eq_iff}
use cairnstone_v.Prelude.Dict.{lookup}
use cairnstone_v.Prelude.Value.{Value}
use cairnstone_v.Prelude.Result.{ok, bind-eq-ok}
use cairnstone_v.Prelude.Names.{named, actor_pattern, kind_pattern}
use cairnstone_v.AccessGrant.Rows.{
  GrantStatus, GrantRow, Table, is_granted, is_first_read, is_revoked, is_expired,
}
use cairnstone_v.AccessGrant.Change.{check_revoke, check_first_read}

-- What the checks of a change establish.
pub record IsRevoker (actor : Value) (t : Table) (id : String) (row : GrantRow) : Type 0 where
  pub found : lookup id t ≡ some row
  pub who : named actor_pattern actor ≡ some row.grantor_actor_id

pub check_revoke-IsRevoker :
    (id actor : Value) (t : Table) (i : String) (row : GrantRow)
    → check_revoke id actor t ≡ ok (i, row)
    → IsRevoker actor t i row
unfolding check_revoke
check_revoke-IsRevoker id actor t i row h =
    let (i', e1, h1) = bind-eq-ok _ _ h in
    let (who, e2, h2) = bind-eq-ok _ _ h1 in
    let (row', e3, h3) = bind-eq-ok _ _ h2 in
    let (_, e4, h4) = bind-eq-ok _ _ h3 in
    record { found = ground arith; who = ground (arith, eq_iff row'.grantor_actor_id who) }

pub record IsReader (now : String) (actor : Value) (t : Table) (id : String) (row : GrantRow)
    : Type 0 where
  pub found : lookup id t ≡ some row
  pub who : named actor_pattern actor ≡ some row.principal_actor_id
  pub unrevoked : is_revoked row.status ≡ false
  pub unexpired : is_expired row.expires_at now ≡ false

pub check_first_read-IsReader :
    (now : String) (id actor : Value) (t : Table) (i : String) (row : GrantRow)
    → check_first_read now id actor t ≡ ok (i, row)
    → IsReader now actor t i row
unfolding check_first_read
check_first_read-IsReader now id actor t i row h =
    let (i', e1, h1) = bind-eq-ok _ _ h in
    let (who, e2, h2) = bind-eq-ok _ _ h1 in
    let (row', e3, h3) = bind-eq-ok _ _ h2 in
    let (_, e4, h4) = bind-eq-ok _ _ h3 in
    let (_, e5, h5) = bind-eq-ok _ _ h4 in
    let (_, e6, h6) = bind-eq-ok _ _ h5 in
    record {
      found = ground arith;
      who = ground (arith, eq_iff row'.principal_actor_id who);
      unrevoked = ground arith;
      unexpired = ground arith;
    }

pub check_first_read-id :
    (now : String) (id actor : Value) (t : Table) (i : String) (row : GrantRow) (j : String)
    → check_first_read now id actor t ≡ ok (i, row)
    → named (kind_pattern "grant") id ≡ some j
    → i ≡ j
unfolding check_first_read
check_first_read-id now id actor t i row j h known =
    let (i', e1, h1) = bind-eq-ok _ _ h in
    let (who, e2, h2) = bind-eq-ok _ _ h1 in
    let (row', e3, h3) = bind-eq-ok _ _ h2 in
    let (_, e4, h4) = bind-eq-ok _ _ h3 in
    let (_, e5, h5) = bind-eq-ok _ _ h4 in let (_, e6, h6) = bind-eq-ok _ _ h5 in ground arith

pub granted_left :
    (s : GrantStatus) → is_revoked s ≡ false → is_first_read s ≡ false → is_granted s ≡ true
granted_left s r f = ground arith
