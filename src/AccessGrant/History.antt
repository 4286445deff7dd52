-- ===== src/AccessGrant/History.antt =====
-- src/access-grant.js: the table over time, as the calls that write it.
pub mod Checks
pub mod Writes
pub mod Rows
pub mod Authority
pub mod Sound
use cairnstone_v.Prelude.{
  String, ◌≡◌, ◌≢◌, refl, sym, ◌∙◌, ap, subst, Option, none, some, Bool, true, false, not, ◌==◌,
  string_eq, if◌then◌else◌, arith, eq_iff, Bool-cases, Option-cases, inl, inr, ◌⊎◌,
}
use cairnstone_v.Prelude.Dict.{lookup, insert, lookup-insert}
use cairnstone_v.Prelude.Value.{Value, str}
use cairnstone_v.Prelude.Result.{
  Result, ok, fail, ◌>>=◌, ◌>>◌, bind-eq-ok, Result-cases, ok-injective, get_or, unless,
}
use cairnstone_v.Prelude.Names.{named, actor_pattern, kind_pattern}
use cairnstone_v.AccessGrant.Rows.{
  GrantStatus, GrantRow, Table, GrantError, AccessGrant, is_granted, is_first_read, is_revoked,
  is_expired, select_grant,
}
use cairnstone_v.AccessGrant.Create.{
  RefParser, CreateArgs, check_create, insert_grant, is_future, create_access_grant,
}
use cairnstone_v.AccessGrant.Change.{
  Changed, update_where, as_revoked, as_first_read, write_revoked, write_first_read, check_revoke,
  check_first_read, revoke_access_grant, mark_access_grant_first_read,
}
use cairnstone_v.AccessGrant.Bodies.{
  Receipt, write_notified, as_notified, Transport, CreateBody, maybe_notify_grant, after_create,
  with_notice, create_access_grant_from_body, revoke_access_grant_from_body,
  mark_access_grant_first_read_from_body,
}

-- The calls that write the table; each has the moment of its clock.
pub data Call : Type 0 where
  create : RefParser → String → String → CreateArgs → Call
  create_body : RefParser → Transport → String → String → CreateBody → Call
  revoke revoke_body first_read first_read_body : String → Value → Value → Call

unfoldable pub apply : Call → Table → Table
apply (create refs now minted a) t = (create_access_grant refs now minted a t).1
apply (create_body refs transport now minted b) t =
    (create_access_grant_from_body refs transport now minted b t).1
apply (revoke now id actor) t = (revoke_access_grant now id actor t).1
apply (revoke_body now id actor) t = (revoke_access_grant_from_body now id actor t).1
apply (first_read now id actor) t = (mark_access_grant_first_read now id actor t).1
apply (first_read_body now id actor) t = (mark_access_grant_first_read_from_body now id actor t).1

abbrev pub read_twice : Option String → Option String
read_twice none = none
read_twice (some a) = named actor_pattern (str a)

-- Who calls, where that is checked.
abbrev pub actor_of : Call → Option String
actor_of (create refs now minted a) = none
actor_of (create_body refs transport now minted b) = none
actor_of (revoke now id actor) = named actor_pattern actor
actor_of (revoke_body now id actor) = read_twice (named actor_pattern actor)
actor_of (first_read now id actor) = named actor_pattern actor
actor_of (first_read_body now id actor) = read_twice (named actor_pattern actor)

-- What a call may do to one row: its grantor revokes it, its principal reads it first, or the note
-- of its notice is written.
pub data RowStep (who : Option String) (r : GrantRow) : GrantRow → Type 0 where
  revocation :
      (now : String)
      → is_revoked r.status ≡ false
      → who ≡ some r.grantor_actor_id
      → RowStep who r (as_revoked now r)
  reading :
      (now : String)
      → is_granted r.status ≡ true
      → is_expired r.expires_at now ≡ false
      → who ≡ some r.principal_actor_id
      → RowStep who r (as_first_read now r)
  noting : (receipt : Receipt) → RowStep who r (as_notified receipt r)

-- A fresh row of a creation that passed its checks.
pub record IsNew (row : GrantRow) : Type 0 where
  pub status : is_granted row.status ≡ true
  pub unread : row.first_read_at ≡ none
  pub unrevoked : row.revoked_at ≡ none
  pub future : is_future row.expires_at row.created_at ≡ true

-- How a call may write the table.
pub data Write (who : Option String) (t : Table) : Table → Type 0 where
  untouched : Write who t t
  inserted :
      {t' : Table} (row : GrantRow)
      → Write who t t'
      → IsNew row
      → lookup row.grant_id t' ≡ none
      → Write who t (insert row.grant_id row t')
  updated :
      {t' : Table} (id : String) (row row' : GrantRow)
      → Write who t t'
      → lookup id t' ≡ some row
      → RowStep who row row'
      → Write who t (insert id row' t')

-- The tables that may come after a table.
pub data Later (t : Table) : Table → Type 0 where
  here : Later t t
  next : {u : Table} → Later t u → (c : Call) → Later t (apply c u)
