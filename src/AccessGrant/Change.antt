-- ===== src/AccessGrant/Change.antt =====
-- src/access-grant.js: `revokeAccessGrant` and `markAccessGrantFirstRead`.
use cairnstone_v.Prelude.{
  String, none, some, Bool, true, false, not, ◌==◌, string_eq, if◌then◌else◌,
}
use cairnstone_v.Prelude.Dict.{lookup, insert}
use cairnstone_v.Prelude.Value.{Value}
use cairnstone_v.Prelude.Result.{Result, ok, fail, ◌>>=◌, ◌>>◌, unless, get_or}
use cairnstone_v.Prelude.Names.{named, actor_pattern, kind_pattern}
use cairnstone_v.AccessGrant.Rows.{
  GrantStatus, GrantRow, Table, GrantError, access_grant_not_found, invalid_access_grant_revoke,
  access_grant_revoke_forbidden, invalid_access_grant_mark_first_read,
  access_grant_first_read_forbidden, access_grant_revoked, access_grant_expired, AccessGrant,
  row_to_grant, select_grant, is_granted, is_first_read, is_revoked, is_expired,
}

-- An answer, with `already_revoked` or `already_first_read`.
pub record Changed : Type 0 where
  pub already : Bool
  pub access_grant : AccessGrant

-- `UPDATE access_grants SET ... WHERE grant_id = ? AND ...`
unfoldable pub update_where : String → (GrantRow → Bool) → (GrantRow → GrantRow) → Table → Table
update_where id test f t = elim (lookup id t) [
  | none ↦ t
  | some row ↦ if test row then insert id (f row) t else t
]

abbrev pub as_revoked : String → GrantRow → GrantRow
as_revoked now row = record row { status = GrantStatus.revoked; revoked_at = some now }

abbrev pub as_first_read : String → GrantRow → GrantRow
as_first_read now row = record row { status = GrantStatus.first_read; first_read_at = some now }

-- The grant of a call by its grantor.
unfoldable pub check_revoke : Value → Value → Table → Result GrantError (String × GrantRow)
check_revoke grant_id actor_id t = do
  id ← get_or (named (kind_pattern "grant") grant_id) invalid_access_grant_revoke
  actor ← get_or (named actor_pattern actor_id) invalid_access_grant_revoke
  row ← get_or (lookup id t) access_grant_not_found
  unless (row.grantor_actor_id == actor) access_grant_revoke_forbidden
  ok (id, row)

abbrev pub changed : Bool → Result GrantError AccessGrant → Result GrantError Changed
changed already (ok g) = ok (record { already = already; access_grant = g })
changed already (fail e) = fail e

unfoldable pub write_revoked : String → String → Table → Table
unfolding update_where
write_revoked now id t = update_where id (λ row. not (is_revoked row.status)) (as_revoked now) t

unfoldable pub revoke_access_grant :
    String → Value → Value → Table → Result GrantError Changed × Table
unfolding check_revoke write_revoked
revoke_access_grant now grant_id actor_id t = elim (check_revoke grant_id actor_id t) [
  | fail e ↦ (fail e, t)
  | ok (id, row) ↦
      if is_revoked row.status
      then (changed true (ok (row_to_grant row)), t)
      else (changed false (select_grant id (write_revoked now id t)), write_revoked now id t)
]

-- The grant of a call by its principal, neither revoked nor expired.
unfoldable pub check_first_read :
    String → Value → Value → Table → Result GrantError (String × GrantRow)
check_first_read now grant_id actor_id t = do
  id ← get_or (named (kind_pattern "grant") grant_id) invalid_access_grant_mark_first_read
  actor ← get_or (named actor_pattern actor_id) invalid_access_grant_mark_first_read
  row ← get_or (lookup id t) access_grant_not_found
  unless (row.principal_actor_id == actor) access_grant_first_read_forbidden
  unless (not (is_revoked row.status)) access_grant_revoked
  unless (not (is_expired row.expires_at now)) access_grant_expired
  ok (id, row)

unfoldable pub write_first_read : String → String → Table → Table
unfolding update_where
write_first_read now id t = update_where id (λ row. is_granted row.status) (as_first_read now) t

unfoldable pub mark_access_grant_first_read :
    String → Value → Value → Table → Result GrantError Changed × Table
unfolding check_first_read write_first_read
mark_access_grant_first_read now grant_id actor_id t =
    elim (check_first_read now grant_id actor_id t) [
      | fail e ↦ (fail e, t)
      | ok (id, row) ↦
          if is_first_read row.status then (changed true (ok (row_to_grant row)), t) else (
            changed false (select_grant id (write_first_read now id t)),
            write_first_read now id t,
          )
    ]
