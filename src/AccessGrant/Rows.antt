-- ===== src/AccessGrant/Rows.antt =====
-- src/access-grant.js: the rows of `access_grants`, and how a row is shown.
-- The table is a map from its primary key to the rows, in the order of insertion.
use cairnstone_v.Prelude.{
  String, Option, none, some, Bool, true, false, not, ◌&&◌, ◌||◌, ◌==◌, string_eq, if◌then◌else◌,
}
use cairnstone_v.Prelude.Dict.{Dict, lookup}
use cairnstone_v.Prelude.Text.{text_le}
use cairnstone_v.Prelude.Value.{Value, as_string}
use cairnstone_v.Prelude.Result.{Result, ok, fail}

pub data Permission : Type 0 where
  read discuss execute_against : Permission

pub data GrantStatus : Type 0 where
  granted first_read revoked : GrantStatus

-- Timestamps are ISO texts; `NULL` is none.
pub record GrantRow : Type 0 where
  pub grant_id : String
  pub object_ref : String
  pub principal_actor_id : String
  pub permission : Permission
  pub grantor_actor_id : String
  pub created_at : String
  pub expires_at : Option String
  pub revoked_at : Option String
  pub status : GrantStatus
  pub first_read_at : Option String
  pub notify : Bool
  pub notify_message_id : Option String
  pub notify_stone_hash : Option String

abbrev pub Table : Type 0
Table = Dict String GrantRow

-- The `error` of an answer that is not ok; `bad_ref` is the one that `normalizeObjectRef` gives, and
-- `type_error` the TypeError of a read through `null`.
pub data GrantError : Type 0 where
  invalid_access_grant_create invalid_permission invalid_expires_at : GrantError
  expires_at_must_be_future access_grant_already_exists invalid_access_grant_get : GrantError
  access_grant_not_found access_grant_actor_forbidden invalid_actor_id invalid_status : GrantError
  invalid_principal_actor_id invalid_grantor_actor_id invalid_access_grant_revoke : GrantError
  access_grant_revoke_forbidden invalid_access_grant_mark_first_read : GrantError
  access_grant_first_read_forbidden access_grant_revoked access_grant_expired : GrantError
  grant_id_required type_error : GrantError
  bad_ref : String → GrantError

-- What a caller is shown of a row.
pub record AccessGrant : Type 0 where
  pub row : GrantRow
  pub execute_against_recorded_only : Bool

abbrev pub recorded_only : Permission → Bool
recorded_only read = false
recorded_only discuss = false
recorded_only execute_against = true

-- `text || null`
abbrev pub text_or_null : Option String → Option String
text_or_null none = none
text_or_null (some s) = if s == "" then none else some s

unfoldable pub row_to_grant : GrantRow → AccessGrant
row_to_grant row = record {
  row = record row {
    expires_at = text_or_null row.expires_at;
    revoked_at = text_or_null row.revoked_at;
    first_read_at = text_or_null row.first_read_at;
    notify_message_id = text_or_null row.notify_message_id;
    notify_stone_hash = text_or_null row.notify_stone_hash;
  };
  execute_against_recorded_only = recorded_only row.permission;
}

-- `rowToGrant(await selectGrant(db, id))`
unfoldable pub select_grant : String → Table → Result GrantError AccessGrant
unfolding row_to_grant
select_grant id t = elim (lookup id t) [ none ↦ fail type_error | some row ↦ ok (row_to_grant row) ]

abbrev pub actor_may_inspect_grant : GrantRow → String → Bool
actor_may_inspect_grant row actor = row.grantor_actor_id == actor || row.principal_actor_id == actor

abbrev pub is_expired : Option String → String → Bool
is_expired none now = false
is_expired (some e) now = not (e == "") && text_le e now

abbrev permission_named : String → Option Permission
permission_named s =
    if s == "read"
    then some read
    else if s == "discuss"
    then some discuss
    else if s == "execute-against"
    then some execute_against
    else none

-- `PERMISSION_SET.has(v)`
abbrev pub parse_permission : Value → Option Permission
parse_permission v = elim (as_string v) [ none ↦ none | some s ↦ permission_named s ]

abbrev pub is_granted : GrantStatus → Bool
is_granted granted = true
is_granted first_read = false
is_granted revoked = false

abbrev pub is_first_read : GrantStatus → Bool
is_first_read granted = false
is_first_read first_read = true
is_first_read revoked = false

abbrev pub is_revoked : GrantStatus → Bool
is_revoked granted = false
is_revoked first_read = false
is_revoked revoked = true
