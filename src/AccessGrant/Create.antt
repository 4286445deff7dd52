-- ===== src/AccessGrant/Create.antt =====
-- src/access-grant.js, `createAccessGrant`.
use cairnstone_v.Prelude.{
  String, Option, none, some, Bool, true, not, ◌==◌, string_eq, if◌then◌else◌,
}
use cairnstone_v.Prelude.Dict.{lookup, insert}
use cairnstone_v.Prelude.Text.{text_le}
use cairnstone_v.Prelude.Value.{Value, undefined, null, other, bool, nat, neg, str, truthy}
use cairnstone_v.Prelude.Result.{Result, ok, fail, ◌>>=◌, ◌>>◌, unless, get_or}
use cairnstone_v.Prelude.Names.{named, actor_pattern, kind_pattern, nonempty_text}
use cairnstone_v.AccessGrant.Rows.{
  GrantStatus, GrantRow, Table, GrantError, bad_ref, invalid_access_grant_create,
  invalid_permission, invalid_expires_at, expires_at_must_be_future, access_grant_already_exists,
  AccessGrant, select_grant, parse_permission,
}

pub record CreateArgs : Type 0 where
  pub grant_id : Value
  pub object_ref : Value
  pub principal_actor_id : Value
  pub permission : Value
  pub grantor_actor_id : Value
  pub expires_at : Value
  pub notify : Bool

-- `normalizeObjectRef`: the canonical reference, or the error of `parseObjectRef`.
abbrev pub RefParser : Type 0
RefParser = Value → Result String String

abbrev pub normalize_object_ref : RefParser → Value → Result GrantError String
normalize_object_ref refs v = elim (refs v) [ ok r ↦ ok r | fail e ↦ fail (bad_ref e) ]

-- `grant_id ? grantId(grant_id) : "grant:" + uuid`
abbrev pub grant_id_or : Value → String → Option String
grant_id_or v minted = if truthy v then named (kind_pattern "grant") v else some minted

abbrev expiry : Value → Result GrantError (Option String)
expiry undefined = ok none
expiry null = ok none
expiry other = fail invalid_expires_at
expiry (bool b) = fail invalid_expires_at
expiry (nat n) = fail invalid_expires_at
expiry (neg n) = fail invalid_expires_at
expiry (str s) =
    if s == ""
    then ok none
    else elim (nonempty_text (str s)) [ none ↦ fail invalid_expires_at | some e ↦ ok (some e) ]

-- An expiry that is given lies behind the creation.
abbrev pub is_future : Option String → String → Bool
is_future none now = true
is_future (some e) now = not (text_le e now)

-- What is checked before the row is written; `now` is the moment, `minted` a fresh id.
unfoldable pub check_create : RefParser → String → String → CreateArgs → Result GrantError GrantRow
check_create refs now minted a = do
  grantor ← get_or (named actor_pattern a.grantor_actor_id) invalid_access_grant_create
  principal ← get_or (named actor_pattern a.principal_actor_id) invalid_access_grant_create
  id ← get_or (grant_id_or a.grant_id minted) invalid_access_grant_create
  permission ← get_or (parse_permission a.permission) invalid_permission
  ref ← normalize_object_ref refs a.object_ref
  expires ← expiry a.expires_at
  unless (is_future expires now) expires_at_must_be_future
  ok (record {
    grant_id = id;
    object_ref = ref;
    principal_actor_id = principal;
    permission = permission;
    grantor_actor_id = grantor;
    created_at = now;
    expires_at = expires;
    revoked_at = none;
    status = GrantStatus.granted;
    first_read_at = none;
    notify = a.notify;
    notify_message_id = none;
    notify_stone_hash = none;
  })

-- `INSERT`: the primary key refuses a second row of an id.
unfoldable pub insert_grant : GrantRow → Table → Result GrantError AccessGrant × Table
unfolding select_grant
insert_grant row t = elim (lookup row.grant_id t) [
  | some old ↦ (fail access_grant_already_exists, t)
  | none ↦ (select_grant row.grant_id (insert row.grant_id row t), insert row.grant_id row t)
]

unfoldable pub create_access_grant :
    RefParser → String → String → CreateArgs → Table → Result GrantError AccessGrant × Table
unfolding check_create insert_grant
create_access_grant refs now minted a t = elim (check_create refs now minted a) [
  | fail e ↦ (fail e, t)
  | ok row ↦ insert_grant row t
]
