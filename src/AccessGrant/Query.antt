-- ===== src/AccessGrant/Query.antt =====
-- src/access-grant.js: `getAccessGrant` and `listAccessGrants`.
use cairnstone_v.Prelude.{
  ℕ, String, Option, none, some, Bool, true, false, ◌&&◌, ◌==◌, string_eq, if◌then◌else◌, List, min,
  max, map,
}
use cairnstone_v.Prelude.Dict.{lookup, values}
use cairnstone_v.Prelude.Newest.{query_newest}
use cairnstone_v.Prelude.Value.{Value, undefined, null, other, bool, nat, neg, str, truthy}
use cairnstone_v.Prelude.Result.{Result, ok, fail, ◌>>=◌, ◌>>◌, unless, get_or}
use cairnstone_v.Prelude.Names.{named, actor_pattern, kind_pattern}
use cairnstone_v.AccessGrant.Rows.{
  GrantStatus, GrantRow, Table, GrantError, invalid_access_grant_get, access_grant_not_found,
  access_grant_actor_forbidden, invalid_actor_id, invalid_status, invalid_principal_actor_id,
  invalid_grantor_actor_id, AccessGrant, row_to_grant, actor_may_inspect_grant, is_granted,
  is_first_read, is_revoked,
}
use cairnstone_v.AccessGrant.Create.{RefParser, normalize_object_ref}

unfoldable pub get_access_grant : Value → Value → Table → Result GrantError AccessGrant
get_access_grant grant_id actor_id t = do
  id ← get_or (named (kind_pattern "grant") grant_id) invalid_access_grant_get
  actor ← get_or (named actor_pattern actor_id) invalid_access_grant_get
  row ← get_or (lookup id t) access_grant_not_found
  unless (actor_may_inspect_grant row actor) access_grant_actor_forbidden
  ok (row_to_grant row)

pub record ListArgs : Type 0 where
  pub actor_id : Value
  pub principal_actor_id : Value
  pub object_ref : Value
  pub grantor_actor_id : Value
  pub status : Value
  pub limit : Value

abbrev pub max_list : ℕ
max_list = 100

-- `Number.isInteger(limit) ? Math.max(1, Math.min(MAX_LIST, limit)) : DEFAULT_LIST`
abbrev pub list_limit : Value → ℕ
list_limit (nat n) = max 1 (min max_list n)
list_limit (neg n) = 1
list_limit undefined = 20
list_limit null = 20
list_limit other = 20
list_limit (bool b) = 20
list_limit (str s) = 20

-- `? IS NULL OR column = ?`: `nothing` is a value that no status equals.
pub data StatusFilter : Type 0 where
  any nothing : StatusFilter
  only : GrantStatus → StatusFilter

abbrev status_named : String → Option StatusFilter
status_named s =
    if s == ""
    then some nothing
    else if s == "granted"
    then some (only GrantStatus.granted)
    else if s == "first_read"
    then some (only GrantStatus.first_read)
    else if s == "revoked"
    then some (only GrantStatus.revoked)
    else none

abbrev status_filter : Value → Option StatusFilter
status_filter undefined = some any
status_filter null = some any
status_filter other = none
status_filter (bool b) = if b then none else some nothing
status_filter (nat n) = if truthy (nat n) then none else some nothing
status_filter (neg n) = none
status_filter (str s) = status_named s

abbrev no_ref : Value → Bool
no_ref undefined = true
no_ref null = true
no_ref other = false
no_ref (bool b) = false
no_ref (nat n) = false
no_ref (neg n) = false
no_ref (str s) = s == ""

abbrev ref_filter : RefParser → Value → Result GrantError (Option String)
ref_filter refs v =
    let parsed = normalize_object_ref refs v in
    if no_ref v then ok none else elim parsed [ ok r ↦ ok (some r) | fail e ↦ fail e ]

abbrev actor_filter : Value → GrantError → Result GrantError (Option String)
actor_filter v e =
    if truthy v
    then elim (named actor_pattern v) [ none ↦ fail e | some a ↦ ok (some a) ]
    else ok none

pub record Query : Type 0 where
  pub actor : String
  pub principal : Option String
  pub grantor : Option String
  pub object_ref : Option String
  pub status : StatusFilter
  pub limit : ℕ

unfoldable pub check_list : RefParser → ListArgs → Result GrantError Query
check_list refs a = do
  actor ← get_or (named actor_pattern a.actor_id) invalid_actor_id
  status ← get_or (status_filter a.status) invalid_status
  ref ← ref_filter refs a.object_ref
  principal ← actor_filter a.principal_actor_id invalid_principal_actor_id
  grantor ← actor_filter a.grantor_actor_id invalid_grantor_actor_id
  ok (record {
    actor = actor;
    principal = principal;
    grantor = grantor;
    object_ref = ref;
    status = status;
    limit = list_limit a.limit;
  })

abbrev pub agrees : Option String → String → Bool
agrees none s = true
agrees (some x) s = s == x

abbrev pub has_status : StatusFilter → GrantStatus → Bool
has_status any s = true
has_status nothing s = false
has_status (only GrantStatus.granted) s = is_granted s
has_status (only GrantStatus.first_read) s = is_first_read s
has_status (only GrantStatus.revoked) s = is_revoked s

-- The `WHERE` of the query.
unfoldable pub selected : Query → GrantRow → Bool
selected q row =
    actor_may_inspect_grant row q.actor
    && agrees q.principal row.principal_actor_id
    && agrees q.grantor row.grantor_actor_id
    && agrees q.object_ref row.object_ref
    && has_status q.status row.status

unfoldable pub run_query : Query → Table → List GrantRow
unfolding query_newest selected
run_query q t = query_newest GrantRow.created_at (selected q) q.limit (values t)

unfoldable pub list_access_grants :
    RefParser → ListArgs → Table → Result GrantError (List AccessGrant)
unfolding check_list run_query
list_access_grants refs a t = do q ← check_list refs a; ok (map row_to_grant (run_query q t))
