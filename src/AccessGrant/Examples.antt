-- ===== src/AccessGrant/Examples.antt =====
-- A grant that is made, read and revoked, and the theorems on it.
use cairnstone_v.Prelude.{◌≡◌, ◌≢◌, refl, none, some, false, [], ◌∷◌, string_eq, ◌↔◌}
use cairnstone_v.Prelude.Dict.{lookup, insert}
use cairnstone_v.Prelude.Text.{trim}
use cairnstone_v.Prelude.Newest.{query_newest, newest_first, place_newest}
use cairnstone_v.Prelude.Names.{actor_pattern, kind_pattern}
use cairnstone_v.Prelude.Value.{null, str, undefined}
use cairnstone_v.Prelude.Result.{ok, ◌>>=◌}
use cairnstone_v.AccessGrant.Rows.{Permission, GrantStatus, GrantRow, Table, row_to_grant}
use cairnstone_v.AccessGrant.Create.{RefParser, check_create, create_access_grant, insert_grant}
use cairnstone_v.AccessGrant.Change.{Changed, mark_access_grant_first_read}
use cairnstone_v.AccessGrant.Query.{
  get_access_grant, ListArgs, list_access_grants, check_list, run_query, selected,
}
use cairnstone_v.AccessGrant.Listing.{
  IsShown, get_access_grant_exact, IsAnswer, list_access_grants-IsAnswer,
}
use cairnstone_v.AccessGrant.History.{Call, revoke, create, first_read, apply, actor_of, here, next}
use cairnstone_v.AccessGrant.History.Rows.{Survives, Later-Survives}
use cairnstone_v.AccessGrant.History.Authority.{Changes, apply-Changes, first_read_refused}
use cairnstone_v.AccessGrant.History.Sound.{IsSound, reachable-IsSound}

abbrev any_ref : RefParser
any_ref v = ok "stone:1"

abbrev create_call : Call
create_call = create any_ref "2026-01-01" "grant:minted" (record {
  grant_id = str "grant:one";
  object_ref = str "stone:1";
  principal_actor_id = str "claude:reader";
  permission = str "read";
  grantor_actor_id = str "human:owner";
  expires_at = str "2026-06-01";
  notify = false;
})

abbrev granted_row : GrantRow
granted_row = record {
  grant_id = "grant:one";
  object_ref = "stone:1";
  principal_actor_id = "claude:reader";
  permission = Permission.read;
  grantor_actor_id = "human:owner";
  created_at = "2026-01-01";
  expires_at = some "2026-06-01";
  revoked_at = none;
  status = GrantStatus.granted;
  first_read_at = none;
  notify = false;
  notify_message_id = none;
  notify_stone_hash = none;
}

abbrev table : Table
table = ("grant:one", granted_row) ∷ []

abbrev revoked_row : GrantRow
revoked_row = record granted_row { status = GrantStatus.revoked; revoked_at = some "2026-02-01" }

abbrev revoked_table : Table
revoked_table = ("grant:one", revoked_row) ∷ []

abbrev revocation : Call
revocation = revoke "2026-02-01" (str "grant:one") (str "human:owner")

abbrev reading : Call
reading = first_read "2026-02-02" (str "grant:one") (str "claude:reader")

Later-Survives_example : Survives "grant:one" granted_row (apply revocation table)
unfolding lookup
Later-Survives_example = Later-Survives "grant:one" granted_row (next here revocation) refl

abbrev wrong_answer : Changed
wrong_answer = record { already = false; access_grant = row_to_grant revoked_row }

first_read_refused_example :
    (mark_access_grant_first_read "2026-03-01"
      (str "grant:one")
      (str "claude:reader")
      (apply reading revoked_table)).0
    ≢ ok wrong_answer
unfolding lookup kind_pattern trim
first_read_refused_example =
    first_read_refused "grant:one" revoked_row "2026-03-01" (str "grant:one") (str "claude:reader")
      refl refl (next here reading) refl wrong_answer

apply-Changes_example :
    Changes (actor_of revocation) "grant:one" granted_row (apply revocation table)
unfolding lookup
apply-Changes_example = apply-Changes revocation table "grant:one" granted_row refl

reachable-IsSound_example : IsSound "grant:one" granted_row
unfolding apply create_access_grant check_create insert_grant lookup insert ◌>>=◌ actor_pattern
    kind_pattern trim
reachable-IsSound_example = reachable-IsSound "grant:one" granted_row (next here create_call) refl

get_access_grant_exact_example :
    (get_access_grant (str "grant:one") (str "claude:reader") table ≡ ok (row_to_grant granted_row))
    ↔ IsShown (str "grant:one") (str "claude:reader") table (row_to_grant granted_row)
get_access_grant_exact_example =
    get_access_grant_exact (str "grant:one") (str "claude:reader") table (row_to_grant granted_row)

abbrev list_args : ListArgs
list_args = record {
  actor_id = str "claude:reader";
  principal_actor_id = null;
  object_ref = null;
  grantor_actor_id = null;
  status = null;
  limit = undefined;
}

list_access_grants-IsAnswer_example :
    IsAnswer any_ref list_args table (row_to_grant granted_row ∷ [])
unfolding list_access_grants check_list run_query query_newest newest_first place_newest selected
    ◌>>=◌ actor_pattern trim
list_access_grants-IsAnswer_example =
    list_access_grants-IsAnswer any_ref list_args table (row_to_grant granted_row ∷ []) refl
