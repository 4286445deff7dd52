-- ===== src/AccessGrant/Bodies.antt =====
-- src/access-grant.js: the calls from a request's body, and the notice to a principal.
-- Each `...FromBody` has the database; without the binding it answers `missing_d1_binding`.
use cairnstone_v.Prelude.{
  List, String, Option, none, some, Bool, true, false, not, string_eq, if◌then◌else◌,
}
use Prim.Native.String.{[], ◌∷◌, ◌++◌}
use cairnstone_v.Prelude.Value.{Value, null, str, truthy, as_bool}
use cairnstone_v.Prelude.Result.{Result, ok, fail, ◌>>=◌, ◌>>◌, get_or}
use cairnstone_v.Prelude.Names.{named, nonempty_text, actor_pattern}
use cairnstone_v.AccessGrant.Rows.{
  GrantRow, Table, GrantError, invalid_grantor_actor_id, invalid_actor_id, grant_id_required,
  AccessGrant, select_grant, text_or_null,
}
use cairnstone_v.AccessGrant.Create.{RefParser, CreateArgs, create_access_grant}
use cairnstone_v.AccessGrant.Change.{
  Changed, update_where, revoke_access_grant, mark_access_grant_first_read,
}
use cairnstone_v.AccessGrant.Query.{ListArgs, get_access_grant, list_access_grants}

-- The answer of `sendMessage`: none where it is not ok.
pub record Receipt : Type 0 where
  pub message_id : String
  pub stone_hash : Option String

-- `deps.sendMessage`, where the caller has one; it sends a notice about a grant under an id.
abbrev pub Transport : Type 0
Transport = Option (AccessGrant → String → Option Receipt)

pub data Notified : Type 0 where
  skipped failed : Notified
  sent : Receipt → Notified

-- `grant_id.slice(6)`, behind `grant:`
abbrev drop_six : String → String
drop_six (a ∷ b ∷ c ∷ d ∷ e ∷ f ∷ s) = s
drop_six s = []

abbrev pub notice_id : String → String
notice_id grant_id = "msg:access-grant-notify-" ++ drop_six grant_id

abbrev pub as_notified : Receipt → GrantRow → GrantRow
as_notified r row = record row {
  notify_message_id = some r.message_id;
  notify_stone_hash = text_or_null r.stone_hash;
}

unfoldable pub write_notified : Receipt → String → Table → Table
unfolding update_where
write_notified r id t = update_where id (λ row. true) (as_notified r) t

unfoldable pub maybe_notify_grant : Transport → AccessGrant → Table → Notified × Table
unfolding write_notified
maybe_notify_grant transport g t = if not g.row.notify then (skipped, t) else elim transport [
  | none ↦ (skipped, t)
  | some send ↦ elim (send g (notice_id g.row.grant_id)) [
    | none ↦ (failed, t)
    | some r ↦ (sent r, write_notified r g.row.grant_id t)
  ]
]

pub record CreateBody : Type 0 where
  pub grant_id : Value
  pub object_ref : Value
  pub principal_actor_id : Value
  pub permission : Value
  pub grantor_actor_id : Value
  pub actor_id : Value
  pub expires_at : Value
  pub notify : Value

-- `actor_id` stands in for a grantor that is missing or malformed.
abbrev pub grantor_arg : CreateBody → Result GrantError Value
grantor_arg b = elim (named actor_pattern b.grantor_actor_id) [
  | some a ↦ ok b.grantor_actor_id
  | none ↦ elim (named actor_pattern b.actor_id) [
    | some a ↦ ok (str a)
    | none ↦ fail invalid_grantor_actor_id
  ]
]

-- `v === true`
abbrev pub is_true : Value → Bool
is_true v = elim (as_bool v) [ none ↦ false | some b ↦ b ]

abbrev pub create_args : CreateBody → Value → CreateArgs
create_args b grantor = record {
  grant_id = b.grant_id;
  object_ref = b.object_ref;
  principal_actor_id = b.principal_actor_id;
  permission = b.permission;
  grantor_actor_id = grantor;
  expires_at = b.expires_at;
  notify = is_true b.notify;
}

-- The grant with its notice; a notice that was sent is read back from the table.
pub record CreatedBody : Type 0 where
  pub access_grant : AccessGrant
  pub notify_result : Notified

abbrev pub with_notice : Notified × Table → AccessGrant → Result GrantError CreatedBody × Table
with_notice (sent r, t) g = (
  do
    again ← select_grant g.row.grant_id t
    ok (record { access_grant = again; notify_result = sent r }),
  t,
)
with_notice (skipped, t) g = (ok (record { access_grant = g; notify_result = skipped }), t)
with_notice (failed, t) g = (ok (record { access_grant = g; notify_result = failed }), t)

abbrev pub after_create :
    Transport → Bool → Result GrantError AccessGrant × Table → Result GrantError CreatedBody × Table
after_create transport wanted (fail e, t) = (fail e, t)
after_create transport wanted (ok g, t) =
    if wanted
    then with_notice (maybe_notify_grant transport g t) g
    else (ok (record { access_grant = g; notify_result = skipped }), t)

unfoldable pub create_access_grant_from_body :
    RefParser
    → Transport
    → String
    → String
    → CreateBody
    → Table
    → Result GrantError CreatedBody × Table
unfolding maybe_notify_grant create_access_grant
create_access_grant_from_body refs transport now minted b t = elim (grantor_arg b) [
  | fail e ↦ (fail e, t)
  | ok grantor ↦
      after_create transport (is_true b.notify)
        (create_access_grant refs now minted (create_args b grantor) t)
]

-- The checks that come before the operation itself.
abbrev pub body_actor : Value → Value → Result GrantError String
body_actor grant_id actor_id = do
  actor ← get_or (named actor_pattern actor_id) invalid_actor_id
  get_or (nonempty_text grant_id) grant_id_required
  ok actor

unfoldable pub get_access_grant_from_body : Value → Value → Table → Result GrantError AccessGrant
get_access_grant_from_body grant_id actor_id t = do
  actor ← body_actor grant_id actor_id
  get_access_grant grant_id (str actor) t

unfoldable pub revoke_access_grant_from_body :
    String → Value → Value → Table → Result GrantError Changed × Table
unfolding revoke_access_grant
revoke_access_grant_from_body now grant_id actor_id t = elim (body_actor grant_id actor_id) [
  | fail e ↦ (fail e, t)
  | ok actor ↦ revoke_access_grant now grant_id (str actor) t
]

unfoldable pub mark_access_grant_first_read_from_body :
    String → Value → Value → Table → Result GrantError Changed × Table
unfolding mark_access_grant_first_read
mark_access_grant_first_read_from_body now grant_id actor_id t =
    elim (body_actor grant_id actor_id) [
      | fail e ↦ (fail e, t)
      | ok actor ↦ mark_access_grant_first_read now grant_id (str actor) t
    ]

-- `v || null`
abbrev or_null : Value → Value
or_null v = if truthy v then v else null

unfoldable pub list_access_grants_from_body :
    RefParser → ListArgs → Table → Result GrantError (List AccessGrant)
list_access_grants_from_body refs a t = do
  actor ← get_or (named actor_pattern a.actor_id) invalid_actor_id
  list_access_grants refs
      (record {
        actor_id = str actor;
        principal_actor_id = or_null a.principal_actor_id;
        object_ref = or_null a.object_ref;
        grantor_actor_id = or_null a.grantor_actor_id;
        status = or_null a.status;
        limit = a.limit;
      })
      t
