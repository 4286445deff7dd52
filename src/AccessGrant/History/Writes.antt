-- ===== src/AccessGrant/History/Writes.antt =====
-- src/access-grant.js: each call writes the table in one of few ways.
use cairnstone_v.Prelude.{
  String, ◌≡◌, refl, sym, ◌∙◌, ap, subst, Option, none, some, Bool, true, false, string_eq, arith,
  Bool-cases, Option-cases, inl, inr,
}
use cairnstone_v.Prelude.Dict.{lookup}
use cairnstone_v.Prelude.Value.{Value, str}
use cairnstone_v.Prelude.Result.{Result, ok, fail, bind-eq-ok, Result-cases, ok-injective}
use cairnstone_v.Prelude.Names.{named, actor_pattern}
use cairnstone_v.AccessGrant.Rows.{
  GrantRow, Table, GrantError, AccessGrant, is_granted, is_first_read, is_revoked,
}
use cairnstone_v.AccessGrant.Create.{
  RefParser, CreateArgs, check_create, insert_grant, create_access_grant,
}
use cairnstone_v.AccessGrant.Change.{
  update_where, as_revoked, as_first_read, write_revoked, write_first_read, check_revoke,
  check_first_read, revoke_access_grant, mark_access_grant_first_read,
}
use cairnstone_v.AccessGrant.Bodies.{
  Receipt, write_notified, as_notified, Transport, CreateBody, maybe_notify_grant, grantor_arg,
  create_args, body_actor, Notified, skipped, failed, sent, notice_id, after_create, with_notice,
  create_access_grant_from_body, revoke_access_grant_from_body,
  mark_access_grant_first_read_from_body,
}
use cairnstone_v.AccessGrant.History.{
  Call, create, create_body, revoke, revoke_body, first_read, first_read_body, apply, actor_of,
  read_twice, revocation, reading, noting, IsNew, Write, untouched, inserted, updated,
}
use cairnstone_v.AccessGrant.History.Checks.{
  check_revoke-IsRevoker, check_first_read-IsReader, granted_left,
}

check_create-IsNew :
    (refs : RefParser) (now minted : String) (a : CreateArgs) (row : GrantRow)
    → check_create refs now minted a ≡ ok row
    → IsNew row
unfolding check_create
check_create-IsNew refs now minted a row h =
    let (grantor, _, h1) = bind-eq-ok _ _ h in
    let (principal, _, h2) = bind-eq-ok _ _ h1 in
    let (id, _, h3) = bind-eq-ok _ _ h2 in
    let (permission, _, h4) = bind-eq-ok _ _ h3 in
    let (ref, _, h5) = bind-eq-ok _ _ h4 in
    let (expires, _, h6) = bind-eq-ok _ _ h5 in
    let (_, f, h7) = bind-eq-ok _ _ h6 in
    subst IsNew (ok-injective h7)
      (record { status = refl; unread = refl; unrevoked = refl; future = ground arith })

insert_grant-Write :
    (who : Option String) (row : GrantRow) (t : Table)
    → IsNew row
    → Write who t (insert_grant row t).1
unfolding insert_grant
insert_grant-Write who row t new = elim (Option-cases (lookup row.grant_id t)) [
  | inl n ↦ rw (n, insert_grant) (inserted row untouched new n)
  | inr (old, e) ↦ rw (e, insert_grant) untouched
]

create-Write :
    (who : Option String) (refs : RefParser) (now minted : String) (a : CreateArgs) (t : Table)
    → Write who t (create_access_grant refs now minted a t).1
unfolding create_access_grant
create-Write who refs now minted a t = elim (Result-cases (check_create refs now minted a)) [
  | inl (row, e) ↦
      rw (e, create_access_grant)
        (insert_grant-Write who row t (check_create-IsNew refs now minted a row e))
  | inr (x, e) ↦ rw (e, create_access_grant) untouched
]

revoke-Write :
    (now : String) (id actor : Value) (t : Table)
    → Write (named actor_pattern actor) t (revoke_access_grant now id actor t).1
unfolding revoke_access_grant write_revoked update_where
revoke-Write now id actor t = elim (Result-cases (check_revoke id actor t)) [
  | inr (x, e) ↦ rw (e, revoke_access_grant) untouched
  | inl ((i, row), e) ↦
      let c = check_revoke-IsRevoker id actor t i row e in
      elim (Bool-cases (is_revoked row.status)) [
        | inl y ↦ rw (e, y, revoke_access_grant) untouched
        | inr n ↦
            rw (e, n, c.found, n, revoke_access_grant, write_revoked, update_where)
              (updated i row (as_revoked now row) untouched c.found (revocation now n c.who))
      ]
]

first_read-Write :
    (now : String) (id actor : Value) (t : Table)
    → Write (named actor_pattern actor) t (mark_access_grant_first_read now id actor t).1
unfolding mark_access_grant_first_read write_first_read update_where
first_read-Write now id actor t = elim (Result-cases (check_first_read now id actor t)) [
  | inr (x, e) ↦ rw (e, mark_access_grant_first_read) untouched
  | inl ((i, row), e) ↦
      let c = check_first_read-IsReader now id actor t i row e in
      elim (Bool-cases (is_first_read row.status)) [
        | inl y ↦ rw (e, y, mark_access_grant_first_read) untouched
        | inr n ↦
            let g : is_granted row.status ≡ true = granted_left row.status c.unrevoked n in
            rw (e, n, c.found, g, mark_access_grant_first_read, write_first_read, update_where)
              (updated i row (as_first_read now row) untouched c.found
                (reading now g c.unexpired c.who))
      ]
]

notified-Write :
    (who : Option String) (r : Receipt) (id : String) (t u : Table)
    → Write who t u
    → Write who t (write_notified r id u)
unfolding write_notified update_where
notified-Write who r id t u w = elim (Option-cases (lookup id u)) [
  | inl n ↦ rw (n, write_notified, update_where) w
  | inr (row, e) ↦
      rw (e, write_notified, update_where) (updated id row (as_notified r row) w e (noting r))
]

maybe_notify-Write :
    (who : Option String) (transport : Transport) (g : AccessGrant) (t u : Table)
    → Write who t u
    → Write who t (maybe_notify_grant transport g u).1
unfolding maybe_notify_grant
maybe_notify-Write who transport g t u w = elim (Bool-cases g.row.notify) [
  | inl y ↦ elim (Option-cases transport) [
    | inl n ↦ rw (y, n, maybe_notify_grant) w
    | inr (send, e) ↦ elim (Option-cases (send g (notice_id g.row.grant_id))) [
      | inl n ↦ rw (y, e, maybe_notify_grant, n) w
      | inr (r, f) ↦ rw (y, e, maybe_notify_grant, f) (notified-Write who r g.row.grant_id t u w)
    ]
  ]
  | inr n ↦ rw (n, maybe_notify_grant) w
]

with_notice-snd : (p : Notified × Table) (g : AccessGrant) → (with_notice p g).1 ≡ p.1
with_notice-snd (sent r, t) g = refl
with_notice-snd (skipped, t) g = refl
with_notice-snd (failed, t) g = refl

after_create-Write :
    (who : Option String) (transport : Transport) (wanted : Bool)
    (p : Result GrantError AccessGrant × Table) (t : Table)
    → Write who t p.1
    → Write who t (after_create transport wanted p).1
after_create-Write who transport wanted (fail e, u) t w = w
after_create-Write who transport true (ok g, u) t w =
    rw (with_notice-snd (maybe_notify_grant transport g u) g)
      (maybe_notify-Write who transport g t u w)
after_create-Write who transport false (ok g, u) t w = w

create_body-Write :
    (who : Option String) (refs : RefParser) (transport : Transport) (now minted : String)
    (b : CreateBody) (t : Table)
    → Write who t (create_access_grant_from_body refs transport now minted b t).1
unfolding create_access_grant_from_body
create_body-Write who refs transport now minted b t = elim (Result-cases (grantor_arg b)) [
  | inr (x, e) ↦ rw (e, create_access_grant_from_body) untouched
  | inl (grantor, e) ↦
      rw (e, create_access_grant_from_body)
        (after_create-Write who transport _ _ t
          (create-Write who refs now minted (create_args b grantor) t))
]

-- The caller of a body's call is the actor that its checks read.
read_twice-of :
    (id actor : Value) (a : String)
    → body_actor id actor ≡ ok a
    → read_twice (named actor_pattern actor) ≡ named actor_pattern (str a)
read_twice-of id actor a h =
    let (x, e, h1) = bind-eq-ok _ _ h in
    let (_, _, h2) = bind-eq-ok _ _ h1 in
    let known : named actor_pattern actor ≡ some x = ground arith in
    ap read_twice known ∙ ap (λ z. named actor_pattern (str z)) (ok-injective h2)

revoke_body-Write :
    (now : String) (id actor : Value) (t : Table)
    → Write
        (read_twice (named actor_pattern actor))
        t
        (revoke_access_grant_from_body now id actor t).1
unfolding revoke_access_grant_from_body
revoke_body-Write now id actor t = elim (Result-cases (body_actor id actor)) [
  | inr (x, e) ↦ rw (e, revoke_access_grant_from_body) untouched
  | inl (a, e) ↦
      rw (e, revoke_access_grant_from_body)
        (subst (λ w. Write w t (revoke_access_grant now id (str a) t).1)
          (sym (read_twice-of id actor a e)) (revoke-Write now id (str a) t))
]

first_read_body-Write :
    (now : String) (id actor : Value) (t : Table)
    → Write
        (read_twice (named actor_pattern actor))
        t
        (mark_access_grant_first_read_from_body now id actor t).1
unfolding mark_access_grant_first_read_from_body
first_read_body-Write now id actor t = elim (Result-cases (body_actor id actor)) [
  | inr (x, e) ↦ rw (e, mark_access_grant_first_read_from_body) untouched
  | inl (a, e) ↦
      rw (e, mark_access_grant_first_read_from_body)
        (subst (λ w. Write w t (mark_access_grant_first_read now id (str a) t).1)
          (sym (read_twice-of id actor a e)) (first_read-Write now id (str a) t))
]

pub apply-Write : (c : Call) (t : Table) → Write (actor_of c) t (apply c t)
unfolding apply
apply-Write (create refs now minted a) t = create-Write none refs now minted a t
apply-Write (create_body refs transport now minted b) t =
    create_body-Write none refs transport now minted b t
apply-Write (revoke now id actor) t = revoke-Write now id actor t
apply-Write (revoke_body now id actor) t = revoke_body-Write now id actor t
apply-Write (first_read now id actor) t = first_read-Write now id actor t
apply-Write (first_read_body now id actor) t = first_read_body-Write now id actor t
