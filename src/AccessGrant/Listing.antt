-- ===== src/AccessGrant/Listing.antt =====
-- src/access-grant.js: what `getAccessGrant` and `listAccessGrants` show, and to whom.
use cairnstone_v.Prelude.{
  Option, none, ◌∙◌, and-eq-true, some-injective, none-ne-some, String, ◌≡◌, ◌≤◌, refl, sym, ap,
  subst, some, true, string_eq, ◌==◌, eq_iff, Bool-cases, inl, inr, ◌⊎◌, arith, ◌↔◌, List, length,
  map, All,
}
use cairnstone_v.Prelude.Dict.{lookup, values}
use cairnstone_v.Prelude.Value.{Value, undefined, null, other, bool, nat, neg, str}
use cairnstone_v.Prelude.Result.{get_or-eq-ok, unless-eq-ok, ok, ◌>>=◌, bind-eq-ok, ok-injective}
use cairnstone_v.Prelude.Names.{named, actor_pattern, kind_pattern}
use cairnstone_v.AccessGrant.Rows.{
  GrantStatus, GrantRow, Table, AccessGrant, row_to_grant, actor_may_inspect_grant,
}
use cairnstone_v.AccessGrant.Create.{RefParser}
use cairnstone_v.AccessGrant.Query.{
  StatusFilter, agrees, has_status, get_access_grant, ListArgs, Query, check_list, list_limit,
  max_list, selected, run_query, list_access_grants,
}
use cairnstone_v.AccessGrant.Shown.{IsGrantOf, IsGrantOf-same, row_to_grant-IsGrantOf}
use cairnstone_v.Prelude.Newest.{IsListing, query_newest-IsListing, All-map}

-- A grant is shown to the actor of a call: the row of its id, which is the actor's to inspect.
pub record IsShown (id_arg actor_arg : Value) (t : Table) (g : AccessGrant) : Type 0 where
  pub id : String
  pub actor : String
  pub row : GrantRow
  pub id_named : named (kind_pattern "grant") id_arg ≡ some id
  pub actor_named : named actor_pattern actor_arg ≡ some actor
  pub found : lookup id t ≡ some row
  pub inspected : (row.grantor_actor_id ≡ actor) ⊎ (row.principal_actor_id ≡ actor)
  pub shown : IsGrantOf row g

inspects :
    (row : GrantRow) (actor : String)
    → (actor_may_inspect_grant row actor ≡ true)
      ↔ ((row.grantor_actor_id ≡ actor) ⊎ (row.principal_actor_id ≡ actor))
inspects row actor = (
  (λ h. elim (Bool-cases (row.grantor_actor_id == actor)) [
    | inl y ↦ inl ((eq_iff row.grantor_actor_id actor).0 y)
    | inr n ↦ inr ((eq_iff row.principal_actor_id actor).0 (rw n at h))
  ]),
  (λ h. elim h [
    | inl e ↦ rw ((eq_iff row.grantor_actor_id actor).1 e) refl
    | inr e ↦ elim (Bool-cases (row.grantor_actor_id == actor)) [
      | inl y ↦ rw y refl
      | inr n ↦ rw (n, (eq_iff row.principal_actor_id actor).1 e) refl
    ]
  ]),
)

get_sound :
    (id_arg actor_arg : Value) (t : Table) (g : AccessGrant)
    → get_access_grant id_arg actor_arg t ≡ ok g
    → IsShown id_arg actor_arg t g
unfolding get_access_grant
get_sound id_arg actor_arg t g h =
    let (id, e1, h1) = bind-eq-ok _ _ h in
    let (actor, e2, h2) = bind-eq-ok _ _ h1 in
    let (row, e3, h3) = bind-eq-ok _ _ h2 in
    let (_, e4, h4) = bind-eq-ok _ _ h3 in
    record {
      id = id;
      actor = actor;
      row = row;
      id_named = get_or-eq-ok _ _ id e1;
      actor_named = get_or-eq-ok _ _ actor e2;
      found = get_or-eq-ok _ _ row e3;
      inspected = (inspects row actor).0 (unless-eq-ok _ _ e4);
      shown = subst (IsGrantOf row) (ok-injective h4) (row_to_grant-IsGrantOf row);
    }

get_complete :
    (id_arg actor_arg : Value) (t : Table) (g : AccessGrant)
    → IsShown id_arg actor_arg t g
    → get_access_grant id_arg actor_arg t ≡ ok g
unfolding get_access_grant ◌>>=◌
get_complete id_arg actor_arg t g s =
    rw (s.id_named, s.actor_named, s.found, (inspects s.row s.actor).1 s.inspected)
      (ap ok (IsGrantOf-same s.row _ g (row_to_grant-IsGrantOf s.row) s.shown))

-- `getAccessGrant` answers with a grant exactly where the id and the actor are well formed, the
-- table has a row of that id whose grantor or principal is the actor, and the grant shows that row: each
-- column as it is, an optional one as none where it is empty, and that `execute-against` is only
-- recorded exactly where it is the permission.
pub get_access_grant_exact :
    (id_arg actor_arg : Value) (t : Table) (g : AccessGrant)
    → (get_access_grant id_arg actor_arg t ≡ ok g) ↔ IsShown id_arg actor_arg t g
get_access_grant_exact id_arg actor_arg t g =
    (get_sound id_arg actor_arg t g, get_complete id_arg actor_arg t g)

selected-actor :
    (q : Query) (r : GrantRow) → selected q r ≡ true → actor_may_inspect_grant r q.actor ≡ true
unfolding selected
selected-actor q r h = ground arith

-- A row has what each filter of a query names.
pub record IsFiltered (q : Query) (r : GrantRow) : Type 0 where
  pub principal : (x : String) → q.principal ≡ some x → r.principal_actor_id ≡ x
  pub grantor : (x : String) → q.grantor ≡ some x → r.grantor_actor_id ≡ x
  pub object_ref : (x : String) → q.object_ref ≡ some x → r.object_ref ≡ x
  pub status : (x : GrantStatus) → q.status ≡ StatusFilter.only x → r.status ≡ x

agrees-eq : (o : Option String) (s x : String) → agrees o s ≡ true → o ≡ some x → s ≡ x
agrees-eq none s x h e = absurd (none-ne-some e)
agrees-eq (some y) s x h e = (eq_iff s y).0 h ∙ some-injective e

only-status : (x s : GrantStatus) → has_status (StatusFilter.only x) s ≡ true → s ≡ x
only-status x s h = ground arith

selected-IsFiltered : (q : Query) (r : GrantRow) → selected q r ≡ true → IsFiltered q r
unfolding selected
selected-IsFiltered q r h =
    let (h1, status) = and-eq-true _ _ h in
    let (h2, ref) = and-eq-true _ _ h1 in
    let (h3, grantor) = and-eq-true _ _ h2 in
    let (_, principal) = and-eq-true _ _ h3 in
    record {
      principal = λ x e. agrees-eq q.principal r.principal_actor_id x principal e;
      grantor = λ x e. agrees-eq q.grantor r.grantor_actor_id x grantor e;
      object_ref = λ x e. agrees-eq q.object_ref r.object_ref x ref e;
      status = λ x e. only-status x r.status (subst (λ f. has_status f r.status ≡ true) e status);
    }

list_limit-le : (v : Value) → list_limit v ≤ max_list
list_limit-le undefined = omega arith
list_limit-le null = omega arith
list_limit-le other = omega arith
list_limit-le (bool b) = omega arith
list_limit-le (nat n) = omega arith
list_limit-le (neg n) = omega arith
list_limit-le (str s) = omega arith

check_list-limit :
    (refs : RefParser) (a : ListArgs) (q : Query) → check_list refs a ≡ ok q → q.limit ≤ max_list
unfolding check_list
check_list-limit refs a q h =
    let (actor, _, h1) = bind-eq-ok _ _ h in
    let (status, _, h2) = bind-eq-ok _ _ h1 in
    let (ref, _, h3) = bind-eq-ok _ _ h2 in
    let (principal, _, h4) = bind-eq-ok _ _ h3 in
    let (grantor, _, h5) = bind-eq-ok _ _ h4 in
    subst (λ (x : Query). x.limit ≤ max_list) (ok-injective h5) (list_limit-le a.limit)

-- The answer to a listing: the rows of a checked query, shown.
pub record IsAnswer (refs : RefParser) (a : ListArgs) (t : Table) (gs : List AccessGrant)
    : Type 0 where
  pub query : Query
  pub rows : List GrantRow
  pub checked : check_list refs a ≡ ok query
  pub listing : IsListing GrantRow.created_at (selected query) query.limit (values t) rows
  pub filtered : All (IsFiltered query) rows
  pub related : All (λ r. actor_may_inspect_grant r query.actor ≡ true) rows
  pub bounded : length rows ≤ max_list
  pub shown : gs ≡ map row_to_grant rows

-- A listing that succeeds shows rows of the table that its filters choose and that have its actor as
-- grantor or principal, the newest first; there are as many as are chosen, up to the limit, which is
-- at most 100.
pub list_access_grants-IsAnswer :
    (refs : RefParser) (a : ListArgs) (t : Table) (gs : List AccessGrant)
    → list_access_grants refs a t ≡ ok gs
    → IsAnswer refs a t gs
unfolding list_access_grants run_query
list_access_grants-IsAnswer refs a t gs h =
    let (q, e, h1) = bind-eq-ok _ _ h in
    let l = query_newest-IsListing GrantRow.created_at (selected q) q.limit (values t) in
    record {
      query = q;
      rows = run_query q t;
      checked = e;
      listing = l;
      filtered = All-map _ _ (λ r p. selected-IsFiltered q r p.1) (run_query q t) l.chosen;
      related = All-map _ _ (λ r p. selected-actor q r p.1) (run_query q t) l.chosen;
      bounded = omega (arith, l.count, check_list-limit refs a q e);
      shown = sym (ok-injective h1);
    }
