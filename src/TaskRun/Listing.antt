-- ===== src/TaskRun/Listing.antt =====
-- src/task-run.js: what `listTaskRuns` shows, and to whom.
use cairnstone_v.Prelude.{
  Option, none, some, ap, ◌∙◌, eq_iff, String, and-eq-true, none-ne-some, ◌≡◌, Bool, true, ◌&&◌,
  ◌≤◌, subst, string_eq, arith, List, length, All,
}
use mathlib.Core.Bool.{and-eq-true_iff}
use cairnstone_v.Prelude.Dict.{values}
use cairnstone_v.Prelude.Value.{Value, undefined, null, other, bool, nat, neg, str}
use cairnstone_v.Prelude.Result.{ok, bind-eq-ok, ok-injective}
use cairnstone_v.Prelude.Newest.{IsListing, query_newest-IsListing, All-map}
use cairnstone_v.TaskRun.{is_actor, TaskRow, Table, actor_may_inspect}
use cairnstone_v.TaskRun.Status.{TaskStatus}
use cairnstone_v.TaskRun.Query.{
  StatusFilter, column_is, has_status, ListArgs, Query, check_list, list_limit, max_list, selected,
  list_task_runs,
}

list_limit-le : (v : Value) → list_limit v ≤ max_list
list_limit-le undefined = omega arith
list_limit-le null = omega arith
list_limit-le other = omega arith
list_limit-le (bool b) = omega arith
list_limit-le (nat n) = omega arith
list_limit-le (neg n) = omega arith
list_limit-le (str s) = omega arith

check_list-limit : (a : ListArgs) (q : Query) → check_list a ≡ ok q → q.limit ≤ max_list
unfolding check_list
check_list-limit a q h =
    let (actor, _, h1) = bind-eq-ok _ _ h in
    let (status, _, h2) = bind-eq-ok _ _ h1 in
    let (conversation, _, h3) = bind-eq-ok _ _ h2 in
    let (assignee, _, h4) = bind-eq-ok _ _ h3 in
    let (parent, _, h5) = bind-eq-ok _ _ h4 in
    subst (λ (x : Query). x.limit ≤ max_list) (ok-injective h5) (list_limit-le a.limit)

both-left : (a b : Bool) → a && b ≡ true → a ≡ true
both-left a b h = ((and-eq-true_iff a b).0 h).0

selected-actor :
    (q : Query) (r : TaskRow) → selected q r ≡ true → actor_may_inspect r q.actor ≡ true
unfolding selected
selected-actor q r h = both-left _ _ (both-left _ _ (both-left _ _ (both-left _ _ h)))

-- A run has what each filter of a query names.
pub record IsFiltered (q : Query) (r : TaskRow) : Type 0 where
  pub status : (x : TaskStatus) → q.status ≡ StatusFilter.only x → r.status ≡ x
  pub conversation : (x : String) → q.conversation ≡ some x → r.conversation_id ≡ some x
  pub assignee : (x : String) → q.assignee ≡ some x → r.assignee_actor_id ≡ some x
  pub parent : (x : String) → q.parent ≡ some x → r.parent_task_run_id ≡ some x

is_actor-eq : (c : Option String) (x : String) → is_actor c x ≡ true → c ≡ some x
is_actor-eq none x h = cc
is_actor-eq (some y) x h = ap (λ (z : String). some z) ((eq_iff y x).0 h)

column_is-eq : (o c : Option String) (x : String) → column_is o c ≡ true → o ≡ some x → c ≡ some x
column_is-eq none c x h e = absurd (none-ne-some e)
column_is-eq (some y) c x h e = is_actor-eq c y h ∙ e

only-status : (x s : TaskStatus) → has_status (StatusFilter.only x) s ≡ true → s ≡ x
only-status x s h = ground arith

selected-IsFiltered : (q : Query) (r : TaskRow) → selected q r ≡ true → IsFiltered q r
unfolding selected
selected-IsFiltered q r h =
    let (h1, parent) = and-eq-true _ _ h in
    let (h2, assignee) = and-eq-true _ _ h1 in
    let (h3, conversation) = and-eq-true _ _ h2 in
    let (_, status) = and-eq-true _ _ h3 in
    record {
      status = λ x e. only-status x r.status (subst (λ f. has_status f r.status ≡ true) e status);
      conversation = λ x e. column_is-eq q.conversation r.conversation_id x conversation e;
      assignee = λ x e. column_is-eq q.assignee r.assignee_actor_id x assignee e;
      parent = λ x e. column_is-eq q.parent r.parent_task_run_id x parent e;
    }

-- The answer to a listing: the rows of a checked query.
pub record IsAnswer (a : ListArgs) (t : Table) (rows : List TaskRow) : Type 0 where
  pub query : Query
  pub checked : check_list a ≡ ok query
  pub listing : IsListing TaskRow.created_at (selected query) query.limit (values t) rows
  pub filtered : All (IsFiltered query) rows
  pub related : All (λ r. actor_may_inspect r query.actor ≡ true) rows
  pub bounded : length rows ≤ max_list

-- A listing that succeeds shows runs of the table that its filters choose and that its actor asked
-- for, is assigned to or has committed, the newest first; there are as many as are chosen, up to the
-- limit, which is at most 100.
pub list_task_runs-IsAnswer :
    (a : ListArgs) (t : Table) (rows : List TaskRow)
    → list_task_runs a t ≡ ok rows
    → IsAnswer a t rows
unfolding list_task_runs
list_task_runs-IsAnswer a t rows h =
    let (q, e, h1) = bind-eq-ok _ _ h in
    let same = ok-injective h1 in
    let l =
      subst (IsListing TaskRow.created_at (selected q) q.limit (values t)) same
        (query_newest-IsListing TaskRow.created_at (selected q) q.limit (values t)) in
    record {
      query = q;
      checked = e;
      listing = l;
      filtered = All-map _ _ (λ r p. selected-IsFiltered q r p.1) rows l.chosen;
      related = All-map _ _ (λ r p. selected-actor q r p.1) rows l.chosen;
      bounded = omega (arith, l.count, check_list-limit a q e);
    }
