-- ===== src/TaskRun/Cancelling.antt =====
-- src/task-run.js, `cancelTaskRun`: a run is cancelled once, by an actor who may inspect it.
use cairnstone_v.Prelude.{
  some-injective, subst, String, ◌≡◌, refl, sym, ◌∙◌, some, true, false, ◌==◌, string_eq, arith,
  inl, inr,
}
use cairnstone_v.Prelude.Dict.{lookup, insert, lookup-insert, lookup-insert_self}
use cairnstone_v.Prelude.Value.{Value}
use cairnstone_v.Prelude.Names.{named, actor_pattern, kind_pattern}
use cairnstone_v.Prelude.Result.{ok, bind-eq-ok, fail-ne-ok, Result-cases, get_or-eq-ok}
use cairnstone_v.TaskRun.Status.{TaskStatus}
use cairnstone_v.TaskRun.{
  TaskRow, Table, type_error, actor_may_inspect, is_terminal, check_cancel, as_cancelled,
  cancel_task_run,
}

-- A cancellation that succeeded.
pub record IsCancelled (task_run_id actor_id : Value) (t t' : Table) (row_now : TaskRow)
    : Type 0 where
  pub id : String
  pub actor : String
  pub before : TaskRow
  pub named_id : named (kind_pattern "tr") task_run_id ≡ some id
  pub named_actor : named actor_pattern actor_id ≡ some actor
  pub found : lookup id t ≡ some before
  pub inspected : actor_may_inspect before actor ≡ true
  pub open_before : is_terminal before.status ≡ false
  pub written : lookup id t' ≡ some row_now
  pub status : row_now.status ≡ TaskStatus.cancelled
  pub others : (j : String) → (id == j) ≡ false → lookup j t' ≡ lookup j t

-- The run that a cancellation is about to write.
pub check_cancel-found :
    (task_run_id actor_id : Value) (t : Table) (id : String) (row : TaskRow)
    → check_cancel task_run_id actor_id t ≡ ok (id, row)
    → (lookup id t ≡ some row) × (is_terminal row.status ≡ false)
unfolding check_cancel
check_cancel-found task_run_id actor_id t id row h =
    let (i, e1, h1) = bind-eq-ok _ _ h in
    let (actor, e2, h2) = bind-eq-ok _ _ h1 in
    let (r, e3, h3) = bind-eq-ok _ _ h2 in
    let (_, e4, h4) = bind-eq-ok _ _ h3 in
    let (_, e5, h5) = bind-eq-ok _ _ h4 in (ground arith, ground arith)

check_cancel-IsCancelled :
    (now reason : String) (task_run_id actor_id : Value) (t : Table) (id : String) (row : TaskRow)
    → check_cancel task_run_id actor_id t ≡ ok (id, row)
    → IsCancelled task_run_id actor_id t
        (insert id (as_cancelled now reason row) t)
        (as_cancelled now reason row)
unfolding check_cancel as_cancelled
check_cancel-IsCancelled now reason task_run_id actor_id t id row h =
    let (i, e1, h1) = bind-eq-ok _ _ h in
    let (actor, e2, h2) = bind-eq-ok _ _ h1 in
    let (r, e3, h3) = bind-eq-ok _ _ h2 in
    let (_, e4, h4) = bind-eq-ok _ _ h3 in
    let (_, e5, h5) = bind-eq-ok _ _ h4 in
    record {
      id = id;
      actor = actor;
      before = row;
      named_id = ground arith;
      named_actor = ground arith;
      found = ground arith;
      inspected = ground arith;
      open_before = ground arith;
      written = lookup-insert_self id (as_cancelled now reason row) t;
      status = refl;
      others = λ j n. ground (arith, lookup-insert id j (as_cancelled now reason row) t);
    }

-- A cancellation that succeeds is of a run that was not at its end, by an actor who may inspect it;
-- the run is then cancelled, is the one that is answered, and no other run changes.
pub cancel_task_run-IsCancelled :
    (now reason : String) (task_run_id actor_id : Value) (t : Table) (row_now : TaskRow)
    → (cancel_task_run now reason task_run_id actor_id t).0 ≡ ok row_now
    → IsCancelled task_run_id actor_id t
        (cancel_task_run now reason task_run_id actor_id t).1
        row_now
unfolding cancel_task_run
cancel_task_run-IsCancelled now reason task_run_id actor_id t row_now h =
    elim (Result-cases (check_cancel task_run_id actor_id t)) [
      | inr (e, f) ↦ fail-ne-ok (rw (f, cancel_task_run) at h)
      | inl ((id, row), f) ↦
          let shown =
            get_or-eq-ok (lookup id (insert id (as_cancelled now reason row) t)) type_error row_now
              (rw (f, cancel_task_run) at h) in
          let same : as_cancelled now reason row ≡ row_now =
            some-injective (sym (lookup-insert_self id (as_cancelled now reason row) t) ∙ shown) in
          rw (f, cancel_task_run)
            (subst (IsCancelled task_run_id actor_id t (insert id (as_cancelled now reason row) t))
              same (check_cancel-IsCancelled now reason task_run_id actor_id t id row f))
    ]
