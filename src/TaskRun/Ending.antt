-- ===== src/TaskRun/Ending.antt =====
-- src/task-run.js, `cancelTaskRun`: whoever may inspect an open run can bring it to its end.
use cairnstone_v.Prelude.{String, ◌≡◌, refl, some, true, false, [], string_eq}
use cairnstone_v.Prelude.Dict.{lookup, lookup-insert_self}
use cairnstone_v.Prelude.Value.{Value}
use cairnstone_v.Prelude.Names.{named, actor_pattern, kind_pattern}
use cairnstone_v.Prelude.Result.{ok, ◌>>=◌}
use cairnstone_v.TaskRun.{
  TaskRow, Table, actor_may_inspect, is_terminal, check_cancel, as_cancelled, cancel_task_run,
}
use cairnstone_v.TaskRun.History.{cancel, apply, Later, next}
use cairnstone_v.TaskRun.Closed.{closed_forever}

-- A call of `cancelTaskRun` that passes its checks.
pub record IsAllowed (task_run_id actor_id : Value) (t : Table) (id actor : String) (r : TaskRow)
    : Type 0 where
  pub named_id : named (kind_pattern "tr") task_run_id ≡ some id
  pub named_actor : named actor_pattern actor_id ≡ some actor
  pub found : lookup id t ≡ some r
  pub inspected : actor_may_inspect r actor ≡ true
  pub open_before : is_terminal r.status ≡ false

check_cancel-ok :
    (task_run_id actor_id : Value) (t : Table) (id actor : String) (r : TaskRow)
    → IsAllowed task_run_id actor_id t id actor r
    → check_cancel task_run_id actor_id t ≡ ok (id, r)
unfolding check_cancel ◌>>=◌
check_cancel-ok task_run_id actor_id t id actor r a =
    rw (a.named_id, a.named_actor, a.found, a.inspected, a.open_before)

-- In a table that calls have built, a call of `cancelTaskRun` that names a run which is not at its
-- end, by an actor who may inspect it, succeeds and answers with the run as cancelled; and so the run
-- stands after any further calls.
pub open_run_ends :
    {t u : Table} (now reason : String) (task_run_id actor_id : Value) (id actor : String)
    (r : TaskRow)
    → Later [] t
    → IsAllowed task_run_id actor_id t id actor r
    → Later (apply (cancel now reason task_run_id actor_id) t) u
    → ((cancel_task_run now reason task_run_id actor_id t).0 ≡ ok (as_cancelled now reason r))
      × (lookup id u ≡ some (as_cancelled now reason r))
unfolding cancel_task_run apply as_cancelled
open_run_ends {t} now reason task_run_id actor_id id actor r built a later =
    let e = check_cancel-ok task_run_id actor_id t id actor r a in
    let there = lookup-insert_self id (as_cancelled now reason r) t in
    (
      rw (e, cancel_task_run) (rw there refl),
      closed_forever id (as_cancelled now reason r)
          (next built (cancel now reason task_run_id actor_id))
          (rw (e, apply, cancel_task_run) there) refl later,
    )
