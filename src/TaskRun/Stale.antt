-- ===== src/TaskRun/Stale.antt =====
-- src/task-run.js: a dispatch whose run is cancelled while its adapter is at work. Its UPDATE names the
-- id alone.
use cairnstone_v.Prelude.{subst, String, ◌≡◌, sym, ◌∙◌, ap, some, string_eq, some-injective}
use cairnstone_v.Prelude.Names.{named, kind_pattern}
use cairnstone_v.Prelude.Value.{Value}
use cairnstone_v.Prelude.Dict.{lookup, lookup-insert_self}
use cairnstone_v.Prelude.Result.{ok}
use cairnstone_v.Executors.Pack.{PackJson}
use cairnstone_v.TaskRun.{TaskRow, Table, cancel_task_run}
use cairnstone_v.TaskRun.Status.{TaskStatus}
use cairnstone_v.TaskRun.Cancelling.{cancel_task_run-IsCancelled}
use cairnstone_v.TaskRun.Routing.{Fresh, DispatchRequest}
use cairnstone_v.TaskRun.Dispatch.{Ready, as_dispatched, check_dispatch, update_row}
use cairnstone_v.TaskRun.Committing.{IsGiven, check_dispatch-IsGiven}
use cairnstone_v.TaskRun.Dispatching.{update-found}

-- A cancelled run that stands as given to an executor.
pub record IsRevived (u v : Table) (id : String) : Type 0 where
  pub before : TaskRow
  pub after : TaskRow
  pub found : lookup id u ≡ some before
  pub was_cancelled : before.status ≡ TaskStatus.cancelled
  pub stands : lookup id v ≡ some after
  pub given : IsGiven after.status after.dispatch_state

-- The statement of a dispatch that has passed its checks writes over a cancellation of the run that has
-- succeeded since: the run is then queued or completed, and no longer cancelled.
pub stale_dispatch_revives :
    (json : PackJson) (f : Fresh) (r : DispatchRequest) (t : Table) (d : Ready)
    (now reason : String) (task_run_id actor_id : Value) (row : TaskRow)
    → check_dispatch json f r t ≡ ok d
    → named (kind_pattern "tr") task_run_id ≡ some d.committed.id
    → (cancel_task_run now reason task_run_id actor_id t).0 ≡ ok row
    → IsRevived
        (cancel_task_run now reason task_run_id actor_id t).1
        (update_row d.committed.id
          (as_dispatched f r d.committed d.chosen d.result)
          (cancel_task_run now reason task_run_id actor_id t).1)
        d.committed.id
stale_dispatch_revives json f r t d now reason task_run_id actor_id row ready same_run cancelled =
    let c = cancel_task_run-IsCancelled now reason task_run_id actor_id t row cancelled in
    let u = (cancel_task_run now reason task_run_id actor_id t).1 in
    let e : c.id ≡ d.committed.id = some-injective (sym c.named_id ∙ same_run) in
    let there : lookup d.committed.id u ≡ some row =
      subst (λ x. lookup x u ≡ some row) e c.written in
    let write = as_dispatched f r d.committed d.chosen d.result in
    record {
      before = row;
      after = write row;
      found = there;
      was_cancelled = c.status;
      stands =
          ap (λ (x : Table). lookup d.committed.id x)
            (update-found d.committed.id write u row there)
          ∙ lookup-insert_self d.committed.id (write row) u;
      given = check_dispatch-IsGiven json f r t d row ready;
    }
