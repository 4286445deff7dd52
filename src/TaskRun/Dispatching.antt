-- ===== src/TaskRun/Dispatching.antt =====
-- src/task-run.js, `dispatchTaskRun`: a run is dispatched on a human's commit, once, to a registered
-- executor.
use cairnstone_v.Prelude.{
  Option, ◌∙◌, ap, sym, String, ◌≡◌, refl, true, ◌⊎◌, inl, inr, some, string_eq,
}
use cairnstone_v.Prelude.Names.{named, actor_pattern, kind_pattern}
use cairnstone_v.Prelude.Dict.{lookup, insert, lookup-insert_self}
use cairnstone_v.Prelude.Result.{ok, fail, get_or, fail-ne-ok, ok-injective, Result-cases}
use cairnstone_v.Executors.Policy.{is_exactly}
use cairnstone_v.Executors.Pack.{PackJson}
use cairnstone_v.Executors.Adapters.{id_text}
use cairnstone_v.TaskRun.{TaskRow, Table}
use cairnstone_v.TaskRun.Status.{TaskStatus, DispatchState}
use cairnstone_v.TaskRun.Routing.{
  type_error, Fresh, DispatchRequest, DispatchError, actor_may_dispatch,
}
use cairnstone_v.TaskRun.Dispatch.{
  Ready, as_dispatched, check_dispatch, update_row, dispatch_task_run,
}
use cairnstone_v.TaskRun.History.{SameCore}
use cairnstone_v.TaskRun.Committing.{IsGiven, IsRegistered, IsReady, check_dispatch-IsReady}

-- A run before and after its dispatch.
pub record IsDispatch (committer : String) (row row' : TaskRow) : Type 0 where
  pub core : SameCore row row'
  pub children : row'.child_task_run_ids ≡ row.child_task_run_ids
  pub given : IsGiven row'.status row'.dispatch_state
  pub committed_by : row'.human_committed_by ≡ some committer
  pub allowed : actor_may_dispatch row committer ≡ true
  pub was_proposed : row.status ≡ TaskStatus.proposed
  pub was_undispatched : row.dispatch_state ≡ DispatchState.not_dispatched
  pub executor : String
  pub selected : row'.selected_executor_id ≡ some executor
  pub registered : IsRegistered executor

as_dispatched-IsDispatch :
    (f : Fresh) (r : DispatchRequest) (t : Table) (d : Ready)
    → IsReady r t d
    → IsDispatch d.committed.committer d.committed.row
        (as_dispatched f r d.committed d.chosen d.result d.committed.row)
unfolding as_dispatched
as_dispatched-IsDispatch f r t d ready = record {
  core = record {
    task_run_id = refl;
    requested_by = refl;
    assignee = refl;
    attachment_refs = refl;
    object_refs = refl;
    parent = refl;
    depth = refl;
    children = λ c i. i;
  };
  children = refl;
  given = ready.given;
  committed_by = refl;
  allowed = ready.commit.allowed;
  was_proposed = ready.commit.was_proposed;
  was_undispatched = ready.commit.was_undispatched;
  executor = id_text d.chosen.executor_id;
  selected = refl;
  registered = ready.registered;
}

-- How a dispatch writes the table.
pub record IsWritten (r : DispatchRequest) (t t' : Table) : Type 0 where
  pub id : String
  pub committer : String
  pub before : TaskRow
  pub after : TaskRow
  pub human : is_exactly true r.human_commit ≡ true
  pub named_id : named (kind_pattern "tr") r.task_run_id ≡ some id
  pub named_actor : named actor_pattern r.committed_by ≡ some committer
  pub found : lookup id t ≡ some before
  pub dispatched : IsDispatch committer before after
  pub written : t' ≡ insert id after t

pub update-found :
    (id : String) (g : TaskRow → TaskRow) (t : Table) (row : TaskRow)
    → lookup id t ≡ some row
    → update_row id g t ≡ insert id (g row) t
unfolding update_row
update-found id g t row l = rw (l, update_row)

ready-IsWritten :
    (f : Fresh) (r : DispatchRequest) (t : Table) (d : Ready)
    → IsReady r t d
    → IsWritten r t (update_row d.committed.id (as_dispatched f r d.committed d.chosen d.result) t)
ready-IsWritten f r t d ready = record {
  id = d.committed.id;
  committer = d.committed.committer;
  before = d.committed.row;
  after = as_dispatched f r d.committed d.chosen d.result d.committed.row;
  human = ready.commit.human;
  named_id = ready.commit.named_id;
  named_actor = ready.commit.named_actor;
  found = ready.commit.found;
  dispatched = as_dispatched-IsDispatch f r t d ready;
  written =
      update-found d.committed.id (as_dispatched f r d.committed d.chosen d.result) t
        d.committed.row ready.commit.found;
}

written-answer :
    (id : String) (g : TaskRow → TaskRow) (t : Table) (row : TaskRow) (e : DispatchError)
    → lookup id t ≡ some row
    → get_or (lookup id (update_row id g t)) e ≡ ok (g row)
written-answer id g t row e l =
    ap (λ (u : Table). get_or (lookup id u) e) (update-found id g t row l)
    ∙ ap (λ (o : Option TaskRow). get_or o e) (lookup-insert_self id (g row) t)

-- A dispatch that is refused leaves the table; any other has written it and answers with the run.
pub dispatch_task_run-cases :
    (json : PackJson) (f : Fresh) (r : DispatchRequest) (t : Table)
    → (((e : DispatchError) × ((dispatch_task_run json f r t).0 ≡ fail e))
        × ((dispatch_task_run json f r t).1 ≡ t))
      ⊎ ((w : IsWritten r t (dispatch_task_run json f r t).1) × ((dispatch_task_run json f r t).0
            ≡ ok w.after))
unfolding dispatch_task_run ready-IsWritten
dispatch_task_run-cases json f r t = elim (Result-cases (check_dispatch json f r t)) [
  | inr (e, h) ↦ rw (h, dispatch_task_run) (inl ((e, refl), refl))
  | inl (d, h) ↦
      let ready = check_dispatch-IsReady json f r t d h in
      rw (h, dispatch_task_run)
        (inr (
          ready-IsWritten f r t d ready,
          written-answer d.committed.id (as_dispatched f r d.committed d.chosen d.result) t
              d.committed.row type_error ready.commit.found,
        ))
]

-- A dispatch that succeeds was committed by a human, who is the requester or the assignee of a run that
-- was proposed and not dispatched. The run is then queued or completed, with that committer and a
-- registered executor, and is the one that is answered; it keeps who asked for it, its references, its
-- parent and its depth, and no other run changes.
pub dispatch_task_run-IsWritten :
    (json : PackJson) (f : Fresh) (r : DispatchRequest) (t : Table) (row : TaskRow)
    → (dispatch_task_run json f r t).0 ≡ ok row
    → (w : IsWritten r t (dispatch_task_run json f r t).1) × (w.after ≡ row)
dispatch_task_run-IsWritten json f r t row h = elim (dispatch_task_run-cases json f r t) [
  | inl ((e, n), _) ↦ fail-ne-ok (sym n ∙ h)
  | inr (w, y) ↦ (w, ok-injective (sym y ∙ h))
]
