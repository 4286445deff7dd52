-- ===== src/TaskRun/Reachable.antt =====
-- src/task-run.js: what holds of every table that its calls have built, and of a run for ever.
use cairnstone_v.Prelude.{
  subst, String, ◌≡◌, refl, sym, ◌∙◌, ap, true, false, ◌⊎◌, inl, inr, Option, some, [], string_eq,
  none-ne-some, ◌≤◌, length,
}
use cairnstone_v.Prelude.Value.{Value}
use cairnstone_v.Prelude.Dict.{lookup, insert, lookup-nil}
use cairnstone_v.Prelude.Result.{Result-cases}
use cairnstone_v.AccessGrant.Create.{RefParser}
use cairnstone_v.TaskRun.{
  TaskRow, Table, is_terminal, cancelled_dispatch, as_cancelled, check_cancel, cancel_task_run,
}
use cairnstone_v.TaskRun.Status.{TaskStatus, DispatchState}
use cairnstone_v.TaskRun.Cancelling.{check_cancel-found}
use cairnstone_v.TaskRun.Proposal.{ProposeArgs, max_fanout}
use cairnstone_v.TaskRun.Propose.{check_propose, propose_task_run}
use cairnstone_v.TaskRun.Proposing.{IsProposal, check_propose-IsProposal}
use cairnstone_v.TaskRun.Routing.{DispatchRequest, actor_may_dispatch}
use cairnstone_v.TaskRun.Committing.{IsGiven}
use cairnstone_v.TaskRun.Dispatching.{IsDispatch, IsWritten, dispatch_task_run-cases}
use cairnstone_v.TaskRun.History.{
  Call, propose, dispatch, cancel, apply, Later, here, next, Lifecycle, proposed, withdrawn, given,
  IsSound, IsSoundRow, SameCore,
}
use cairnstone_v.TaskRun.Sound.{after_proposal, IsSound-update, IsSound-propose}

cancelled-SameCore : (now reason : String) (r : TaskRow) → SameCore r (as_cancelled now reason r)
unfolding as_cancelled
cancelled-SameCore now reason r = record {
  task_run_id = refl;
  requested_by = refl;
  assignee = refl;
  attachment_refs = refl;
  object_refs = refl;
  parent = refl;
  depth = refl;
  children = λ c i. i;
}

cancelled-Lifecycle :
    (now reason : String) (r : TaskRow) → Lifecycle r → Lifecycle (as_cancelled now reason r)
unfolding as_cancelled
cancelled-Lifecycle now reason r (proposed s d n) = withdrawn refl (ap cancelled_dispatch d) n
cancelled-Lifecycle now reason r (withdrawn s d n) = withdrawn refl (ap cancelled_dispatch d) n
cancelled-Lifecycle now reason r (given who (inl (s, d)) n m) =
    given who (inr (inr (refl, ap cancelled_dispatch d))) n m
cancelled-Lifecycle now reason r (given who (inr (inl (s, d))) n m) =
    given who (inr (inr (refl, ap cancelled_dispatch d))) n m
cancelled-Lifecycle now reason r (given who (inr (inr (s, d))) n m) =
    given who (inr (inr (refl, ap cancelled_dispatch d))) n m

cancelled-fanout :
    {t : Table} {id : String} (now reason : String) (r : TaskRow)
    → IsSoundRow t id r
    → length (as_cancelled now reason r).child_task_run_ids ≤ max_fanout
unfolding as_cancelled
cancelled-fanout now reason r s = s.fanout

-- A call of `cancelTaskRun` writes nothing, or cancels a run that is not at its end.
pub data Cancels (t : Table) : Table → Type 0 where
  nothing : {t' : Table} → t' ≡ t → Cancels t t'
  one :
      {t' : Table} (now reason id : String) (r : TaskRow)
      → lookup id t ≡ some r
      → is_terminal r.status ≡ false
      → t' ≡ insert id (as_cancelled now reason r) t
      → Cancels t t'

pub cancel-Cancels :
    (now reason : String) (task_run_id actor_id : Value) (t : Table)
    → Cancels t (cancel_task_run now reason task_run_id actor_id t).1
unfolding cancel_task_run
cancel-Cancels now reason task_run_id actor_id t =
    elim (Result-cases (check_cancel task_run_id actor_id t)) [
      | inr (e, h) ↦ rw (h, cancel_task_run) (nothing refl)
      | inl ((id, row), h) ↦
          let (found, open_before) = check_cancel-found task_run_id actor_id t id row h in
          rw (h, cancel_task_run) (Cancels.one now reason id row found open_before refl)
    ]

-- A call of `proposeTaskRun` writes nothing, or inserts a run that it has checked.
pub data Proposes (now : String) (t : Table) : Table → Type 0 where
  nothing : {t' : Table} → t' ≡ t → Proposes now t t'
  one :
      {t' : Table} (row : TaskRow) (parent : Option String)
      → IsProposal t row parent
      → t' ≡ after_proposal now t row parent
      → Proposes now t t'

pub propose-Proposes :
    (parse : RefParser) (now minted : String) (a : ProposeArgs) (t : Table)
    → Proposes now t (propose_task_run parse now minted a t).1
unfolding propose_task_run
propose-Proposes parse now minted a t = elim (Result-cases (check_propose parse now minted a t)) [
  | inr (e, h) ↦ rw (h, propose_task_run) (Proposes.nothing refl)
  | inl ((row, parent), h) ↦
      rw (h, propose_task_run)
        (Proposes.one row parent (check_propose-IsProposal parse now minted a t row parent h) refl)
]

may :
    (r r' : TaskRow) (who : String)
    → SameCore r r'
    → actor_may_dispatch r who ≡ true
    → actor_may_dispatch r' who ≡ true
may r r' who s h = rw (s.requested_by, s.assignee) h

dispatched-Lifecycle : (who : String) (r r' : TaskRow) → IsDispatch who r r' → Lifecycle r'
dispatched-Lifecycle who r r' d =
    given who (of_given d.given) d.committed_by (may r r' who d.core d.allowed)
  where
    of_given :
        IsGiven r'.status r'.dispatch_state
        → ((r'.status ≡ TaskStatus.queued) × (r'.dispatch_state ≡ DispatchState.dispatched))
          ⊎ (((r'.status ≡ TaskStatus.completed) × (r'.dispatch_state ≡ DispatchState.completed))
              ⊎ ((r'.status ≡ TaskStatus.cancelled)
                  × (r'.dispatch_state ≡ DispatchState.cancelled)))
    of_given (inl e) = inl e
    of_given (inr e) = inr (inl e)

IsSound-Cancels : (t t' : Table) → IsSound t → Cancels t t' → IsSound t'
IsSound-Cancels t t' s (Cancels.nothing e) = subst IsSound (sym e) s
IsSound-Cancels t t' s (Cancels.one now reason id r l o e) = subst IsSound (sym e) (
    IsSound-update t id r (as_cancelled now reason r) s l (cancelled-SameCore now reason r)
      (cancelled-fanout now reason r (s id r l))
      (cancelled-Lifecycle now reason r ((s id r l).life)))

IsSound-Proposes : (now : String) (t t' : Table) → IsSound t → Proposes now t t' → IsSound t'
IsSound-Proposes now t t' s (Proposes.nothing e) = subst IsSound (sym e) s
IsSound-Proposes now t t' s (Proposes.one row parent p e) =
    subst IsSound (sym e) (IsSound-propose now t row parent s p p.placed)

IsSound-IsWritten : (r : DispatchRequest) (t t' : Table) → IsSound t → IsWritten r t t' → IsSound t'
IsSound-IsWritten r t t' s w = subst IsSound (sym w.written) (
    IsSound-update t w.id w.before w.after s w.found w.dispatched.core
      (rw w.dispatched.children ((s w.id w.before w.found).fanout))
      (dispatched-Lifecycle w.committer w.before w.after w.dispatched))

pub apply-IsSound : (c : Call) (t : Table) → IsSound t → IsSound (apply c t)
unfolding apply
apply-IsSound (propose parse now minted a) t s =
    IsSound-Proposes now t _ s (propose-Proposes parse now minted a t)
apply-IsSound (dispatch json f r) t s = elim (dispatch_task_run-cases json f r t) [
  | inl (e, same) ↦ subst IsSound (sym same) s
  | inr (w, _) ↦ IsSound-IsWritten r t _ s w
]
apply-IsSound (cancel now reason id actor) t s =
    IsSound-Cancels t _ s (cancel-Cancels now reason id actor t)

empty-IsSound : IsSound []
empty-IsSound id r h = absurd (none-ne-some (sym (lookup-nil id) ∙ h))

-- In a table that any proposals, dispatches and cancellations have built from an empty one, each run
-- stands under its id at depth 2 at most with at most 3 children; one below a parent stands one deeper
-- than it, within its ceilings of references, and the parent lists it; and a run that was dispatched has
-- as its human committer its requester or its assignee, any other has none.
pub built-IsSound : {t : Table} → Later [] t → IsSound t
built-IsSound here = empty-IsSound
built-IsSound (next l c) = apply-IsSound c _ (built-IsSound l)
