-- ===== src/TaskRun/History.antt =====
-- src/task-run.js: the calls that write task_runs, one after another, and what is kept of a run.
use cairnstone_v.Prelude.{
  subst, ◌+◌, ◌≤◌, String, ◌≡◌, refl, sym, ◌∙◌, true, false, ◌⊎◌, inl, inr, none, some, length, In,
  ◌==◌, string_eq, Bool-cases, eq_iff, some-injective, none-ne-some,
}
use cairnstone_v.Prelude.Value.{Value}
use cairnstone_v.Prelude.Dict.{lookup, insert, lookup-insert, lookup-insert_self, lookup-insert_ne}
use cairnstone_v.AccessGrant.Create.{RefParser}
use cairnstone_v.Executors.Pack.{PackJson}
use cairnstone_v.TaskRun.{TaskRow, Table, cancel_task_run}
use cairnstone_v.TaskRun.Status.{TaskStatus, DispatchState}
use cairnstone_v.TaskRun.Ceilings.{IsWithin}
use cairnstone_v.TaskRun.Proposal.{ProposeArgs, max_delegation_depth, max_fanout}
use cairnstone_v.TaskRun.Propose.{attachment_ceiling, object_ceiling, propose_task_run}
use cairnstone_v.TaskRun.Routing.{Fresh, DispatchRequest, actor_may_dispatch}
use cairnstone_v.TaskRun.Dispatch.{dispatch_task_run}

-- Each call has the moment of its clock and the ids that it mints.
pub data Call : Type 0 where
  propose : RefParser → String → String → ProposeArgs → Call
  dispatch : PackJson → Fresh → DispatchRequest → Call
  cancel : String → String → Value → Value → Call

unfoldable pub apply : Call → Table → Table
apply (propose parse now minted a) t = (propose_task_run parse now minted a t).1
apply (dispatch json f r) t = (dispatch_task_run json f r t).1
apply (cancel now reason id actor) t = (cancel_task_run now reason id actor t).1

pub data Later (t : Table) : Table → Type 0 where
  here : Later t t
  next : {u : Table} → Later t u → (c : Call) → Later t (apply c u)

-- A run that was never dispatched has no committer; one that was has the requester or the assignee.
pub data Lifecycle (r : TaskRow) : Type 0 where
  proposed :
      r.status ≡ TaskStatus.proposed
      → r.dispatch_state ≡ DispatchState.not_dispatched
      → r.human_committed_by ≡ none
      → Lifecycle r
  withdrawn :
      r.status ≡ TaskStatus.cancelled
      → r.dispatch_state ≡ DispatchState.not_dispatched
      → r.human_committed_by ≡ none
      → Lifecycle r
  given :
      (who : String)
      → (((r.status ≡ TaskStatus.queued) × (r.dispatch_state ≡ DispatchState.dispatched))
          ⊎ (((r.status ≡ TaskStatus.completed) × (r.dispatch_state ≡ DispatchState.completed))
              ⊎ ((r.status ≡ TaskStatus.cancelled) × (r.dispatch_state ≡ DispatchState.cancelled))))
      → r.human_committed_by ≡ some who
      → actor_may_dispatch r who ≡ true
      → Lifecycle r

-- A run stands below the parent that it names, within its ceilings, and the parent lists it.
pub data HasParent (t : Table) (r : TaskRow) : Type 0 where
  root : r.parent_task_run_id ≡ none → r.delegation_depth ≡ 0 → HasParent t r
  child :
      (p : String) (q : TaskRow)
      → r.parent_task_run_id ≡ some p
      → lookup p t ≡ some q
      → r.delegation_depth ≡ q.delegation_depth + 1
      → IsWithin r.attachment_refs (attachment_ceiling q)
      → IsWithin r.object_refs (object_ceiling q)
      → In r.task_run_id q.child_task_run_ids
      → HasParent t r

pub record IsSoundRow (t : Table) (id : String) (r : TaskRow) : Type 0 where
  pub keyed : r.task_run_id ≡ id
  pub depth : r.delegation_depth ≤ max_delegation_depth
  pub fanout : length r.child_task_run_ids ≤ max_fanout
  pub life : Lifecycle r
  pub family : HasParent t r

abbrev pub IsSound : Table → Type 0
IsSound t = (id : String) (r : TaskRow) → lookup id t ≡ some r → IsSoundRow t id r

-- What no call changes of a run; its children are only added to.
pub record SameCore (r r' : TaskRow) : Type 0 where
  pub task_run_id : r'.task_run_id ≡ r.task_run_id
  pub requested_by : r'.requested_by ≡ r.requested_by
  pub assignee : r'.assignee_actor_id ≡ r.assignee_actor_id
  pub attachment_refs : r'.attachment_refs ≡ r.attachment_refs
  pub object_refs : r'.object_refs ≡ r.object_refs
  pub parent : r'.parent_task_run_id ≡ r.parent_task_run_id
  pub depth : r'.delegation_depth ≡ r.delegation_depth
  pub children : (c : String) → In c r.child_task_run_ids → In c r'.child_task_run_ids

pub SameCore-refl : (r : TaskRow) → SameCore r r
SameCore-refl r = record {
  task_run_id = refl;
  requested_by = refl;
  assignee = refl;
  attachment_refs = refl;
  object_refs = refl;
  parent = refl;
  depth = refl;
  children = λ c i. i;
}

-- The runs of a table stand in the other with the same core.
abbrev pub Keeps : Table → Table → Type 0
Keeps t u =
    (id : String) (r : TaskRow)
    → lookup id t ≡ some r
    → (r' : TaskRow) × (lookup id u ≡ some r') × SameCore r r'

ceiling-same : (q q' : TaskRow) → SameCore q q' → attachment_ceiling q' ≡ attachment_ceiling q
ceiling-same q q' s = rw (s.attachment_refs, s.object_refs)

object-same : (q q' : TaskRow) → SameCore q q' → object_ceiling q' ≡ object_ceiling q
object-same q q' s = rw (s.attachment_refs, s.object_refs)

pub HasParent-Keeps : (t u : Table) (r : TaskRow) → Keeps t u → HasParent t r → HasParent u r
HasParent-Keeps t u r k (root e d) = root e d
HasParent-Keeps t u r k (child p q e l d a o i) =
    let (q', l', s) = k p q l in
    child p q' e l' (rw s.depth d)
      (subst (IsWithin r.attachment_refs) (sym (ceiling-same q q' s)) a)
      (subst (IsWithin r.object_refs) (sym (object-same q q' s)) o) (s.children r.task_run_id i)

pub HasParent-SameCore :
    (t : Table) (r r' : TaskRow) → SameCore r r' → HasParent t r → HasParent t r'
HasParent-SameCore t r r' s (root e d) = root (s.parent ∙ e) (s.depth ∙ d)
HasParent-SameCore t r r' s (child p q e l d a o i) =
    child p q (s.parent ∙ e) l (s.depth ∙ d)
      (subst (λ x. IsWithin x (attachment_ceiling q)) (sym s.attachment_refs) a)
      (subst (λ x. IsWithin x (object_ceiling q)) (sym s.object_refs) o)
      (subst (λ x. In x q.child_task_run_ids) (sym s.task_run_id) i)

-- What is found after an insertion.
pub lookup-insert-cases :
    (k j : String) (v s : TaskRow) (t : Table)
    → lookup j (insert k v t) ≡ some s
    → ((k ≡ j) × (v ≡ s)) ⊎ (((k == j) ≡ false) × (lookup j t ≡ some s))
lookup-insert-cases k j v s t h = elim (Bool-cases (k == j)) [
  | inl y ↦ inl ((eq_iff k j).0 y, some-injective (rw y at (sym (lookup-insert k j v t) ∙ h)))
  | inr n ↦ inr (n, sym (lookup-insert_ne k j v t n) ∙ h)
]

-- A write over a run that keeps its core.
pub Keeps-update :
    (t : Table) (id : String) (r r' : TaskRow)
    → lookup id t ≡ some r
    → SameCore r r'
    → Keeps t (insert id r' t)
Keeps-update t id r r' l s j q h = elim (Bool-cases (id == j)) [
  | inl y ↦
      let e = (eq_iff id j).0 y in
      (
        r',
        subst (λ x. lookup x (insert id r' t) ≡ some r') e (lookup-insert_self id r' t),
        subst (λ x. SameCore x r')
            (some-injective (sym l ∙ subst (λ x. lookup x t ≡ some q) (sym e) h)) s,
      )
  | inr n ↦ (q, lookup-insert_ne id j r' t n ∙ h, SameCore-refl q)
]

-- A new run.
pub Keeps-insert :
    (t : Table) (id : String) (r : TaskRow) → lookup id t ≡ none → Keeps t (insert id r t)
Keeps-insert t id r new j q h = elim (Bool-cases (id == j)) [
  | inl y ↦
      absurd (none-ne-some (sym new ∙ subst (λ x. lookup x t ≡ some q) (sym ((eq_iff id j).0 y)) h))
  | inr n ↦ (q, lookup-insert_ne id j r t n ∙ h, SameCore-refl q)
]
