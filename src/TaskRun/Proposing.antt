-- ===== src/TaskRun/Proposing.antt =====
-- src/task-run.js, `proposeTaskRun`: what a proposal that succeeds has inserted, and where.
use cairnstone_v.Prelude.{
  subst, ℕ, ◌+◌, ◌≤◌, ◌<◌, String, ◌≡◌, refl, sym, true, false, Option, none, some, [], length, ltb,
  leb→le, string_eq, arith, Option-cases, inl, inr,
}
use cairnstone_v.Prelude.Dict.{lookup}
use cairnstone_v.Prelude.Result.{unless-eq-ok, ok, bind-eq-ok, ok-injective, get_or-eq-ok}
use cairnstone_v.AccessGrant.Create.{RefParser}
use cairnstone_v.TaskRun.{TaskRow, Table}
use cairnstone_v.TaskRun.Status.{TaskStatus, DispatchState}
use cairnstone_v.TaskRun.Ceilings.{IsWithin, subsets_exact}
use cairnstone_v.TaskRun.Proposal.{ProposeArgs, Proposal, max_delegation_depth, max_fanout}
use cairnstone_v.TaskRun.Propose.{
  attachment_ceiling, object_ceiling, is_active_parent, check_parent, child_depth, is_new,
  proposed_row, check_propose,
}

ltb→lt : (m n : ℕ) → ltb m n ≡ true → m < n
ltb→lt m n h = ground arith

-- A child that passed the tests of its parent.
pub record IsChildOf (row : TaskRow) (q : TaskRow) : Type 0 where
  pub active : is_active_parent q ≡ true
  pub depth : row.delegation_depth ≡ q.delegation_depth + 1
  pub bounded : row.delegation_depth ≤ max_delegation_depth
  pub room : length q.child_task_run_ids < max_fanout
  pub attachments : IsWithin row.attachment_refs (attachment_ceiling q)
  pub objects : IsWithin row.object_refs (object_ceiling q)
  pub capabilities : IsWithin row.required_capabilities q.required_capabilities

-- Where a new run stands.
pub data IsPlaced (t : Table) (row : TaskRow) : Option String → Type 0 where
  alone :
      {parent : Option String} → parent ≡ none → row.delegation_depth ≡ 0 → IsPlaced t row parent
  below :
      {parent : Option String} (p : String) (q : TaskRow)
      → parent ≡ some p
      → lookup p t ≡ some q
      → IsChildOf row q
      → IsPlaced t row parent

pub record IsProposal (t : Table) (row : TaskRow) (parent : Option String) : Type 0 where
  pub new : lookup row.task_run_id t ≡ none
  pub status : row.status ≡ TaskStatus.proposed
  pub dispatch_state : row.dispatch_state ≡ DispatchState.not_dispatched
  pub uncommitted : row.human_committed_by ≡ none
  pub childless : row.child_task_run_ids ≡ []
  pub parent_named : row.parent_task_run_id ≡ parent
  pub placed : IsPlaced t row parent

module _ (now : String) (a : ProposeArgs) (c : Proposal) where
  check_parent-IsChildOf :
      (parent : Option String) (q : TaskRow) (depth : ℕ)
      → check_parent c q ≡ ok depth
      → IsChildOf (proposed_row now a c parent depth) q
  unfolding check_parent proposed_row
  check_parent-IsChildOf parent q depth h =
      let (_, active, h1) = bind-eq-ok _ _ h in
      let (_, deep, h2) = bind-eq-ok _ _ h1 in
      let (_, wide, h3) = bind-eq-ok _ _ h2 in
      let (_, refs, h4) = bind-eq-ok _ _ h3 in
      let (_, objects, h5) = bind-eq-ok _ _ h4 in
      let (_, caps, h6) = bind-eq-ok _ _ h5 in
      let same : q.delegation_depth + 1 ≡ depth = ok-injective h6 in
      record {
        active = unless-eq-ok _ _ active;
        depth = sym same;
        bounded = subst (λ n. n ≤ 2) same (leb→le _ _ (unless-eq-ok _ _ deep));
        room = ltb→lt _ _ (unless-eq-ok _ _ wide);
        attachments =
            (subsets_exact c.attachment_refs (attachment_ceiling q)).0.0 (unless-eq-ok _ _ refs);
        objects = (subsets_exact c.object_refs (object_ceiling q)).0.0 (unless-eq-ok _ _ objects);
        capabilities =
            (subsets_exact c.required_capabilities q.required_capabilities).1.0
              (unless-eq-ok _ _ caps);
      }

  child_depth-IsPlaced :
      (t : Table) (parent : Option String) (depth : ℕ)
      → child_depth c parent t ≡ ok depth
      → IsPlaced t (proposed_row now a c parent depth) parent
  unfolding child_depth proposed_row
  child_depth-IsPlaced t none depth h = alone refl (sym (ok-injective h))
  child_depth-IsPlaced t (some p) depth h =
      let (q, found, k) = bind-eq-ok _ _ h in
      below p q refl (get_or-eq-ok _ _ q found) (check_parent-IsChildOf (some p) q depth k)

is_new-none : (id : String) (t : Table) → is_new id t ≡ true → lookup id t ≡ none
is_new-none id t h = elim (Option-cases (lookup id t)) [
  | inl e ↦ e
  | inr (r, e) ↦ absurd (false-ne-true (rw (e, is_new) at h))
]
  where
    false-ne-true : false ≡ true → ⊥
    false-ne-true h = cc

pub check_propose-IsProposal :
    (parse : RefParser) (now minted : String) (a : ProposeArgs) (t : Table) (row : TaskRow)
    (parent : Option String)
    → check_propose parse now minted a t ≡ ok (row, parent)
    → IsProposal t row parent
unfolding check_propose proposed_row
check_propose-IsProposal parse now minted a t row parent h =
    let (c, _, h1) = bind-eq-ok _ _ h in
    let (above, _, h2) = bind-eq-ok _ _ h1 in
    let (depth, placed, h3) = bind-eq-ok _ _ h2 in
    let (_, fresh, h4) = bind-eq-ok _ _ h3 in
    let same = ok-injective h4 in
    subst (λ (p : TaskRow × Option String). IsProposal t p.0 p.1) same
      (record {
        new = is_new-none c.task_run_id t (unless-eq-ok _ _ fresh);
        status = refl;
        dispatch_state = refl;
        uncommitted = refl;
        childless = refl;
        parent_named = refl;
        placed = child_depth-IsPlaced now a c t above depth placed;
      })
