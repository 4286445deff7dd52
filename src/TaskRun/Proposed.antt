-- ===== src/TaskRun/Proposed.antt =====
-- src/task-run.js, `proposeTaskRun`: what a proposal that succeeds answers with and leaves behind.
use cairnstone_v.Prelude.{
  subst, String, ◌≡◌, sym, ◌∙◌, ap, false, inl, inr, Option, none, some, In, ◌==◌, string_eq,
  Bool-cases, eq_iff, none-ne-some, some-injective,
}
use cairnstone_v.Prelude.Names.{named, actor_pattern}
use cairnstone_v.Prelude.Dict.{lookup, insert, lookup-insert_self, lookup-insert_ne}
use cairnstone_v.Prelude.Result.{
  ok, bind-eq-ok, fail-ne-ok, ok-injective, get_or-eq-ok, Result-cases,
}
use cairnstone_v.AccessGrant.Create.{RefParser}
use cairnstone_v.TaskRun.{TaskRow, Table}
use cairnstone_v.TaskRun.Proposal.{ProposeArgs, Proposal, type_error, check_proposal}
use cairnstone_v.TaskRun.Propose.{with_child, check_propose, proposed_row, propose_task_run}
use cairnstone_v.TaskRun.Proposing.{IsPlaced, alone, below, IsProposal, check_propose-IsProposal}
use cairnstone_v.TaskRun.Sound.{after_proposal, link-none, link-some, In-push_self}

-- The runs that a proposal may change: itself and its parent.
pub record IsProposed (a : ProposeArgs) (t t' : Table) (row : TaskRow) : Type 0 where
  pub parent : Option String
  pub proposal : IsProposal t row parent
  pub requester : named actor_pattern a.requested_by ≡ some row.requested_by
  pub written : lookup row.task_run_id t' ≡ some row
  pub listed :
      (p : String)
      → parent ≡ some p
      → (q : TaskRow) × (lookup p t' ≡ some q) × In row.task_run_id q.child_task_run_ids
  pub others :
      (j : String)
      → (row.task_run_id == j) ≡ false
      → ((p : String) → parent ≡ some p → (p == j) ≡ false)
      → lookup j t' ≡ lookup j t

check_proposal-requester :
    (parse : RefParser) (minted : String) (a : ProposeArgs) (c : Proposal)
    → check_proposal parse minted a ≡ ok c
    → named actor_pattern a.requested_by ≡ some c.requested_by
unfolding check_proposal
check_proposal-requester parse minted a c h =
    let (who, e, h1) = bind-eq-ok _ _ h in
    let (_, _, h2) = bind-eq-ok _ _ h1 in
    let (_, _, h3) = bind-eq-ok _ _ h2 in
    let (_, _, h4) = bind-eq-ok _ _ h3 in
    let (_, _, h5) = bind-eq-ok _ _ h4 in
    let (_, _, h6) = bind-eq-ok _ _ h5 in
    let (_, _, h7) = bind-eq-ok _ _ h6 in
    let (_, _, h8) = bind-eq-ok _ _ h7 in
    let (_, _, h9) = bind-eq-ok _ _ h8 in
    let (_, _, last) = bind-eq-ok _ _ h9 in
    get_or-eq-ok _ _ who e ∙ ap (λ (x : Proposal). some x.requested_by) (ok-injective last)

check_propose-requester :
    (parse : RefParser) (now minted : String) (a : ProposeArgs) (t : Table) (row : TaskRow)
    (parent : Option String)
    → check_propose parse now minted a t ≡ ok (row, parent)
    → named actor_pattern a.requested_by ≡ some row.requested_by
unfolding check_propose proposed_row
check_propose-requester parse now minted a t row parent h =
    let (c, e, h1) = bind-eq-ok _ _ h in
    let (_, _, h2) = bind-eq-ok _ _ h1 in
    let (_, _, h3) = bind-eq-ok _ _ h2 in
    let (_, _, last) = bind-eq-ok _ _ h3 in
    check_proposal-requester parse minted a c e
    ∙ ap (λ (x : TaskRow × Option String). some (x.0).requested_by) (ok-injective last)

ne-sym : (x y : String) → (x == y) ≡ false → (y == x) ≡ false
ne-sym x y h = elim (Bool-cases (y == x)) [
  | inr n ↦ n
  | inl e ↦
      subst (λ z. (z == x) ≡ false) (sym ((eq_iff y x).0 e))
        (subst (λ z. (x == z) ≡ false) ((eq_iff y x).0 e) h)
]

module _ (now : String) (a : ProposeArgs) (t : Table) (row : TaskRow)
    (requester : named actor_pattern a.requested_by ≡ some row.requested_by) where
  placed-IsProposed :
      (parent : Option String)
      → IsProposal t row parent
      → IsPlaced t row parent
      → IsProposed a t (after_proposal now t row parent) row
  placed-IsProposed parent p (alone e d) =
      subst (λ u. IsProposed a t u row)
        (sym (link-none now row.task_run_id parent (insert row.task_run_id row t) e))
        (record {
          parent = parent;
          proposal = p;
          requester = requester;
          written = lookup-insert_self row.task_run_id row t;
          listed = λ at n. absurd (none-ne-some (sym e ∙ n));
          others = λ j n m. lookup-insert_ne row.task_run_id j row t n;
        })
  placed-IsProposed parent p (below at q e l c) =
      let first = insert row.task_run_id row t in
      let q' = with_child now row.task_run_id q in
      let apart : (row.task_run_id == at) ≡ false = new-apart row.task_run_id at q p.new l in
      let there = lookup-insert_ne row.task_run_id at row t apart ∙ l in
      subst (λ u. IsProposed a t u row)
        (sym (link-some now row.task_run_id parent at q first e there))
        (record {
          parent = parent;
          proposal = p;
          requester = requester;
          written =
              lookup-insert_ne at row.task_run_id q' first (ne-sym row.task_run_id at apart)
              ∙ lookup-insert_self row.task_run_id row t;
          listed = λ k n. (
            q',
            subst (λ x. lookup x (insert at q' first) ≡ some q') (some-injective (sym e ∙ n))
                (lookup-insert_self at q' first),
            In-push_self row.task_run_id q.child_task_run_ids,
          );
          others = λ j n m.
              lookup-insert_ne at j q' first (m at e) ∙ lookup-insert_ne row.task_run_id j row t n;
        })
    where
      new-apart :
          (id at : String) (q : TaskRow)
          → lookup id t ≡ none
          → lookup at t ≡ some q
          → (id == at) ≡ false
      new-apart id at q new l = elim (Bool-cases (id == at)) [
        | inr n ↦ n
        | inl y ↦
            absurd (
              none-ne-some
                (sym new ∙ subst (λ x. lookup x t ≡ some q) (sym ((eq_iff id at).0 y)) l))
      ]

-- A proposal that succeeds inserts a new run, proposed and not dispatched, for the requester that was
-- named, and answers with it. Below a parent, the parent was active and had less than 3 children, the
-- run is one deeper, at depth 2 at most, and within the parent's references and capabilities, and the
-- parent now lists it. No other run changes.
pub propose_task_run-IsProposed :
    (parse : RefParser) (now minted : String) (a : ProposeArgs) (t : Table) (row : TaskRow)
    → (propose_task_run parse now minted a t).0 ≡ ok row
    → IsProposed a t (propose_task_run parse now minted a t).1 row
unfolding propose_task_run
propose_task_run-IsProposed parse now minted a t row h =
    elim (Result-cases (check_propose parse now minted a t)) [
      | inr (e, f) ↦ fail-ne-ok (rw (f, propose_task_run) at h)
      | inl ((made, parent), f) ↦
          let p = check_propose-IsProposal parse now minted a t made parent f in
          let done =
            placed-IsProposed now a t made
              (check_propose-requester parse now minted a t made parent f) parent p p.placed in
          let shown =
            get_or-eq-ok (lookup made.task_run_id (after_proposal now t made parent)) type_error row
              (rw (f, propose_task_run) at h) in
          let same : made ≡ row = some-injective (sym done.written ∙ shown) in
          rw (f, propose_task_run)
            (subst (IsProposed a t (after_proposal now t made parent)) same done)
    ]
