-- ===== src/TaskRun/Closed.antt =====
-- src/task-run.js: a run that has come to its end never changes again.
use cairnstone_v.Prelude.{
  subst, String, ◌≡◌, sym, ◌∙◌, ap, true, false, inl, inr, Option, none, some, [], ◌==◌, string_eq,
  Bool-cases, eq_iff, some-injective, none-ne-some,
}
use cairnstone_v.Prelude.Dict.{lookup, insert, lookup-insert_ne}
use cairnstone_v.TaskRun.{TaskRow, Table, is_terminal, as_cancelled}
use cairnstone_v.TaskRun.Propose.{is_active_parent, with_child}
use cairnstone_v.TaskRun.Proposing.{IsPlaced, alone, below, IsProposal}
use cairnstone_v.TaskRun.Routing.{DispatchRequest}
use cairnstone_v.TaskRun.Dispatching.{IsWritten, dispatch_task_run-cases}
use cairnstone_v.TaskRun.History.{
  Call, propose, dispatch, cancel, apply, Later, here, next, Lifecycle, proposed, withdrawn, given,
  IsSound,
}
use cairnstone_v.TaskRun.Sound.{after_proposal, link-none, link-some, parent-found}
use cairnstone_v.TaskRun.Reachable.{
  Cancels, cancel-Cancels, Proposes, propose-Proposes, apply-IsSound, built-IsSound,
}

false-ne-true {ℓ} : {A : Type ℓ} → false ≡ true → A
false-ne-true h = absurd (ne h)
  where
    ne : false ≡ true → ⊥
    ne h = cc

-- A write over a run with another status leaves the runs at their end.
module _ (t : Table) (id : String) (r : TaskRow) (found : lookup id t ≡ some r)
    (closed : is_terminal r.status ≡ true) where
  apart :
      (at : String) (q q' : TaskRow)
      → lookup at t ≡ some q
      → is_terminal q.status ≡ false
      → lookup id (insert at q' t) ≡ some r
  apart at q q' l o = elim (Bool-cases (at == id)) [
    | inr n ↦ lookup-insert_ne at id q' t n ∙ found
    | inl y ↦
        let same : q ≡ r =
          some-injective (sym (subst (λ x. lookup x t ≡ some q) ((eq_iff at id).0 y) l) ∙ found) in
        false-ne-true (sym o ∙ ap (λ (x : TaskRow). is_terminal x.status) same ∙ closed)
  ]

  fresh-apart :
      (at : String) (q : TaskRow) → lookup at t ≡ none → lookup id (insert at q t) ≡ some r
  fresh-apart at q new = elim (Bool-cases (at == id)) [
    | inr n ↦ lookup-insert_ne at id q t n ∙ found
    | inl y ↦
        absurd
          (none-ne-some (sym (subst (λ x. lookup x t ≡ none) ((eq_iff at id).0 y) new) ∙ found))
  ]

closed-inactive :
    (r : TaskRow) → Lifecycle r → is_terminal r.status ≡ true → is_active_parent r ≡ false
closed-inactive r (proposed s d n) h = false-ne-true (sym (ap is_terminal s) ∙ h)
closed-inactive r (withdrawn s d n) h = rw (s, d)
closed-inactive r (given who (inl (s, d)) n m) h = false-ne-true (sym (ap is_terminal s) ∙ h)
closed-inactive r (given who (inr (inl (s, d))) n m) h = rw (s, d)
closed-inactive r (given who (inr (inr (s, d))) n m) h = rw (s, d)

active-open : (r : TaskRow) → Lifecycle r → is_active_parent r ≡ true → is_terminal r.status ≡ false
active-open r l a = elim (Bool-cases (is_terminal r.status)) [
  | inr n ↦ n
  | inl y ↦ false-ne-true (sym (closed-inactive r l y) ∙ a)
]

module _ (t : Table) (id : String) (r : TaskRow) (sound : IsSound t) (found : lookup id t ≡ some r)
    (closed : is_terminal r.status ≡ true) where
  closed-Cancels : (u : Table) → Cancels t u → lookup id u ≡ some r
  closed-Cancels u (Cancels.nothing e) = subst (λ x. lookup id x ≡ some r) (sym e) found
  closed-Cancels u (Cancels.one now reason at q l o e) =
      subst (λ x. lookup id x ≡ some r) (sym e)
        (apart t id r found closed at q (as_cancelled now reason q) l o)

  closed-IsWritten : (d : DispatchRequest) (u : Table) → IsWritten d t u → lookup id u ≡ some r
  closed-IsWritten d u w =
      subst (λ x. lookup id x ≡ some r) (sym w.written)
        (apart t id r found closed w.id w.before w.after w.found
          (ap is_terminal w.dispatched.was_proposed))

  closed-placed :
      (now : String) (row : TaskRow) (parent : Option String)
      → IsProposal t row parent
      → IsPlaced t row parent
      → lookup id (after_proposal now t row parent) ≡ some r
  closed-placed now row parent p (alone e d) =
      subst (λ x. lookup id x ≡ some r)
        (sym (link-none now row.task_run_id parent (insert row.task_run_id row t) e))
        (fresh-apart t id r found closed row.task_run_id row p.new)
  closed-placed now row parent p (below at q e l c) =
      let first = insert row.task_run_id row t in
      let there = parent-found now t row parent sound p at q e l c in
      subst (λ x. lookup id x ≡ some r)
        (sym (link-some now row.task_run_id parent at q first e there))
        (apart first id r (fresh-apart t id r found closed row.task_run_id row p.new) closed at q
          (with_child now row.task_run_id q) there (active-open q ((sound at q l).life) c.active))

  closed-Proposes : (now : String) (u : Table) → Proposes now t u → lookup id u ≡ some r
  closed-Proposes now u (Proposes.nothing e) = subst (λ x. lookup id x ≡ some r) (sym e) found
  closed-Proposes now u (Proposes.one row parent p e) =
      subst (λ x. lookup id x ≡ some r) (sym e) (closed-placed now row parent p p.placed)

  closed-apply : (c : Call) → lookup id (apply c t) ≡ some r
  unfolding apply
  closed-apply (propose parse now minted a) =
      closed-Proposes now _ (propose-Proposes parse now minted a t)
  closed-apply (dispatch json f d) = elim (dispatch_task_run-cases json f d t) [
    | inl (e, same) ↦ subst (λ x. lookup id x ≡ some r) (sym same) found
    | inr (w, _) ↦ closed-IsWritten d _ w
  ]
  closed-apply (cancel now reason at actor) =
      closed-Cancels _ (cancel-Cancels now reason at actor t)

Later-IsSound : {t u : Table} → IsSound t → Later t u → IsSound u
Later-IsSound s here = s
Later-IsSound s (next l c) = apply-IsSound c _ (Later-IsSound s l)

-- A run of a table that calls have built, once completed, failed or cancelled, stands unchanged in every
-- column after any further calls, whoever makes them.
pub closed_forever :
    {t u : Table} (id : String) (r : TaskRow)
    → Later [] t
    → lookup id t ≡ some r
    → is_terminal r.status ≡ true
    → Later t u
    → lookup id u ≡ some r
closed_forever id r built found closed here = found
closed_forever id r built found closed (next l c) =
    closed-apply _ id r (Later-IsSound (built-IsSound built) l)
      (closed_forever id r built found closed l) closed c
