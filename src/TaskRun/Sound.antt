-- ===== src/TaskRun/Sound.antt =====
-- src/task-run.js: the writes of task_runs keep every run sound.
use cairnstone_v.Prelude.{
  subst, ◌≤◌, suc, String, ◌≡◌, refl, sym, ◌∙◌, ap, false, inl, inr, Option, none, some, List, [],
  ◌∷◌, length, push, In, ◌==◌, string_eq, Bool-cases, arith, eq_iff, none-ne-some,
}
use cairnstone_v.Prelude.Dict.{lookup, insert, lookup-insert_self, lookup-insert_ne}
use cairnstone_v.TaskRun.{TaskRow, Table}
use cairnstone_v.TaskRun.Proposal.{max_fanout}
use cairnstone_v.TaskRun.Propose.{with_child, link_parent}
use cairnstone_v.TaskRun.Proposing.{IsChildOf, IsPlaced, alone, below, IsProposal}
use cairnstone_v.TaskRun.History.{
  Lifecycle, proposed, withdrawn, given, root, child, IsSoundRow, IsSound, SameCore, Keeps,
  HasParent-Keeps, HasParent-SameCore, lookup-insert-cases, Keeps-update, Keeps-insert,
}

pub In-push : (x y : String) (xs : List String) → In x xs → In x (push y xs)
In-push x y (z ∷ zs) (inl e) = inl e
In-push x y (z ∷ zs) (inr i) = inr (In-push x y zs i)
In-push x y [] i = absurd i

pub In-push_self : (x : String) (xs : List String) → In x (push x xs)
In-push_self x [] = inl refl
In-push_self x (z ∷ zs) = inr (In-push_self x zs)

length-push : (x : String) (xs : List String) → length (push x xs) ≡ suc (length xs)
length-push x [] = refl
length-push x (y ∷ ys) = ap suc (length-push x ys)

pub IsSoundRow-Keeps :
    (t u : Table) (id : String) (r : TaskRow) → Keeps t u → IsSoundRow t id r → IsSoundRow u id r
IsSoundRow-Keeps t u id r k s = record {
  keyed = s.keyed;
  depth = s.depth;
  fanout = s.fanout;
  life = s.life;
  family = HasParent-Keeps t u r k s.family;
}

-- A write over a run that keeps its core, its bounds and its life.
pub IsSound-update :
    (t : Table) (id : String) (r r' : TaskRow)
    → IsSound t
    → lookup id t ≡ some r
    → SameCore r r'
    → length r'.child_task_run_ids ≤ max_fanout
    → Lifecycle r'
    → IsSound (insert id r' t)
IsSound-update t id r r' sound l core room life j s h =
    let keeps = Keeps-update t id r r' l core in
    elim (lookup-insert-cases id j r' s t h) [
      | inr (n, k) ↦ IsSoundRow-Keeps t (insert id r' t) j s keeps (sound j s k)
      | inl (e, same) ↦
          let old = sound id r l in
          let row : IsSoundRow (insert id r' t) id r' = record {
            keyed = core.task_run_id ∙ old.keyed;
            depth = rw core.depth old.depth;
            fanout = room;
            life = life;
            family =
                HasParent-Keeps t (insert id r' t) r' keeps
                  (HasParent-SameCore t r r' core old.family);
          } in
          subst (λ x. IsSoundRow (insert id r' t) x s) e
            (subst (IsSoundRow (insert id r' t) id) same row)
    ]

with_child-SameCore : (now id : String) (q : TaskRow) → SameCore q (with_child now id q)
with_child-SameCore now id q = record {
  task_run_id = refl;
  requested_by = refl;
  assignee = refl;
  attachment_refs = refl;
  object_refs = refl;
  parent = refl;
  depth = refl;
  children = λ c i. In-push c id q.child_task_run_ids i;
}

with_child-Lifecycle :
    (now id : String) (q : TaskRow) → Lifecycle q → Lifecycle (with_child now id q)
with_child-Lifecycle now id q (proposed s d n) = proposed s d n
with_child-Lifecycle now id q (withdrawn s d n) = withdrawn s d n
with_child-Lifecycle now id q (given who c n m) = given who c n m

new-Lifecycle :
    (t : Table) (row : TaskRow) (parent : Option String) → IsProposal t row parent → Lifecycle row
new-Lifecycle t row parent p = proposed p.status p.dispatch_state p.uncommitted

fanout-new :
    (t : Table) (row : TaskRow) (parent : Option String)
    → IsProposal t row parent
    → length row.child_task_run_ids ≤ max_fanout
fanout-new t row parent p = rw p.childless (omega arith)

-- A new run at the root.
IsSound-insert :
    (t : Table) (row : TaskRow) (parent : Option String)
    → IsSound t
    → IsProposal t row parent
    → parent ≡ none
    → row.delegation_depth ≡ 0
    → IsSound (insert row.task_run_id row t)
IsSound-insert t row parent sound p none_above flat j s h =
    elim (lookup-insert-cases row.task_run_id j row s t h) [
      | inr (n, k) ↦
          IsSoundRow-Keeps t (insert row.task_run_id row t) j s
            (Keeps-insert t row.task_run_id row p.new) (sound j s k)
      | inl (e, same) ↦
          let made : IsSoundRow (insert row.task_run_id row t) row.task_run_id row = record {
            keyed = refl;
            depth = rw flat (omega arith);
            fanout = fanout-new t row parent p;
            life = new-Lifecycle t row parent p;
            family = root (p.parent_named ∙ none_above) flat;
          } in
          subst (λ x. IsSoundRow (insert row.task_run_id row t) x s) e
            (subst (IsSoundRow (insert row.task_run_id row t) row.task_run_id) same made)
    ]

-- A new run below a parent, which lists it.
module _ (now : String) (t : Table) (row : TaskRow) (parent : Option String) (sound : IsSound t)
    (p : IsProposal t row parent) (at : String) (q : TaskRow) (named : parent ≡ some at)
    (found : lookup at t ≡ some q) (fits : IsChildOf row q) where
  abbrev first : Table
  first = insert row.task_run_id row t

  abbrev both : Table
  both = insert at (with_child now row.task_run_id q) first

  parent-apart : (row.task_run_id == at) ≡ false
  parent-apart = elim (Bool-cases (row.task_run_id == at)) [
    | inr n ↦ n
    | inl y ↦ absurd (
        none-ne-some (
          sym p.new
          ∙ subst (λ x. lookup x t ≡ some q) (sym ((eq_iff row.task_run_id at).0 y)) found))
  ]

  pub parent-found : lookup at first ≡ some q
  parent-found = lookup-insert_ne row.task_run_id at row t parent-apart ∙ found

  Keeps-first : Keeps t first
  Keeps-first = Keeps-insert t row.task_run_id row p.new

  Keeps-second : Keeps first both
  Keeps-second =
      Keeps-update first at q (with_child now row.task_run_id q) parent-found
        (with_child-SameCore now row.task_run_id q)

  pub linked : lookup at both ≡ some (with_child now row.task_run_id q)
  linked = lookup-insert_self at (with_child now row.task_run_id q) first

  made : IsSoundRow both row.task_run_id row
  made = record {
    keyed = refl;
    depth = fits.bounded;
    fanout = fanout-new t row parent p;
    life = new-Lifecycle t row parent p;
    family =
        child at (with_child now row.task_run_id q) (p.parent_named ∙ named) linked fits.depth
          fits.attachments fits.objects (In-push_self row.task_run_id q.child_task_run_ids);
  }

  above : IsSoundRow both at (with_child now row.task_run_id q)
  above =
      let old = sound at q found in
      record {
        keyed = old.keyed;
        depth = old.depth;
        fanout = omega (arith, length-push row.task_run_id q.child_task_run_ids, fits.room);
        life = with_child-Lifecycle now row.task_run_id q old.life;
        family = HasParent-Keeps first both (with_child now row.task_run_id q) Keeps-second (
            HasParent-SameCore first q (with_child now row.task_run_id q)
              (with_child-SameCore now row.task_run_id q)
              (HasParent-Keeps t first q Keeps-first old.family));
      }

  pub IsSound-link : IsSound both
  IsSound-link j s h =
      elim (lookup-insert-cases at j (with_child now row.task_run_id q) s first h) [
        | inl (e, same) ↦ subst (λ x. IsSoundRow both x s) e (subst (IsSoundRow both at) same above)
        | inr (n, k) ↦ elim (lookup-insert-cases row.task_run_id j row s t k) [
          | inl (e, same) ↦
              subst (λ x. IsSoundRow both x s) e (subst (IsSoundRow both row.task_run_id) same made)
          | inr (m, g) ↦
              IsSoundRow-Keeps first both j s Keeps-second
                (IsSoundRow-Keeps t first j s Keeps-first (sound j s g))
        ]
      ]

pub link-none :
    (now id : String) (parent : Option String) (t : Table)
    → parent ≡ none
    → link_parent now id parent t ≡ t
unfolding link_parent
link-none now id parent t e = rw e

pub link-some :
    (now id : String) (parent : Option String) (at : String) (q : TaskRow) (t : Table)
    → parent ≡ some at
    → lookup at t ≡ some q
    → link_parent now id parent t ≡ insert at (with_child now id q) t
unfolding link_parent
link-some now id parent at q t e l = rw (e, link_parent) (rw l)

-- The table after a proposal.
abbrev pub after_proposal : String → Table → TaskRow → Option String → Table
after_proposal now t row parent =
    link_parent now row.task_run_id parent (insert row.task_run_id row t)

pub IsSound-propose :
    (now : String) (t : Table) (row : TaskRow) (parent : Option String)
    → IsSound t
    → IsProposal t row parent
    → IsPlaced t row parent
    → IsSound (after_proposal now t row parent)
IsSound-propose now t row parent sound p (alone e d) =
    subst IsSound (sym (link-none now row.task_run_id parent (insert row.task_run_id row t) e))
      (IsSound-insert t row parent sound p e d)
IsSound-propose now t row parent sound p (below at q e l c) =
    subst IsSound
      (sym (
        link-some now row.task_run_id parent at q (insert row.task_run_id row t) e
          (parent-found now t row parent sound p at q e l c)))
      (IsSound-link now t row parent sound p at q e l c)
