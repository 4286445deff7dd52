-- ===== src/TurnSync/Races.antt =====
-- src/turnsync-policy.js: writes whose reads and statements interleave.
use cairnstone_v.Prelude.{
  ℕ, suc, String, ◌≡◌, ◌≤◌, refl, sym, ◌∙◌, ap, subst, some, false, ◌==◌, string_eq, arith, eq_iff,
  Bool-cases, Option-cases, inl, inr, nat_eqb,
}
use cairnstone_v.Prelude.Dict.{lookup, insert, lookup-insert, lookup-insert_self}
use cairnstone_v.Prelude.Result.{ok, fail, ok-injective, fail-ne-ok}
use cairnstone_v.TurnSync.Policy.{PolicyRow}
use cairnstone_v.TurnSync.Stored.{
  AuthContext, PolicyWrite, Table, turnsync_policy_conflict, Pending, inserting, updating, Written,
  new_policy, revised, find_policy, finish_set,
}

-- The tables that statements of any writes leave, one after another.
pub data Later (t : Table) : Table → Type 0 where
  here : Later t t
  next :
      {u : Table}
      → Later t u
      → (minted now : String) (p : Pending) → Later t (finish_set minted now p u).1

-- A policy is still there, of the same account and scope, at the same or a later revision.
pub record Outlives (id : String) (row : PolicyRow) (t : Table) : Type 0 where
  pub row_now : PolicyRow
  pub found : lookup id t ≡ some row_now
  pub revision : row.revision ≤ row_now.revision
  pub policy_id : row_now.policy_id ≡ row.policy_id
  pub account : row_now.account_id ≡ row.account_id
  pub tenant : row_now.tenant_id ≡ row.tenant_id
  pub kind : row_now.scope_kind ≡ row.scope_kind
  pub key : row_now.scope_key ≡ row.scope_key
  pub created : row_now.created_at ≡ row.created_at

unchanged : (id : String) (row : PolicyRow) (t : Table) → lookup id t ≡ some row → Outlives id row t
unchanged id row t e = record {
  row_now = row;
  found = e;
  revision = omega arith;
  policy_id = refl;
  account = refl;
  tenant = refl;
  kind = refl;
  key = refl;
  created = refl;
}

insert-Outlives :
    (id minted now : String) (row : PolicyRow) (a : AuthContext) (w : PolicyWrite) (t : Table)
    → lookup id t ≡ some row
    → Outlives id row (finish_set minted now (inserting a w) t).1
unfolding finish_set
insert-Outlives id minted now row a w t e = elim (Option-cases (lookup minted t)) [
  | inr (r, f) ↦ rw (f, finish_set) (unchanged id row t e)
  | inl n ↦ elim (Option-cases (find_policy a w.scope t)) [
    | inr (r, f) ↦ rw (n, f, finish_set) (unchanged id row t e)
    | inl m ↦
        rw (n, m, finish_set)
          (unchanged id row (insert minted (new_policy a w minted now) t) (
            ground
              (arith, lookup-insert minted id (new_policy a w minted now) t, eq_iff minted id)))
  ]
]

revised-Outlives :
    (id : String) (row : PolicyRow) (a : AuthContext) (w : PolicyWrite) (now : String) (t : Table)
    → lookup id t ≡ some row
    → Outlives id row (insert id (revised a w now row) t)
unfolding revised
revised-Outlives id row a w now t e = record {
  row_now = revised a w now row;
  found = lookup-insert_self id (revised a w now row) t;
  revision = omega arith;
  policy_id = refl;
  account = refl;
  tenant = refl;
  kind = refl;
  key = refl;
  created = refl;
}

update-Outlives :
    (id minted now : String) (row : PolicyRow) (a : AuthContext) (w : PolicyWrite) (j : String)
    (base : ℕ) (t : Table)
    → lookup id t ≡ some row
    → Outlives id row (finish_set minted now (updating a w j base) t).1
unfolding finish_set
update-Outlives id minted now row a w j base t e = elim (Option-cases (lookup j t)) [
  | inl n ↦ rw (n, finish_set) (unchanged id row t e)
  | inr (r, f) ↦ elim (Bool-cases (nat_eqb r.revision base)) [
    | inr n ↦ rw (f, finish_set, n) (unchanged id row t e)
    | inl y ↦
        rw (f, finish_set, y)
          (elim (Bool-cases (j == id)) [
            | inl s ↦
                let same : j ≡ id = (eq_iff j id).0 s in
                let row_same : r ≡ row = ground arith in
                subst (λ k. Outlives id row (insert k (revised a w now r) t)) (sym same)
                  (subst (λ x. Outlives id row (insert id (revised a w now x) t)) (sym row_same)
                    (revised-Outlives id row a w now t e))
            | inr d ↦
                unchanged id row (insert j (revised a w now r) t)
                  (ground (arith, lookup-insert j id (revised a w now r) t))
          ])
  ]
]

finish-Outlives :
    (id minted now : String) (row : PolicyRow) (p : Pending) (t : Table)
    → lookup id t ≡ some row
    → Outlives id row (finish_set minted now p t).1
finish-Outlives id minted now row (inserting a w) t e = insert-Outlives id minted now row a w t e
finish-Outlives id minted now row (updating a w j base) t e =
    update-Outlives id minted now row a w j base t e

-- A stored policy stands, whatever statements of writes follow: it keeps its id, account, tenant,
-- scope and date of creation, and its revision never falls.
pub Later-Outlives :
    {t u : Table} (id : String) (row : PolicyRow)
    → Later t u
    → lookup id t ≡ some row
    → Outlives id row u
Later-Outlives {t} id row here e = unchanged id row t e
Later-Outlives id row (next {u} l minted now p) e =
    let o = Later-Outlives id row l e in
    let o' = finish-Outlives id minted now o.row_now p u o.found in
    record {
      row_now = o'.row_now;
      found = o'.found;
      revision = omega (arith, o.revision, o'.revision);
      policy_id = o'.policy_id ∙ o.policy_id;
      account = o'.account ∙ o.account;
      tenant = o'.tenant ∙ o.tenant;
      kind = o'.kind ∙ o.kind;
      key = o'.key ∙ o.key;
      created = o'.created ∙ o.created;
    }

-- What an update's statement does where it succeeds.
pub record IsUpdate (a : AuthContext) (w : PolicyWrite) (id : String) (base : ℕ) (t t' : Table)
    (out : Written) : Type 0 where
  pub before : PolicyRow
  pub found : lookup id t ≡ some before
  pub read : before.revision ≡ base
  pub after : PolicyRow
  pub written : lookup id t' ≡ some after
  pub revision : after.revision ≡ suc base
  pub mode : after.mode ≡ w.mode
  pub payload_mode : after.payload_mode ≡ w.payload_mode
  pub principal : after.updated_by_principal_id ≡ a.principal_id
  pub shown : out.policy ≡ some after
  pub others : (j : String) → (id == j) ≡ false → lookup j t' ≡ lookup j t

revised-IsUpdate :
    (a : AuthContext) (w : PolicyWrite) (id : String) (base : ℕ) (now : String) (t : Table)
    (row : PolicyRow)
    → lookup id t ≡ some row
    → row.revision ≡ base
    → IsUpdate a w id base t
        (insert id (revised a w now row) t)
        (record { created = false; policy = lookup id (insert id (revised a w now row) t) })
unfolding revised
revised-IsUpdate a w id base now t row e r = record {
  before = row;
  found = e;
  read = r;
  after = revised a w now row;
  written = lookup-insert_self id (revised a w now row) t;
  revision = ap (λ n. suc n) r;
  mode = refl;
  payload_mode = refl;
  principal = refl;
  shown = lookup-insert_self id (revised a w now row) t;
  others = λ j n. ground (arith, lookup-insert id j (revised a w now row) t);
}

-- The statement of an update succeeds only on the revision that its write has read: then the policy
-- has the next revision and what the write says, with the writer's principal, is the policy that is
-- answered, and no other policy changes.
pub finish_set-IsUpdate :
    (minted now : String) (a : AuthContext) (w : PolicyWrite) (id : String) (base : ℕ) (t : Table)
    (out : Written)
    → (finish_set minted now (updating a w id base) t).0 ≡ ok out
    → IsUpdate a w id base t (finish_set minted now (updating a w id base) t).1 out
unfolding finish_set
finish_set-IsUpdate minted now a w id base t out h = elim (Option-cases (lookup id t)) [
  | inl n ↦ fail-ne-ok (rw (n, finish_set) at h)
  | inr (row, f) ↦ elim (Bool-cases (nat_eqb row.revision base)) [
    | inr n ↦ fail-ne-ok (rw (f, finish_set, n) at h)
    | inl y ↦
        rw (f, finish_set, y)
          (subst (IsUpdate a w id base t (insert id (revised a w now row) t))
            (ok-injective (rw (f, finish_set, y) at h))
            (revised-IsUpdate a w id base now t row f (ground arith)))
  ]
]

-- Of two writes that read the same revision of a policy, at most one succeeds: once the statement of
-- one has succeeded, that of the other is refused and changes nothing, whatever statements come
-- between them.
pub one_writer :
    (minted now minted' now' : String) (a a' : AuthContext) (w w' : PolicyWrite) (id : String)
    (base : ℕ) (t : Table) {u : Table} (out : Written)
    → (finish_set minted now (updating a w id base) t).0 ≡ ok out
    → Later (finish_set minted now (updating a w id base) t).1 u
    → finish_set minted' now' (updating a' w' id base) u ≡ (fail turnsync_policy_conflict, u)
unfolding finish_set
one_writer minted now minted' now' a a' w w' id base t {u} out h l =
    let i = finish_set-IsUpdate minted now a w id base t out h in
    let o = Later-Outlives id i.after l i.written in
    let moved : nat_eqb o.row_now.revision base ≡ false = ground (arith, o.revision, i.revision) in
    rw (o.found, finish_set, moved) refl
