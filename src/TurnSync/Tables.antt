-- ===== src/TurnSync/Tables.antt =====
-- src/turnsync-policy.js: a policy is found where it was written.
use cairnstone_v.Prelude.{
  some-injective, none-ne-some, some-ne-none, String, ◌≡◌, refl, sym, ◌∙◌, ap, subst, none, some,
  true, ◌==◌, string_eq, arith, eq_iff, Bool-cases, inl, inr, [], ◌∷◌,
}
use cairnstone_v.Prelude.Dict.{lookup, insert, lookup-insert}
use cairnstone_v.TurnSync.Policy.{ScopeKind, PolicyRow, Candidate, same_kind}
use cairnstone_v.TurnSync.Stored.{AuthContext, Table, PolicyWrite, is_at, find_policy, new_policy}

-- Each policy stands under its own id, and no id twice.
abbrev pub IsTable : Table → Type 0
IsTable [] = Unit
IsTable ((id, row) ∷ t) = (row.policy_id ≡ id) × (lookup id t ≡ none) × IsTable t

pub IsTable-insert :
    (id : String) (row : PolicyRow) (t : Table)
    → row.policy_id ≡ id
    → IsTable t
    → IsTable (insert id row t)
unfolding insert lookup
IsTable-insert id row [] e w = (e, refl, tt)
IsTable-insert id row ((k, r) ∷ t) e (own, new, w) = elim (Bool-cases (k == id)) [
  | inl y ↦ rw y (e ∙ sym ((eq_iff k id).0 y), new, w)
  | inr n ↦ rw n (
    own,
    ground (arith, lookup-insert id k row t, new, eq_iff k id, eq_iff id k),
    IsTable-insert id row t e w,
  )
]

module _ (a : AuthContext) (c : Candidate) where
  pub find-append :
      (id : String) (row : PolicyRow) (t : Table)
      → lookup id t ≡ none
      → find_policy a c t ≡ none
      → is_at a c row ≡ true
      → find_policy a c (insert id row t) ≡ some row
  unfolding find_policy insert lookup
  find-append id row [] l f h = rw h refl
  find-append id row ((k, r) ∷ t) l f h = elim (Bool-cases (k == id)) [
    | inl y ↦ absurd (some-ne-none (rw (y, lookup) at l))
    | inr n ↦ elim (Bool-cases (is_at a c r)) [
      | inl y ↦ absurd (some-ne-none (rw (y, find_policy) at f))
      | inr m ↦
          rw (n, find_policy, m)
            (find-append id row t (rw (n, lookup) at l) (rw (m, find_policy) at f) h)
    ]
  ]

  pub find-replace :
      (id : String) (row row' : PolicyRow) (t : Table)
      → IsTable t
      → find_policy a c t ≡ some row
      → row.policy_id ≡ id
      → is_at a c row' ≡ true
      → find_policy a c (insert id row' t) ≡ some row'
  unfolding find_policy insert
  find-replace id row row' [] all f e h = absurd (ground arith)
  find-replace id row row' ((k, r) ∷ t) (own, new, all) f e h = elim (Bool-cases (is_at a c r)) [
    | inl y ↦
        let same : r ≡ row = some-injective (rw (y, find_policy) at f) in
        let key : k ≡ id = sym own ∙ ap (λ (x : PolicyRow). x.policy_id) same ∙ e in
        rw ((eq_iff k id).1 key, find_policy, h) refl
    | inr n ↦ elim (Bool-cases (k == id)) [
      | inl y ↦ rw (y, find_policy, h) refl
      | inr m ↦
          rw (m, find_policy, n) (find-replace id row row' t all (rw (n, find_policy) at f) e h)
    ]
  ]

pub find-is_at :
    (a : AuthContext) (c : Candidate) (t : Table) (row : PolicyRow)
    → find_policy a c t ≡ some row
    → is_at a c row ≡ true
unfolding find_policy
find-is_at a c [] row h = absurd (ground arith)
find-is_at a c ((id, r) ∷ t) row h = elim (Bool-cases (is_at a c r)) [
  | inl y ↦
      let same : r ≡ row = some-injective (rw (y, find_policy) at h) in
      subst (λ x. is_at a c x ≡ true) same y
  | inr n ↦ find-is_at a c t row (rw (n, find_policy) at h)
]

pub new_policy-is_at :
    (a : AuthContext) (w : PolicyWrite) (id now : String)
    → is_at a w.scope (new_policy a w id now) ≡ true
unfolding new_policy
new_policy-is_at a w id now = ground (
  arith,
  eq_iff a.account_id a.account_id,
  eq_iff a.tenant_id a.tenant_id,
  eq_iff w.scope.scope_key w.scope.scope_key,
  same_kind_refl w.scope.scope_kind,
)
  where
    same_kind_refl : (k : ScopeKind) → same_kind k k ≡ true
    same_kind_refl k = ground arith

-- The policy that is found stands in the table under its id.
pub find-lookup :
    (a : AuthContext) (c : Candidate) (t : Table) (row : PolicyRow)
    → IsTable t
    → find_policy a c t ≡ some row
    → lookup row.policy_id t ≡ some row
unfolding find_policy lookup
find-lookup a c [] row w h = absurd (ground arith)
find-lookup a c ((k, r) ∷ t) row (own, new, w) h = elim (Bool-cases (is_at a c r)) [
  | inl y ↦
      let same : r ≡ row = some-injective (rw (y, find_policy) at h) in
      subst (λ (x : PolicyRow). lookup x.policy_id ((k, r) ∷ t) ≡ some x) same
        (rw ((eq_iff k r.policy_id).1 (sym own)) refl)
  | inr n ↦
      let there = find-lookup a c t row w (rw (n, find_policy) at h) in
      elim (Bool-cases (k == row.policy_id)) [
        | inl y ↦
            absurd
              (none-ne-some (sym new ∙ ap (λ j. lookup j t) ((eq_iff k row.policy_id).0 y) ∙ there))
        | inr m ↦ rw m there
      ]
]
