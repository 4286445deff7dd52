-- ===== src/TurnSync/Precedence.antt =====
-- src/turnsync-policy.js, `getEffectiveTurnSyncPolicy`: a policy of the workspace goes before one of the
-- chain, and that before one of the account.
use cairnstone_v.Prelude.{
  String, ◌≡◌, ◌≢◌, refl, ◌⊎◌, inl, inr, true, false, Option, none, some, List, [], ◌∷◌, In, ◌==◌,
  string_eq, eq_iff, Bool-cases, and-eq-true, and_true, some-injective, none-ne-some, subst, sym,
  ◌∙◌, arith, if◌then◌else◌,
}
use cairnstone_v.Prelude.Dict.{values}
use cairnstone_v.Prelude.Words.{not_empty}
use cairnstone_v.Prelude.Result.{ok}
use cairnstone_v.TurnSync.Policy.{
  ScopeKind, account, workspace, chain, PolicyRow, Candidate, Effective, stored, default_ask, clean,
  policy_scope_candidates, same_kind,
}
use cairnstone_v.TurnSync.Stored.{
  AuthContext, Table, Database, is_at, find_policy, get_effective_turn_sync_policy,
}
use cairnstone_v.TurnSync.Evaluation.{IsFirst, found, passed, exhausted, get_effective-IsFirst}
use cairnstone_v.TurnSync.Active.{IsActive, active_context-IsActive}

-- A row is the account's and tenant's for one scope.
pub record IsOf (a : AuthContext) (kind : ScopeKind) (key : String) (row : PolicyRow) : Type 0 where
  pub account_id : row.account_id ≡ a.account_id
  pub tenant_id : row.tenant_id ≡ a.tenant_id
  pub scope_kind : row.scope_kind ≡ kind
  pub scope_key : row.scope_key ≡ key

-- The table has no such row, or has this one.
abbrev HasNone : AuthContext → ScopeKind → String → Table → Type 0
HasNone a kind key t = (row : PolicyRow) → In row (values t) → IsOf a kind key row → ⊥

abbrev Has : AuthContext → ScopeKind → String → Table → PolicyRow → Type 0
Has a kind key t row = In row (values t) × IsOf a kind key row

-- A scope of no name has no policy.
abbrev Silent : AuthContext → ScopeKind → String → Table → Type 0
Silent a kind key t = (key ≡ "") ⊎ HasNone a kind key t

-- The policy in effect, for the names of a workspace and of a chain.
pub data IsInEffect (a : AuthContext) (t : Table) (ws ch : String) : Effective → Type 0 where
  of_workspace :
      {row : PolicyRow}
      → ws ≢ ""
      → Has a workspace ws t row
      → IsInEffect a t ws ch (stored row (record { scope_kind = workspace; scope_key = ws }))
  of_chain :
      {row : PolicyRow}
      → Silent a workspace ws t
      → ch ≢ ""
      → Has a chain ch t row
      → IsInEffect a t ws ch (stored row (record { scope_kind = chain; scope_key = ch }))
  of_account :
      {row : PolicyRow}
      → Silent a workspace ws t
      → Silent a chain ch t
      → Has a account "*" t row
      → IsInEffect a t ws ch (stored row (record { scope_kind = account; scope_key = "*" }))
  of_none :
      Silent a workspace ws t
      → Silent a chain ch t
      → HasNone a account "*" t
      → IsInEffect a t ws ch default_ask

same_kind-eq : (x y : ScopeKind) → same_kind x y ≡ true → x ≡ y
same_kind-eq x y h = ground arith

same_kind_refl : (x : ScopeKind) → same_kind x x ≡ true
same_kind_refl x = ground arith

is_at-IsOf :
    (a : AuthContext) (kind : ScopeKind) (key : String) (row : PolicyRow)
    → is_at a (record { scope_kind = kind; scope_key = key }) row ≡ true
    → IsOf a kind key row
is_at-IsOf a kind key row h =
    let (ids, here) = and-eq-true _ _ h in
    let (x, y) = and-eq-true _ _ ids in
    let (k, e) = and-eq-true _ _ here in
    record {
      account_id = (eq_iff row.account_id a.account_id).0 x;
      tenant_id = (eq_iff row.tenant_id a.tenant_id).0 y;
      scope_kind = same_kind-eq row.scope_kind kind k;
      scope_key = (eq_iff row.scope_key key).0 e;
    }

IsOf-is_at :
    (a : AuthContext) (kind : ScopeKind) (key : String) (row : PolicyRow)
    → IsOf a kind key row
    → is_at a (record { scope_kind = kind; scope_key = key }) row ≡ true
IsOf-is_at a kind key row o =
    and_true _ _
      (and_true _ _ ((eq_iff row.account_id a.account_id).1 o.account_id)
        ((eq_iff row.tenant_id a.tenant_id).1 o.tenant_id))
      (and_true _ _
        (subst (λ k. same_kind row.scope_kind k ≡ true) o.scope_kind
          (same_kind_refl row.scope_kind))
        ((eq_iff row.scope_key key).1 o.scope_key))

module _ (a : AuthContext) (kind : ScopeKind) (key : String) where
  found-Has :
      (t : Table) (row : PolicyRow)
      → find_policy a (record { scope_kind = kind; scope_key = key }) t ≡ some row
      → Has a kind key t row
  unfolding find_policy
  found-Has [] row h = absurd (none-ne-some h)
  found-Has ((id, r) ∷ t) row h =
      elim (Bool-cases (is_at a (record { scope_kind = kind; scope_key = key }) r)) [
        | inl y ↦
            let same : r ≡ row = some-injective (rw (y, find_policy) at h) in
            (inl same, subst (IsOf a kind key) same (is_at-IsOf a kind key r y))
        | inr n ↦ let (i, o) = found-Has t row (rw (n, find_policy) at h) in (inr i, o)
      ]

  none-HasNone :
      (t : Table)
      → find_policy a (record { scope_kind = kind; scope_key = key }) t ≡ none
      → HasNone a kind key t
  unfolding find_policy
  none-HasNone [] h row i o = i
  none-HasNone ((id, r) ∷ t) h row i o =
      elim (Bool-cases (is_at a (record { scope_kind = kind; scope_key = key }) r)) [
        | inl y ↦ absurd (none-ne-some (sym (rw (y, find_policy) at h)))
        | inr n ↦ elim i [
          | inr j ↦ none-HasNone t (rw (n, find_policy) at h) row j o
          | inl e ↦
              true-ne-false (sym (IsOf-is_at a kind key r (subst (IsOf a kind key) (sym e) o)) ∙ n)
        ]
      ]
    where
      true-ne-false : true ≡ false → ⊥
      true-ne-false h = cc

  split-IsFirst :
      (t : Table) {c : Candidate} {cs : List Candidate} {e : Effective}
      → IsFirst a t (c ∷ cs) e
      → ((row : PolicyRow) × (find_policy a c t ≡ some row) × (stored row c ≡ e))
        ⊎ ((find_policy a c t ≡ none) × IsFirst a t cs e)
  split-IsFirst t (found {row = row} f) = inl (row, f, refl)
  split-IsFirst t (passed n r) = inr (n, r)

  -- A scope that is asked where it has a name.
  split-named :
      (t : Table) (cs : List Candidate) (e : Effective)
      → IsFirst a t
          (if not_empty key then record { scope_kind = kind; scope_key = key } ∷ cs else cs)
          e
      → ((key ≢ "")
          × (row : PolicyRow) × Has a kind key t row
          × (stored row (record { scope_kind = kind; scope_key = key }) ≡ e))
        ⊎ (Silent a kind key t × IsFirst a t cs e)
  split-named t cs e f = elim (Bool-cases (key == "")) [
    | inl y ↦ inr (inl ((eq_iff key "").0 y), rw y at f)
    | inr n ↦ elim (split-IsFirst t (rw n at f)) [
      | inl (row, g, same) ↦
          inl ((λ k. false-ne-true (sym n ∙ (eq_iff key "").1 k)), row, found-Has t row g, same)
      | inr (none_here, r) ↦ inr (inr (none-HasNone t none_here), r)
    ]
  ]
    where
      false-ne-true : false ≡ true → ⊥
      false-ne-true h = cc

account-IsInEffect :
    (a : AuthContext) (t : Table) (ws ch : String) (e : Effective)
    → Silent a workspace ws t
    → Silent a chain ch t
    → IsFirst a t (record { scope_kind = account; scope_key = "*" } ∷ []) e
    → IsInEffect a t ws ch e
account-IsInEffect a t ws ch e m n (found {row = row} f) =
    of_account m n (found-Has a account "*" t row f)
account-IsInEffect a t ws ch e m n (passed k exhausted) =
    of_none m n (none-HasNone a account "*" t k)

-- The policy in effect for an active connection is one that its account and tenant have stored for the
-- workspace that was named; where that has none or none was named, one for the chain; where neither
-- has, one for the account; and `ask` where none has. A name is the text that was given, trimmed, or
-- empty where that is longer than 300 units.
pub get_effective-IsInEffect :
    (auth : Option AuthContext) (workspace_id chain_id : Option String) (db : Database)
    (e : Effective)
    → get_effective_turn_sync_policy auth workspace_id chain_id db ≡ ok e
    → (a : AuthContext) × IsActive auth db a
      × IsInEffect a db.policies (clean 300 workspace_id) (clean 300 chain_id) e
unfolding policy_scope_candidates
get_effective-IsInEffect auth workspace_id chain_id db e h =
    let (a, k, f) = get_effective-IsFirst auth workspace_id chain_id db e h in
    let ws = clean 300 workspace_id in
    let ch = clean 300 chain_id in
    (
      a,
      active_context-IsActive auth db a k,
      elim (split-named a workspace ws db.policies _ e f) [
        | inl (n, row, w, same) ↦ subst (IsInEffect a db.policies ws ch) same (of_workspace n w)
        | inr (m, g) ↦ elim (split-named a chain ch db.policies _ e g) [
          | inl (n, row, w, same) ↦ subst (IsInEffect a db.policies ws ch) same (of_chain m n w)
          | inr (n, k) ↦ account-IsInEffect a db.policies ws ch e m n k
        ]
      ],
    )
