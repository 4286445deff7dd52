-- ===== src/TurnSync/Evaluation.antt =====
-- src/turnsync-policy.js: which stored policy is in effect, and what it lets through.
use cairnstone_v.Prelude.{
  some-ne-none, String, ◌≡◌, ◌≢◌, refl, sym, ◌∙◌, ap, subst, Option, none, some, true, string_eq,
  arith, eq_iff, Bool-cases, Option-cases, inl, inr, ◌↔◌, List, [], ◌∷◌, In,
}
use cairnstone_v.Prelude.Result.{ok, bind-eq-ok, ok-injective}
use cairnstone_v.TurnSync.Policy.{
  Mode, on, PayloadMode, full_turns, ScopeKind, PolicyRow, Candidate, policy_scope_candidates,
  same_kind, in_scope, last_in_scope, Effective, stored, default_ask, first_match,
  effective_policy_from_rows, allow_append, evaluate_turn_sync_standing_policy,
}
use cairnstone_v.TurnSync.Stored.{
  AuthContext, Table, Database, active_context, is_at, find_policy, read_stored_policies,
  get_effective_turn_sync_policy,
}

-- A turn may be appended exactly under a policy that is `on` with full turns: any other mode or
-- payload, and a policy without a known one, lets nothing through.
allow_append_exact :
    (m : Option Mode) (p : Option PayloadMode)
    → (evaluate_turn_sync_standing_policy m p ≡ allow_append)
      ↔ ((m ≡ some on) × (p ≡ some full_turns))
unfolding evaluate_turn_sync_standing_policy
allow_append_exact none p = ground arith
allow_append_exact (some m) none = ground arith
allow_append_exact (some m) (some p) = ground arith

-- The first of the scopes that has a policy of the account, or the safe default.
pub data IsFirst (a : AuthContext) (t : Table) : List Candidate → Effective → Type 0 where
  found :
      {c : Candidate} {cs : List Candidate} {row : PolicyRow}
      → find_policy a c t ≡ some row
      → IsFirst a t (c ∷ cs) (stored row c)
  passed :
      {c : Candidate} {cs : List Candidate} {e : Effective}
      → find_policy a c t ≡ none
      → IsFirst a t cs e
      → IsFirst a t (c ∷ cs) e
  exhausted : IsFirst a t [] default_ask

same_kind-eq : (x y z : ScopeKind) → same_kind x y ≡ true → same_kind x z ≡ true → y ≡ z
same_kind-eq x y z p q = ground arith

in_scope-eq :
    (c d : Candidate) (row : PolicyRow) → in_scope c row ≡ true → in_scope d row ≡ true → c ≡ d
in_scope-eq c d row p q = ground (
  arith,
  eq_iff row.scope_key c.scope_key,
  eq_iff row.scope_key d.scope_key,
  same_kind-eq row.scope_kind c.scope_kind d.scope_kind,
)

find_policy-in_scope :
    (a : AuthContext) (c : Candidate) (t : Table) (row : PolicyRow)
    → find_policy a c t ≡ some row
    → in_scope c row ≡ true
unfolding find_policy
find_policy-in_scope a c [] row h = absurd (ground arith)
find_policy-in_scope a c ((id, r) ∷ t) row h = elim (Bool-cases (is_at a c r)) [
  | inl y ↦
      let same : r ≡ row = ground arith in subst (λ x. in_scope c x ≡ true) same (ground arith)
  | inr n ↦ find_policy-in_scope a c t row (rw (n, find_policy) at h)
]

-- A row that was read for a scope is the one that the table has for it.
last-found :
    (a : AuthContext) (c : Candidate) (cs : List Candidate) (t : Table) (row : PolicyRow)
    → last_in_scope c (read_stored_policies a cs t) ≡ some row
    → find_policy a c t ≡ some row
unfolding read_stored_policies last_in_scope
last-found a c [] t row h = absurd (ground arith)
last-found a c (d ∷ cs) t row h = elim (Option-cases (find_policy a d t)) [
  | inl n ↦ last-found a c cs t row (rw (n, read_stored_policies) at h)
  | inr (r, f) ↦ elim (Option-cases (last_in_scope c (read_stored_policies a cs t))) [
    | inr (x, g) ↦
        last-found a c cs t row (g ∙ ap some (row_same x r g (rw (f, read_stored_policies) at h)))
    | inl n ↦ this_row r f n (rw (f, read_stored_policies) at h)
  ]
]
  where
    row_same :
        (x r : PolicyRow)
        → last_in_scope c (read_stored_policies a cs t) ≡ some x
        → last_in_scope c (r ∷ read_stored_policies a cs t) ≡ some row
        → x ≡ row
    row_same x r g h = ground arith

    this_row :
        (r : PolicyRow)
        → find_policy a d t ≡ some r
        → last_in_scope c (read_stored_policies a cs t) ≡ none
        → last_in_scope c (r ∷ read_stored_policies a cs t) ≡ some row
        → find_policy a c t ≡ some row
    this_row r f n h =
        let here : in_scope c r ≡ true = ground arith in
        let same : r ≡ row = ground arith in
        let scopes : c ≡ d = in_scope-eq c d r here (find_policy-in_scope a d t r f) in
        subst (λ z. find_policy a z t ≡ some row) (sym scopes) (f ∙ ap some same)

-- What the table has for a scope that was read is among the rows.
found-last :
    (a : AuthContext) (c : Candidate) (cs : List Candidate) (t : Table) (row : PolicyRow)
    → In c cs
    → find_policy a c t ≡ some row
    → last_in_scope c (read_stored_policies a cs t) ≢ none
unfolding read_stored_policies last_in_scope
found-last a c [] t row i f h = i
found-last a c (d ∷ cs) t row i f h = elim (Option-cases (find_policy a d t)) [
  | inl n ↦ elim i [
    | inl e ↦ some-ne-none (sym f ∙ ap (λ z. find_policy a z t) (sym e) ∙ n)
    | inr j ↦ found-last a c cs t row j f (rw (n, read_stored_policies) at h)
  ]
  | inr (r, g) ↦ elim i [
    | inl e ↦
        head_there r (subst (λ z. in_scope z r ≡ true) e (find_policy-in_scope a d t r g))
          (rw (g, read_stored_policies) at h)
    | inr j ↦ tail_there r (found-last a c cs t row j f) (rw (g, read_stored_policies) at h)
  ]
]
  where
    head_there :
        (r : PolicyRow)
        → in_scope c r ≡ true
        → last_in_scope c (r ∷ read_stored_policies a cs t) ≡ none
        → ⊥
    head_there r y h = ground arith

    tail_there :
        (r : PolicyRow)
        → last_in_scope c (read_stored_policies a cs t) ≢ none
        → last_in_scope c (r ∷ read_stored_policies a cs t) ≡ none
        → ⊥
    tail_there r n h = n (ground arith)

first_match-IsFirst :
    (a : AuthContext) (t : Table) (all cs : List Candidate)
    → ((c : Candidate) → In c cs → In c all)
    → IsFirst a t cs (first_match (read_stored_policies a all t) cs)
unfolding first_match
first_match-IsFirst a t all [] sub = exhausted
first_match-IsFirst a t all (c ∷ cs) sub =
    elim (Option-cases (last_in_scope c (read_stored_policies a all t))) [
      | inr (row, e) ↦ rw (e, first_match) (found (last-found a c all t row e))
      | inl n ↦ elim (Option-cases (find_policy a c t)) [
        | inr (row, e) ↦ absurd (found-last a c all t row (sub c (inl refl)) e n)
        | inl m ↦
            rw (n, first_match) (passed m (first_match-IsFirst a t all cs (λ d i. sub d (inr i))))
      ]
    ]

-- The policy in effect for an active connection is the one that its account and tenant have stored
-- for the first scope that has any, workspace before chain before account, or `ask` where none has.
pub get_effective-IsFirst :
    (auth : Option AuthContext) (workspace_id chain_id : Option String) (db : Database)
    (e : Effective)
    → get_effective_turn_sync_policy auth workspace_id chain_id db ≡ ok e
    → (a : AuthContext) × (active_context auth db ≡ ok a)
      × IsFirst a db.policies (policy_scope_candidates workspace_id chain_id) e
unfolding get_effective_turn_sync_policy effective_policy_from_rows
get_effective-IsFirst auth workspace_id chain_id db e h =
    let (a, k, h1) = bind-eq-ok _ _ h in
    (
      a,
      k,
      subst (IsFirst a db.policies (policy_scope_candidates workspace_id chain_id))
          (ok-injective h1)
          (first_match-IsFirst a db.policies (policy_scope_candidates workspace_id chain_id)
            (policy_scope_candidates workspace_id chain_id) (λ c i. i)),
    )
