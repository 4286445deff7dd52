-- ===== src/Executors/Fitness.antt =====
-- src/executor-profile.js: what it means that a profile fits a request, and that the loop of
-- `routeExecutor` finds exactly those that do.
use cairnstone_v.Prelude.{
  ℕ, String, ◌≡◌, refl, Bool, true, false, not, ◌&&◌, ◌<◌, ◌≤◌, ◌↔◌, Option, none, some, List, [],
  ◌∷◌, leb, ltb, Bool-cases, some-ne-none, inl, inr, All, arith, string_eq,
}
use cairnstone_v.Prelude.Value.{Value, truthy}
use cairnstone_v.Executors.Profiles.{Profile}
use cairnstone_v.Executors.Policy.{
  Preset, Budget, PolicyReason, is_exactly, is_text, is_native, is_covered, missing_caps,
  is_fully_deterministic, cost_rank, limit_rank, is_economy, is_paid, is_allowlisted, is_denylisted,
  first_reason, policy_tests, policy_allows,
}
use cairnstone_v.Executors.Route.{prefers_cheaper, verdict, judge}

-- What the policy and the budget ask of a profile.
pub record IsAdmitted (p : Profile) (policy : Preset) (b : Budget) : Type 0 where
  pub cheap : is_economy policy ≡ true → (cost_rank p.cost_class < 3) × (p.selection_rank < 5)
  pub within : truthy b.max_cost_class ≡ true → cost_rank p.cost_class ≤ limit_rank b.max_cost_class
  pub unpaid : is_exactly false b.allow_paid_external ≡ true → is_paid p.cost_class ≡ false
  pub compiled :
      is_exactly true b.require_compiled_context ≡ true → is_native p.context_mode ≡ false
  pub not_native : is_exactly true b.forbid_native_context ≡ true → is_native p.context_mode ≡ false
  pub allowlisted : is_allowlisted b.executor_allowlist p.executor_id ≡ true
  pub not_denylisted : is_denylisted b.executor_denylist p.executor_id ≡ false

pub record IsFit (inferred : List String) (policy : Preset) (b : Budget) (preferred : Value)
    (p : Profile) : Type 0 where
  pub covers : All (λ c. is_covered p c ≡ true) inferred
  pub admitted : IsAdmitted p policy b
  pub not_cheaper :
      is_fully_deterministic inferred ≡ true
      → is_text preferred p.executor_id ≡ false
      → p.selection_rank < 4

abbrev IsOff : Bool × PolicyReason → Type 0
IsOff (b, r) = b ≡ false

first_reason-All : (ts : List (Bool × PolicyReason)) → first_reason ts ≡ none → All IsOff ts
unfolding first_reason
first_reason-All [] h = tt
first_reason-All ((b, r) ∷ ts) h = (ground arith, first_reason-All ts (ground arith))

All-first_reason : (ts : List (Bool × PolicyReason)) → All IsOff ts → first_reason ts ≡ none
unfolding first_reason
All-first_reason [] h = refl
All-first_reason ((b, r) ∷ ts) (e, h) = rw e (All-first_reason ts h)

and_off : (x y : Bool) → (x && y) ≡ false → x ≡ true → y ≡ false
and_off x y h e = ground arith

off_and : (x y : Bool) → (x ≡ true → y ≡ false) → (x && y) ≡ false
off_and true y f = f refl
off_and false y f = refl

leb→lt : (k n : ℕ) → leb k n ≡ false → n < k
leb→lt k n h = ground arith

lt→leb : (k n : ℕ) → n < k → leb k n ≡ false
lt→leb k n h = ground arith

ltb→le : (k n : ℕ) → ltb k n ≡ false → n ≤ k
ltb→le k n h = ground arith

le→ltb : (k n : ℕ) → n ≤ k → ltb k n ≡ false
le→ltb k n h = ground arith

not_off : (x : Bool) → not x ≡ false → x ≡ true
not_off x h = ground arith

off_not : (x : Bool) → x ≡ true → not x ≡ false
off_not x h = ground arith

policy_allows-IsAdmitted :
    (p : Profile) (policy : Preset) (b : Budget)
    → policy_allows p policy b ≡ none
    → IsAdmitted p policy b
unfolding policy_allows
policy_allows-IsAdmitted p policy b h =
    let (cost, (rank, (limit, (paid, (compiled, (native, (allow, (deny, _)))))))) =
      first_reason-All (policy_tests p policy b) h in
    record {
      cheap = λ e. (leb→lt _ _ (and_off _ _ cost e), leb→lt _ _ (and_off _ _ rank e));
      within = λ e. ltb→le _ _ (and_off _ _ limit e);
      unpaid = λ e. and_off _ _ paid e;
      compiled = λ e. and_off _ _ compiled e;
      not_native = λ e. and_off _ _ native e;
      allowlisted = not_off _ allow;
      not_denylisted = deny;
    }

IsAdmitted-policy_allows :
    (p : Profile) (policy : Preset) (b : Budget)
    → IsAdmitted p policy b
    → policy_allows p policy b ≡ none
unfolding policy_allows
IsAdmitted-policy_allows p policy b a = All-first_reason (policy_tests p policy b) (
  off_and _ _ (λ e. lt→leb _ _ ((a.cheap e).0)),
  (
    off_and _ _ (λ e. lt→leb _ _ ((a.cheap e).1)),
    (
      off_and _ _ (λ e. le→ltb _ _ (a.within e)),
      (
        off_and _ _ a.unpaid,
        (
          off_and _ _ a.compiled,
          (off_and _ _ a.not_native, (off_not _ a.allowlisted, (a.not_denylisted, tt))),
        ),
      ),
    ),
  ),
)

missing-covers :
    (p : Profile) (cs : List String) → missing_caps p cs ≡ [] → All (λ c. is_covered p c ≡ true) cs
unfolding missing_caps
missing-covers p [] h = tt
missing-covers p (c ∷ cs) h = elim (Bool-cases (is_covered p c)) [
  | inl y ↦ (y, missing-covers p cs (rw y at h))
  | inr n ↦ absurd (∷-ne-nil (rw n at h))
]
  where
    ∷-ne-nil : {x : String} {xs : List String} → Path (List String) (x ∷ xs) [] → ⊥
    ∷-ne-nil h = cc

covers-missing :
    (p : Profile) (cs : List String) → All (λ c. is_covered p c ≡ true) cs → missing_caps p cs ≡ []
unfolding missing_caps
covers-missing p [] a = refl
covers-missing p (c ∷ cs) (y, a) = rw y (covers-missing p cs a)

verdict-none :
    (m : List String) (a : Option PolicyReason) (c : Bool)
    → verdict m a c ≡ none
    → (m ≡ []) × (a ≡ none) × (c ≡ false)
verdict-none [] none false h = (refl, refl, refl)
verdict-none [] none true h = absurd (some-ne-none h)
verdict-none [] (some r) c h = absurd (some-ne-none h)
verdict-none (x ∷ xs) a c h = absurd (some-ne-none h)

cheaper-off :
    (d t : Bool) (n : ℕ) → ((d && leb 4 n && not t) ≡ false) → d ≡ true → t ≡ false → n < 4
cheaper-off d t n h e f = ground arith

off-cheaper :
    (d t : Bool) (n : ℕ) → (d ≡ true → t ≡ false → n < 4) → (d && leb 4 n && not t) ≡ false
off-cheaper true false n f = rw (lt→leb 4 n (f refl refl))
off-cheaper true true n f = ground arith
off-cheaper false t n f = refl

module _ (inferred : List String) (policy : Preset) (b : Budget) (preferred : Value)
    (p : Profile) where
  judge-none :
      judge inferred policy b preferred p ≡ none
      → (missing_caps p inferred ≡ [])
        × (policy_allows p policy b ≡ none)
        × (prefers_cheaper inferred preferred p ≡ false)
  unfolding judge
  judge-none h = verdict-none _ _ _ h

  -- The loop admits a profile exactly where it fits.
  pub judge-IsFit :
      (judge inferred policy b preferred p ≡ none) ↔ IsFit inferred policy b preferred p
  unfolding judge prefers_cheaper
  judge-IsFit = (
    (λ h.
        let (m, a, c) = judge-none h in
        record {
          covers = missing-covers p inferred m;
          admitted = policy_allows-IsAdmitted p policy b a;
          not_cheaper = λ d t. cheaper-off _ _ _ c d t;
        }),
    (λ f.
        rw (covers-missing p inferred f.covers, IsAdmitted-policy_allows p policy b f.admitted)
          (rw (
            off-cheaper (is_fully_deterministic inferred) (is_text preferred p.executor_id)
              p.selection_rank f.not_cheaper))),
  )
