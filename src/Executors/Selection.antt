-- ===== src/Executors/Selection.antt =====
-- src/executor-profile.js, `routeExecutor`: the executor that is selected fits the request, is the one
-- that was preferred, or else precedes every other that fits; and one is selected where one fits.
use cairnstone_v.Prelude.{
  ap, subst, String, ◌≡◌, refl, sym, ◌∙◌, Option, none, some, List, [], ◌∷◌, ◌==◌, string_eq,
  Bool-cases, Option-cases, inl, inr, All, In, eq_iff, none-ne-some, some-ne-none, some-injective,
}
use cairnstone_v.Prelude.Names.{nonempty_text}
use cairnstone_v.Prelude.Result.{ok, bind-eq-ok, fail-ne-ok, ok-injective, get_or-eq-ok}
use cairnstone_v.Executors.Profiles.{Profile, seed_executor_profiles}
use cairnstone_v.Executors.Policy.{Preset, sort_candidates}
use cairnstone_v.Executors.Context.{find_profile}
use cairnstone_v.Executors.Request.{
  RouteRequest, RejectReason, Need, Selected, Routed, budget_or_empty,
}
use cairnstone_v.Executors.Route.{
  add_eligible, eligible_of, is_manual, select_first, select_preferred, select_as, select,
  judged_by, check_route, receipt_of, route_among, route_executor,
}
use cairnstone_v.Executors.Order.{Precedes, All-sort, of-sort, HeadPrecedes, sort-HeadPrecedes}
use cairnstone_v.Executors.Fitness.{IsFit, judge-IsFit}

pub All-In : (P : Profile → Type 0) (x : Profile) (xs : List Profile) → All P xs → In x xs → P x
All-In P x (y ∷ ys) (p, a) (inl e) = subst P e p
All-In P x (y ∷ ys) (p, a) (inr i) = All-In P x ys a i
All-In P x [] a i = absurd i

All-of-In : (P : Profile → Type 0) (xs : List Profile) → ((x : Profile) → In x xs → P x) → All P xs
All-of-In P [] f = tt
All-of-In P (x ∷ xs) f = (f x (inl refl), All-of-In P xs (λ y i. f y (inr i)))

In-add :
    (o : Option RejectReason) (q p : Profile) (ps : List Profile)
    → In q ps
    → In q (add_eligible o p ps)
In-add none q p ps i = inr i
In-add (some r) q p ps i = i

-- The eligible ones are those of the registry that nothing rejects.
module _ (judged : Profile → Option RejectReason) (q : Profile) where
  pub In-eligible : (ps : List Profile) → In q ps → judged q ≡ none → In q (eligible_of judged ps)
  unfolding eligible_of
  In-eligible [] i e = absurd i
  In-eligible (p ∷ ps) (inl s) e = let f : judged p ≡ none = ap judged s ∙ e in rw f (inl s)
  In-eligible (p ∷ ps) (inr i) e =
      In-add (judged p) q p (eligible_of judged ps) (In-eligible ps i e)

  pub eligible-In : (ps : List Profile) → In q (eligible_of judged ps) → In q ps × (judged q ≡ none)
  unfolding eligible_of
  eligible-In [] i = absurd i
  eligible-In (p ∷ ps) i = elim (Option-cases (judged p)) [
    | inr (r, e) ↦ let (j, f) = eligible-In ps (rw e at i) in (inr j, f)
    | inl e ↦
        let k : In q (p ∷ eligible_of judged ps) = rw e at i in
        elim k [
          | inl s ↦ (inl s, ap judged (sym s) ∙ e)
          | inr m ↦ let (j, f) = eligible-In ps m in (inr j, f)
        ]
  ]

pub find-In :
    (id : String) (ps : List Profile) (p : Profile)
    → find_profile id ps ≡ some p
    → In p ps × (p.executor_id ≡ id)
unfolding find_profile
find-In id [] p h = absurd (none-ne-some h)
find-In id (q ∷ qs) p h = elim (Bool-cases (q.executor_id == id)) [
  | inl y ↦
      let e : q ≡ p = some-injective (rw y at h) in
      (inl e, ap (λ (x : Profile). x.executor_id) (sym e) ∙ (eq_iff q.executor_id id).0 y)
  | inr n ↦ let (i, e) = find-In id qs p (rw n at h) in (inr i, e)
]

-- What is selected among the eligible.
pub record IsSelected (policy : Preset) (asked : Option String) (eligible : List Profile)
    (p : Profile) : Type 0 where
  pub member : In p eligible
  pub preferred : (id : String) → asked ≡ some id → p.executor_id ≡ id
  pub first : asked ≡ none → (q : Profile) → In q eligible → Precedes policy p q

first-IsSelected :
    (inferred : List String) (policy : Preset) (eligible sorted : List Profile) (s : Selected)
    → sort_candidates policy eligible ≡ sorted
    → select_first inferred policy sorted ≡ ok s
    → IsSelected policy none eligible s.profile
first-IsSelected inferred policy eligible [] s e h = fail-ne-ok h
first-IsSelected inferred policy eligible (p ∷ ps) s e h =
    let same : p ≡ s.profile = ap (λ (x : Selected). x.profile) (ok-injective h) in
    let members : All (λ x. In x eligible) (p ∷ ps) = subst (All (λ x. In x eligible)) e (
      All-sort (λ x. In x eligible) policy eligible
        (All-of-In (λ x. In x eligible) eligible (λ x i. i))) in
    let precedes : All (Precedes policy p) (p ∷ ps) =
      subst (HeadPrecedes policy) e (sort-HeadPrecedes policy eligible) in
    let over : All (Precedes policy p) eligible =
      of-sort (Precedes policy p) policy eligible
        (subst (All (Precedes policy p)) (sym e) precedes) in
    subst (IsSelected policy none eligible) same (record {
      member = members.0;
      preferred = λ id n. absurd (none-ne-some n);
      first = λ n q i. All-In (Precedes policy p) q eligible over i;
    })

preferred-IsSelected :
    (registry : List Profile) (policy : Preset) (eligible : List Profile) (id : String)
    (s : Selected)
    → select_preferred registry eligible id ≡ ok s
    → IsSelected policy (some id) eligible s.profile
preferred-IsSelected registry policy eligible id s h =
    let (p, e, h2) = bind-eq-ok _ _ h in
    let (_, _, g) = bind-eq-ok _ _ e in
    let (i, n) = find-In id eligible p (get_or-eq-ok _ _ p g) in
    subst (IsSelected policy (some id) eligible)
      (ap (λ (x : Selected). x.profile) (ok-injective h2))
      (record {
        member = i;
        preferred = λ j k. n ∙ some-injective k;
        first = λ k. absurd (some-ne-none k);
      })

select_as-IsSelected :
    (registry : List Profile) (inferred : List String) (policy : Preset) (asked : Option String)
    (eligible : List Profile) (s : Selected)
    → select_as registry inferred policy asked eligible ≡ ok s
    → IsSelected policy asked eligible s.profile
select_as-IsSelected registry inferred policy none eligible s h =
    elim (Bool-cases (is_manual policy)) [
      | inl y ↦ fail-ne-ok (rw y at h)
      | inr n ↦
          first-IsSelected inferred policy eligible (sort_candidates policy eligible) s refl
            (rw n at h)
    ]
select_as-IsSelected registry inferred policy (some id) eligible s h =
    preferred-IsSelected registry policy eligible id s h

-- What a route says of the request `r`, over the profiles of a registry.
pub record IsRouted (registry : List Profile) (r : RouteRequest) (out : Routed) : Type 0 where
  pub need : Need
  pub chosen : Profile
  pub checked : check_route r ≡ ok need
  pub registered : In chosen registry
  pub named : out.route_receipt.selected_executor_id ≡ chosen.executor_id
  pub recorded : out.route_receipt.required_capabilities ≡ need.inferred
  pub fit :
      IsFit need.inferred need.policy
        (budget_or_empty r.budget_envelope)
        r.preferred_executor
        chosen
  pub asked : (id : String) → nonempty_text r.preferred_executor ≡ some id → chosen.executor_id ≡ id
  pub first :
      nonempty_text r.preferred_executor ≡ none
      → (q : Profile) → In q registry
      → IsFit need.inferred need.policy (budget_or_empty r.budget_envelope) r.preferred_executor q
      → Precedes need.policy chosen q

route_among-IsRouted :
    (registry : List Profile) (id now : String) (r : RouteRequest) (out : Routed)
    → route_among registry id now r ≡ ok out
    → IsRouted registry r out
unfolding route_among select receipt_of
route_among-IsRouted registry id now r out h =
    let (n, e, h1) = bind-eq-ok _ _ h in
    let (s, f, h2) = bind-eq-ok _ _ h1 in
    let sel =
      select_as-IsSelected registry n.inferred n.policy (nonempty_text r.preferred_executor)
        (eligible_of (judged_by r n) registry) s f in
    let (reg, none_of) = eligible-In (judged_by r n) s.profile registry sel.member in
    subst (IsRouted registry r) (ok-injective h2) (record {
      need = n;
      chosen = s.profile;
      checked = e;
      registered = reg;
      named = refl;
      recorded = refl;
      fit =
          (judge-IsFit n.inferred n.policy (budget_or_empty r.budget_envelope) r.preferred_executor
              s.profile).0
            none_of;
      asked = sel.preferred;
      first = λ b q i g. sel.first b q (
          In-eligible (judged_by r n) q registry i (
            (judge-IsFit n.inferred n.policy (budget_or_empty r.budget_envelope)
                r.preferred_executor q).1
              g));
    })

-- The executor of a successful route is a registered profile that fits the request, and the receipt
-- names it with the capabilities that were inferred; it is the preferred one where one was given, and
-- otherwise no registered profile that fits comes before it in the policy's order.
pub route_executor-IsRouted :
    (id now : String) (r : RouteRequest) (out : Routed)
    → route_executor id now r ≡ ok out
    → IsRouted seed_executor_profiles r out
unfolding route_executor
route_executor-IsRouted id now r out h = route_among-IsRouted seed_executor_profiles id now r out h
