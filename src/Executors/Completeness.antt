-- ===== src/Executors/Completeness.antt =====
-- src/executor-profile.js, `routeExecutor`: an executor is found wherever one fits.
use cairnstone_v.Prelude.{
  subst, String, ◌≡◌, refl, sym, ◌∙◌, false, ◌↔◌, none, List, [], ◌∷◌, In, All, string_eq,
}
use cairnstone_v.Prelude.Names.{nonempty_text}
use cairnstone_v.Prelude.Value.{Value}
use cairnstone_v.Prelude.Result.{ok, ok-injective, bind-ok}
use cairnstone_v.Executors.Profiles.{Profile, seed_executor_profiles}
use cairnstone_v.Executors.Policy.{sort_candidates, Preset}
use cairnstone_v.Executors.Request.{RouteRequest, Need, Selected, Routed, budget_or_empty}
use cairnstone_v.Executors.Route.{
  eligible_of, is_manual, judged_by, check_route, select, select_first, select_as, route_among,
  route_executor,
}
use cairnstone_v.Executors.Order.{of-sort}
use cairnstone_v.Executors.Fitness.{IsFit, judge-IsFit}
use cairnstone_v.Executors.Selection.{All-In, In-eligible, route_executor-IsRouted}

select_first-found :
    (inferred : List String) (policy : Preset) (q : Profile) (eligible sorted : List Profile)
    → sort_candidates policy eligible ≡ sorted
    → In q eligible
    → (s : Selected) × (select_first inferred policy sorted ≡ ok s)
select_first-found inferred policy q eligible (p ∷ ps) e i = (_, refl)
select_first-found inferred policy q eligible [] e i = absurd (
    All-In (λ x. ⊥) q eligible (of-sort (λ x. ⊥) policy eligible (subst (All (λ x. ⊥)) (sym e) tt))
      i)

-- A registered profile that fits this request, checked to need `n`.
abbrev pub Fits : RouteRequest → Need → Profile → Type 0
Fits r n = IsFit n.inferred n.policy (budget_or_empty r.budget_envelope) r.preferred_executor

select-first :
    (inferred : List String) (policy : Preset) (preferred : Value)
    → nonempty_text preferred ≡ none
    → is_manual policy ≡ false
    → (eligible : List Profile)
    → select seed_executor_profiles inferred policy preferred eligible
      ≡ select_first inferred policy (sort_candidates policy eligible)
unfolding select
select-first inferred policy preferred u m eligible = rw (u, select_as) (rw m)

module _ (id now : String) (r : RouteRequest) (n : Need) (checked : check_route r ≡ ok n)
    (unasked : nonempty_text r.preferred_executor ≡ none)
    (automatic : is_manual n.policy ≡ false) where
  found :
      (q : Profile)
      → In q seed_executor_profiles
      → Fits r n q
      → (out : Routed) × (route_executor id now r ≡ ok out)
  unfolding route_executor route_among
  found q i f =
      let (s, e) =
        select_first-found n.inferred n.policy q
          (eligible_of (judged_by r n) seed_executor_profiles)
          (sort_candidates n.policy (eligible_of (judged_by r n) seed_executor_profiles)) refl
          (In-eligible (judged_by r n) q seed_executor_profiles i (
            (judge-IsFit n.inferred n.policy (budget_or_empty r.budget_envelope)
                r.preferred_executor q).1
              f)) in
      (
        _,
        bind-ok _ _ checked
            ∙ bind-ok _ _ (
                select-first n.inferred n.policy r.preferred_executor unasked automatic
                  (eligible_of (judged_by r n) seed_executor_profiles)
                ∙ e),
      )

-- Where no executor was asked for, under a policy other than manual, a request that passes its checks
-- is routed exactly where some registered profile fits it.
pub route_executor_finds :
    (id now : String) (r : RouteRequest) (n : Need)
    → check_route r ≡ ok n
    → nonempty_text r.preferred_executor ≡ none
    → is_manual n.policy ≡ false
    → ((out : Routed) × (route_executor id now r ≡ ok out))
      ↔ ((q : Profile) × In q seed_executor_profiles × Fits r n q)
route_executor_finds id now r n checked unasked automatic = (
  (λ (out, h).
      let routed = route_executor-IsRouted id now r out h in
      (
        routed.chosen,
        routed.registered,
        subst (λ m. Fits r m routed.chosen) (ok-injective (sym routed.checked ∙ checked))
            routed.fit,
      )),
  (λ (q, i, f). found id now r n checked unasked automatic q i f),
)
