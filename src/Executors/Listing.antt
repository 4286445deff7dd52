-- ===== src/Executors/Listing.antt =====
-- src/executor-profile.js, `listExecutorProfiles` and `getExecutorProfile`: they show the same profiles.
use cairnstone_v.Prelude.{
  ap, subst, String, ◌≡◌, refl, sym, ◌∙◌, ◌⊎◌, Bool, true, false, none, some, ◌↔◌, List, [], ◌∷◌,
  ◌==◌, string_eq, eq_iff, Bool-cases, inl, inr, All, In, keep,
}
use cairnstone_v.Prelude.Text.{trim}
use cairnstone_v.Prelude.Names.{named, kind_pattern}
use cairnstone_v.Prelude.Value.{
  Value, undefined, null, other, bool, nat, neg, str, as_string, truthy,
}
use cairnstone_v.Prelude.Result.{ok, ◌>>=◌, bind-eq-ok, ok-injective, get_or-eq-ok}
use cairnstone_v.Executors.Profiles.{Profile, seed_executor_profiles}
use cairnstone_v.Executors.Context.{
  find_profile, clone_profile, get_executor_profile, agrees, clone_all, list_executor_profiles,
}
use cairnstone_v.Executors.Selection.{All-In, find-In}

keep-In :
    (test : Profile → Bool) (p : Profile) (ps : List Profile)
    → In p (keep test ps) ↔ (In p ps × (test p ≡ true))
keep-In test p [] = ((λ i. absurd i), (λ h. absurd (h.0)))
keep-In test p (q ∷ qs) = elim (Bool-cases (test q)) [
  | inl y ↦ rw y (
    (λ i. elim i [
      | inl e ↦ (inl e, ap test (sym e) ∙ y)
      | inr j ↦ let (k, t) = (keep-In test p qs).0 j in (inr k, t)
    ]),
    (λ (i, t). elim i [ inl e ↦ inl e | inr j ↦ inr ((keep-In test p qs).1 (j, t)) ]),
  )
  | inr n ↦ rw n (
    (λ i. let (k, t) = (keep-In test p qs).0 i in (inr k, t)),
    (λ (i, t). elim i [
      | inl e ↦ absurd (false-ne-true (sym n ∙ ap test e ∙ t))
      | inr j ↦ (keep-In test p qs).1 (j, t)
    ]),
  )
]
  where
    false-ne-true : false ≡ true → ⊥
    false-ne-true h = cc

In-clone_all : (q : Profile) (ps : List Profile) → In q ps → In (clone_profile q) (clone_all ps)
unfolding clone_all
In-clone_all q [] i = absurd i
In-clone_all q (p ∷ ps) (inl e) = inl (ap clone_profile e)
In-clone_all q (p ∷ ps) (inr i) = inr (In-clone_all q ps i)

of-clone_all :
    (p : Profile) (ps : List Profile)
    → In p (clone_all ps)
    → (q : Profile) × In q ps × (clone_profile q ≡ p)
unfolding clone_all
of-clone_all p [] i = absurd i
of-clone_all p (q ∷ qs) (inl e) = (q, inl refl, e)
of-clone_all p (q ∷ qs) (inr i) = let (r, j, e) = of-clone_all p qs i in (r, inr j, e)

abbrev IsGot : Profile → Type 0
IsGot q = get_executor_profile (str (clone_profile q).executor_id) ≡ ok (clone_profile q)

seeds-IsGot : All IsGot seed_executor_profiles
unfolding get_executor_profile kind_pattern trim find_profile clone_profile ◌>>=◌
seeds-IsGot = (refl, (refl, (refl, (refl, (refl, tt)))))

got-In :
    (v : Value) (p : Profile)
    → get_executor_profile v ≡ ok p
    → In p (clone_all seed_executor_profiles)
unfolding get_executor_profile
got-In v p h =
    let (id, _, h1) = bind-eq-ok _ _ h in
    let (q, f, h2) = bind-eq-ok _ _ h1 in
    let (i, _) = find-In id seed_executor_profiles q (get_or-eq-ok _ _ q f) in
    subst (λ x. In x (clone_all seed_executor_profiles)) (ok-injective h2)
      (In-clone_all q seed_executor_profiles i)

-- A filter that is falsy lets all pass; a text lets pass what is equal to it without the white space
-- around it; no other value lets anything pass.
abbrev pub Matches : Value → String → Type 0
Matches v text = (truthy v ≡ false) ⊎ ((s : String) × (v ≡ str s) × (text ≡ trim s))

agrees-Matches : (v : Value) (text : String) → agrees v text ≡ true → Matches v text
agrees-Matches v text h = elim (Bool-cases (truthy v)) [
  | inr n ↦ inl n
  | inl y ↦ agreeing v y (rw y at h)
]
  where
    agreeing :
        (v : Value)
        → truthy v ≡ true
        → elim (as_string v) [ none ↦ false | some s ↦ text == trim s ] ≡ true
        → Matches v text
    agreeing (str s) y h = inr (s, refl, (eq_iff text (trim s)).0 h)
    agreeing undefined y h = cc
    agreeing null y h = cc
    agreeing other y h = cc
    agreeing (bool b) y h = cc
    agreeing (nat n) y h = cc
    agreeing (neg n) y h = cc

Matches-agrees : (v : Value) (text : String) → Matches v text → agrees v text ≡ true
Matches-agrees v text (inl n) = rw n refl
Matches-agrees v text (inr (s, e, same)) = elim (Bool-cases (truthy v)) [
  | inr n ↦ rw n refl
  | inl y ↦ rw y (
      subst (λ x. elim (as_string x) [ none ↦ false | some r ↦ text == trim r ] ≡ true) (sym e)
        ((eq_iff text (trim s)).1 same))
]

agrees_iff : (v : Value) (text : String) → (agrees v text ≡ true) ↔ Matches v text
agrees_iff v text = (agrees-Matches v text, Matches-agrees v text)

listed_iff :
    (executor_class availability : Value) (p : Profile)
    → In p (list_executor_profiles executor_class availability) ↔ (
        (get_executor_profile (str p.executor_id) ≡ ok p)
        × Matches executor_class p.executor_class
        × Matches availability p.availability)
unfolding list_executor_profiles
listed_iff executor_class availability p =
    let by_class = λ (q : Profile). agrees executor_class q.executor_class in
    let outer =
      keep-In (λ q. agrees availability q.availability) p
        (keep by_class (clone_all seed_executor_profiles)) in
    let inner = keep-In by_class p (clone_all seed_executor_profiles) in
    let class_iff = agrees_iff executor_class p.executor_class in
    let availability_iff = agrees_iff availability p.availability in
    (
      (λ i.
          let (j, a) = outer.0 i in
          let (k, c) = inner.0 j in
          let (q, m, e) = of-clone_all p seed_executor_profiles k in
          (
            subst (λ x. get_executor_profile (str x.executor_id) ≡ ok x) e
                (All-In IsGot q seed_executor_profiles seeds-IsGot m),
            class_iff.0 c,
            availability_iff.0 a,
          )),
      (λ (g, c, a).
          outer.1 (inner.1 (got-In (str p.executor_id) p g, class_iff.1 c), availability_iff.1 a)),
    )

-- What an answer of `getExecutorProfile` was found by.
got-found :
    (v : Value) (p : Profile)
    → get_executor_profile v ≡ ok p
    → (named (kind_pattern "exec") v ≡ some p.executor_id)
      × (q : Profile) × (find_profile p.executor_id seed_executor_profiles ≡ some q)
      × (clone_profile q ≡ p)
unfolding get_executor_profile clone_profile
got-found v p h =
    let (id, e, h1) = bind-eq-ok _ _ h in
    let (q, f, h2) = bind-eq-ok _ _ h1 in
    let found = get_or-eq-ok _ _ q f in
    let (_, own) = find-In id seed_executor_profiles q found in
    let shown = ok-injective h2 in
    let same : id ≡ p.executor_id = sym own ∙ ap (λ (x : Profile). x.executor_id) shown in
    (
      get_or-eq-ok _ _ id e ∙ ap (λ (x : String). some x) same,
      q,
      subst (λ x. find_profile x seed_executor_profiles ≡ some q) same found,
      shown,
    )

named-got :
    (u v : Value) (p : Profile)
    → get_executor_profile u ≡ ok p
    → named (kind_pattern "exec") v ≡ some p.executor_id
    → get_executor_profile v ≡ ok p
unfolding get_executor_profile ◌>>=◌
named-got u v p h n =
    let (_, q, f, shown) = got-found u p h in rw (n, f) (ap (λ (x : Profile). ok x) shown)

-- A listing shows exactly the profiles that getExecutorProfile answers with for their own ids and that
-- match both filters; and getExecutorProfile answers with a profile exactly where a listing without
-- filters shows it and the argument, without the white space around it, is its well-formed id.
pub list_executor_profiles_exact :
    (executor_class availability executor_id : Value) (p : Profile)
    → (In p (list_executor_profiles executor_class availability) ↔ (
        (get_executor_profile (str p.executor_id) ≡ ok p)
        × Matches executor_class p.executor_class
        × Matches availability p.availability))
      × ((get_executor_profile executor_id ≡ ok p) ↔ (
          In p (list_executor_profiles undefined undefined)
          × (named (kind_pattern "exec") executor_id ≡ some p.executor_id)))
list_executor_profiles_exact executor_class availability executor_id p =
    let every = listed_iff undefined undefined p in
    (
      listed_iff executor_class availability p,
      (
        (λ h.
            let (n, q, f, shown) = got-found executor_id p h in
            (every.1 (own-got q f shown, inl refl, inl refl), n)),
        (λ (i, n). named-got (str p.executor_id) executor_id p ((every.0 i).0) n),
      ),
    )
  where
    own-got :
        (q : Profile)
        → find_profile p.executor_id seed_executor_profiles ≡ some q
        → clone_profile q ≡ p
        → get_executor_profile (str p.executor_id) ≡ ok p
    own-got q f shown =
        let (i, _) = find-In p.executor_id seed_executor_profiles q f in
        subst (λ x. get_executor_profile (str x.executor_id) ≡ ok x) shown
          (All-In IsGot q seed_executor_profiles seeds-IsGot i)
