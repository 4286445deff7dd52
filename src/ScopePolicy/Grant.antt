-- ===== src/ScopePolicy/Grant.antt =====
-- src/resource-scope-policy.js, `resolveResourceScopePolicy`: what a request is given.
use cairnstone_v.Prelude.{
  String, ◌≡◌, ◌≢◌, refl, sym, ◌∙◌, ap, subst, none, some, true, false, string_eq, List, [], ◌∷◌,
  contains, ◌⊎◌, arith, Bool-cases, inl, inr, All, In,
}
use cairnstone_v.Prelude.Value.{Value}
use cairnstone_v.Prelude.Result.{ok, bind-eq-ok, ok-injective, fail-ne-ok, get_or-eq-ok}
use cairnstone_v.ScopePolicy.{
  ResourceClass, core, messages, allowed_scopes, default_scopes, Requested, parse_requested_scopes,
  Deployment, resolve_resource_class, registered_scope_owner, Sorting, sort_scopes, Granted,
  is_empty, nothing_sorted, decide_scopes, decide_requested, resolve_resource_scope_policy,
}
use cairnstone_v.ScopePolicy.Narrowing.{
  owner_core, contains-one, IsForeign, IsSorting, Placed, sort_scopes-places, sort_scopes-IsSorting,
}

-- What a grant promises of a class and the scopes that were asked for.
pub record IsGrant (klass : ResourceClass) (requested : List String) (g : Granted) : Type 0 where
  pub of_class : g.resource_class ≡ klass
  pub within : All (λ x. contains x (allowed_scopes klass) ≡ true) g.scopes
  pub nonempty : is_empty g.scopes ≡ false
  pub defaults : g.defaulted ≡ true → (requested ≡ []) × (g.scopes ≡ default_scopes klass)
  pub asked : g.defaulted ≡ false → All (λ x. In x requested) g.scopes
  pub covered : (x : String) → In x requested → In x g.scopes ⊎ In x g.narrowed
  pub narrowed : All (IsForeign klass) g.narrowed

All-imp :
    {P Q : String → Type 0} (f : (x : String) → P x → Q x) (xs : List String) → All P xs → All Q xs
All-imp f [] h = tt
All-imp f (x ∷ xs) (p, h) = (f x p, All-imp f xs h)

All-In : (xs : List String) → All (λ x. In x xs) xs
All-In [] = tt
All-In (x ∷ xs) = (inl refl, All-imp (λ z i. inr i) xs (All-In xs))

empty-eq-nil : (xs : List String) → is_empty xs ≡ true → xs ≡ []
empty-eq-nil [] h = refl
empty-eq-nil (x ∷ xs) h = cc

default_scopes-within :
    (klass : ResourceClass)
    → All (λ x. contains x (allowed_scopes klass) ≡ true) (default_scopes klass)
default_scopes-within core = (refl, tt)
default_scopes-within messages = (refl, tt)

default_scopes-nonempty : (klass : ResourceClass) → is_empty (default_scopes klass) ≡ false
default_scopes-nonempty core = refl
default_scopes-nonempty messages = refl

Placed-known :
    (x : String) (s : Sorting)
    → is_empty s.unknown ≡ true
    → Placed x s
    → In x s.eligible ⊎ In x s.foreign
Placed-known x s e (inl i) = inl i
Placed-known x s e (inr (inl i)) = inr i
Placed-known x s e (inr (inr i)) = absurd (subst (λ xs. In x xs) (empty-eq-nil s.unknown e) i)

decided-IsGrant :
    (klass : ResourceClass) (requested : List String) (s : Sorting) (g : Granted)
    → IsSorting klass (λ x. In x requested) s
    → ((x : String) → In x requested → Placed x s)
    → decide_scopes klass s ≡ ok g
    → IsGrant klass requested g
decided-IsGrant klass requested s g sorted places h = elim (Bool-cases (is_empty s.unknown)) [
  | inr n ↦ absurd (fail-ne-ok (rw (n, decide_scopes) at h))
  | inl y ↦ elim (Bool-cases (is_empty s.eligible)) [
    | inl e ↦ absurd (fail-ne-ok (rw (y, e, decide_scopes) at h))
    | inr e ↦
        subst (IsGrant klass requested) (ok-injective (rw (y, e, decide_scopes) at h)) (record {
          of_class = refl;
          within = All-imp (λ x p. p.0) s.eligible sorted.eligible;
          nonempty = e;
          defaults = λ d. absurd (ground arith);
          asked = λ d. All-imp (λ x p. p.1) s.eligible sorted.eligible;
          covered = λ x i. Placed-known x s y (places x i);
          narrowed = sorted.foreign;
        })
  ]
]

decide_requested-IsGrant :
    (klass : ResourceClass) (requested : List String) (g : Granted)
    → decide_requested klass requested ≡ ok g
    → IsGrant klass requested g
unfolding decide_requested
decide_requested-IsGrant klass requested g h = elim (Bool-cases (is_empty requested)) [
  | inl y ↦
      let nil = empty-eq-nil requested y in
      subst (IsGrant klass requested) (ok-injective (rw (y, decide_requested) at h)) (record {
        of_class = refl;
        within = default_scopes-within klass;
        nonempty = default_scopes-nonempty klass;
        defaults = λ d. (nil, refl);
        asked = λ d. absurd (ground arith);
        covered = λ x i. absurd (subst (λ xs. In x xs) nil i);
        narrowed = tt;
      })
  | inr n ↦
      decided-IsGrant klass requested (sort_scopes klass requested nothing_sorted) g
        (sort_scopes-IsSorting klass (λ x. In x requested) requested nothing_sorted
          (All-In requested) (record { eligible = tt; foreign = tt }))
        (λ x i. sort_scopes-places klass x requested nothing_sorted i)
        (rw (n, decide_requested) at h)
]

-- A request that is granted is for a resource of a known class, and every scope it is given is one
-- that this class allows; there is at least one. An empty request has the class's defaults; from
-- another one, only scopes that it asked for are given, each scope it asked for is given or named as
-- narrowed, and a narrowed one is registered and not allowed for the class.
pub resolve-IsGrant :
    (d : Deployment) (resource : Value) (requested : Requested) (g : Granted)
    → resolve_resource_scope_policy d resource requested ≡ ok g
    → (resolve_resource_class d resource ≡ some g.resource_class)
      × IsGrant g.resource_class (parse_requested_scopes requested) g
unfolding resolve_resource_scope_policy
resolve-IsGrant d resource requested g h =
    let (klass, e, h1) = bind-eq-ok _ _ h in
    let grant = decide_requested-IsGrant klass (parse_requested_scopes requested) g h1 in
    let known : resolve_resource_class d resource ≡ some klass = get_or-eq-ok _ _ klass e in
    (
      known ∙ ap some (sym grant.of_class),
      subst (λ k. IsGrant k (parse_requested_scopes requested) g) (sym grant.of_class) grant,
    )

All-at :
    (P : String → Type 0) {x : String} → (P x → ⊥) → (xs : List String) → In x xs → All P xs → ⊥
All-at P {x} f (y ∷ ys) (inl e) (p, h) = f (subst P e p)
All-at P f (y ∷ ys) (inr i) (p, h) = All-at P f ys i h
All-at P f [] i h = absurd i

allowed-registered :
    (klass : ResourceClass) (x : String)
    → contains x (allowed_scopes klass) ≡ true
    → registered_scope_owner x ≢ none
unfolding registered_scope_owner
allowed-registered core x h n = cc (owner_core x (contains-one x h), n)
allowed-registered messages x h n = ground arith

-- A request with a scope that no class has is refused, for every resource.
pub unregistered_refused :
    (d : Deployment) (resource : Value) (requested : Requested) (x : String)
    → In x (parse_requested_scopes requested)
    → registered_scope_owner x ≡ none
    → (g : Granted) → resolve_resource_scope_policy d resource requested ≢ ok g
unregistered_refused d resource requested x asked unknown g h =
    let grant = (resolve-IsGrant d resource requested g h).1 in
    elim (grant.covered x asked) [
      | inl i ↦
          All-at (λ z. contains z (allowed_scopes g.resource_class) ≡ true)
            (λ p. allowed-registered g.resource_class x p unknown) g.scopes i grant.within
      | inr i ↦ All-at (IsForeign g.resource_class) (λ p. p.0 unknown) g.narrowed i grant.narrowed
    ]
