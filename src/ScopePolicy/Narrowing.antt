-- ===== src/ScopePolicy/Narrowing.antt =====
-- src/resource-scope-policy.js: a grant stays inside its resource's family and its request.
use cairnstone_v.Prelude.{
  String, ◌≡◌, ◌≢◌, refl, sym, ◌∙◌, subst, Option, none, some, Bool, true, false, not, ◌||◌, ◌==◌,
  string_eq, List, [], ◌∷◌, push, contains, contains_sound, ◌⊎◌, arith, eq_iff, Bool-cases,
  Option-cases, inl, inr, All, In,
}
use cairnstone_v.ScopePolicy.{
  core_scope, messages_scopes, ResourceClass, core, messages, allowed_scopes,
  registered_scope_owner, same_class, Sorting, sort_scope, sort_scopes,
}

All-push :
    (P : String → Type 0) (x : String) (xs : List String) → All P xs → P x → All P (push x xs)
All-push P x [] h p = (p, tt)
All-push P x (y ∷ ys) (q, h) p = (q, All-push P x ys h p)

In-push_old : (z x : String) (xs : List String) → In z xs → In z (push x xs)
In-push_old z x (y ∷ ys) (inl e) = inl e
In-push_old z x (y ∷ ys) (inr i) = inr (In-push_old z x ys i)
In-push_old z x [] i = absurd i

In-push_new : (x : String) (xs : List String) → In x (push x xs)
In-push_new x [] = inl refl
In-push_new x (y ∷ ys) = inr (In-push_new x ys)

-- A scope that is registered, and that the class does not allow.
abbrev pub IsForeign : ResourceClass → String → Type 0
IsForeign klass x = (registered_scope_owner x ≢ none) × (contains x (allowed_scopes klass) ≡ false)

abbrev pub IsAsked : ResourceClass → (String → Type 0) → String → Type 0
IsAsked klass Asked x = (contains x (allowed_scopes klass) ≡ true) × Asked x

pub record IsSorting (klass : ResourceClass) (Asked : String → Type 0) (s : Sorting) : Type 0 where
  pub eligible : All (IsAsked klass Asked) s.eligible
  pub foreign : All (IsForeign klass) s.foreign

not_left : (b : Bool) → (not b || false) ≡ true → b ≡ false
not_left b h = ground arith

pub contains-one : (x : String) → contains x (core_scope ∷ []) ≡ true → core_scope ≡ x
contains-one x h = ground (arith, eq_iff core_scope x)

pub owner_core : (x : String) → core_scope ≡ x → registered_scope_owner x ≡ some core
unfolding registered_scope_owner
owner_core x e = subst (λ z. registered_scope_owner z ≡ some core) e refl

owner-core : (x : String) → registered_scope_owner x ≡ some core → core_scope ≡ x
unfolding registered_scope_owner
owner-core x e = elim (Bool-cases (x == core_scope)) [
  | inl y ↦ sym ((eq_iff x core_scope).0 y)
  | inr n ↦ elim (Bool-cases (contains x messages_scopes)) [
    | inl y ↦ absurd (core-ne-messages (rw (n, y, registered_scope_owner) at e))
    | inr m ↦ absurd (core-ne-none (rw (n, m, registered_scope_owner) at e))
  ]
]
  where
    core-ne-messages : some messages ≡ some core → ⊥
    core-ne-messages h = cc

    core-ne-none : Path (Option ResourceClass) none (some core) → ⊥
    core-ne-none h = cc

owner-class :
    (klass owner : ResourceClass) (x : String)
    → registered_scope_owner x ≡ some owner
    → (not (contains x (allowed_scopes klass)) || not (same_class owner klass)) ≡ true
    → contains x (allowed_scopes klass) ≡ false
owner-class core core x e h = not_left _ h
owner-class core messages x e h = elim (Bool-cases (contains x (core_scope ∷ []))) [
  | inl y ↦ absurd (owner-apart (sym (owner_core x (contains-one x y)) ∙ e))
  | inr n ↦ n
]
  where
    owner-apart : some core ≡ some messages → ⊥
    owner-apart h = cc
owner-class messages core x e h =
    subst (λ z. contains z messages_scopes ≡ false) (owner-core x e) refl
owner-class messages messages x e h = not_left _ h

is_allowed : (a b : Bool) → (not a || not b) ≡ false → a ≡ true
is_allowed a b h = ground arith

sort_scope-IsSorting :
    (klass : ResourceClass) (Asked : String → Type 0) (x : String) (acc : Sorting)
    → Asked x
    → IsSorting klass Asked acc
    → IsSorting klass Asked (sort_scope klass x acc)
sort_scope-IsSorting klass Asked x acc asked s = elim (Option-cases (registered_scope_owner x)) [
  | inl n ↦ rw (n, sort_scope) (record { eligible = s.eligible; foreign = s.foreign })
  | inr (owner, e) ↦
      elim (Bool-cases (not (contains x (allowed_scopes klass)) || not (same_class owner klass))) [
        | inl y ↦
            rw (e, y, sort_scope)
              (record {
                eligible = s.eligible;
                foreign =
                    All-push (IsForeign klass) x acc.foreign s.foreign
                      ((λ n. ground arith), owner-class klass owner x e y);
              })
        | inr n ↦ elim (Bool-cases (contains x acc.eligible)) [
          | inl y ↦ rw (e, n, y, sort_scope) s
          | inr m ↦
              rw (e, n, m, sort_scope)
                (record {
                  eligible =
                      All-push (IsAsked klass Asked) x acc.eligible s.eligible
                        (is_allowed _ _ n, asked);
                  foreign = s.foreign;
                })
        ]
      ]
]

-- Where a scope that has gone through the loop is.
abbrev pub Placed : String → Sorting → Type 0
Placed x s = In x s.eligible ⊎ (In x s.foreign ⊎ In x s.unknown)

contains-In : (x : String) (xs : List String) → contains x xs ≡ true → In x xs
contains-In x xs h = contains_sound x xs h

sort_scope-places :
    (klass : ResourceClass) (x : String) (acc : Sorting) → Placed x (sort_scope klass x acc)
sort_scope-places klass x acc = elim (Option-cases (registered_scope_owner x)) [
  | inl n ↦ rw (n, sort_scope) (inr (inr (In-push_new x acc.unknown)))
  | inr (owner, e) ↦
      elim (Bool-cases (not (contains x (allowed_scopes klass)) || not (same_class owner klass))) [
        | inl y ↦ rw (e, y, sort_scope) (inr (inl (In-push_new x acc.foreign)))
        | inr n ↦ elim (Bool-cases (contains x acc.eligible)) [
          | inl y ↦ rw (e, n, y, sort_scope) (inl (contains-In x acc.eligible y))
          | inr m ↦ rw (e, n, m, sort_scope) (inl (In-push_new x acc.eligible))
        ]
      ]
]

sort_scope-keeps :
    (klass : ResourceClass) (z x : String) (acc : Sorting)
    → Placed z acc
    → Placed z (sort_scope klass x acc)
sort_scope-keeps klass z x acc p = elim (Option-cases (registered_scope_owner x)) [
  | inl n ↦ rw (n, sort_scope) (pushed_unknown p)
  | inr (owner, e) ↦
      elim (Bool-cases (not (contains x (allowed_scopes klass)) || not (same_class owner klass))) [
        | inl y ↦ rw (e, y, sort_scope) (pushed_foreign p)
        | inr n ↦ elim (Bool-cases (contains x acc.eligible)) [
          | inl y ↦ rw (e, n, y, sort_scope) p
          | inr m ↦ rw (e, n, m, sort_scope) (pushed_eligible p)
        ]
      ]
]
  where
    pushed_unknown : Placed z acc → Placed z (record acc { unknown = push x acc.unknown })
    pushed_unknown (inl i) = inl i
    pushed_unknown (inr (inl i)) = inr (inl i)
    pushed_unknown (inr (inr i)) = inr (inr (In-push_old z x acc.unknown i))

    pushed_foreign : Placed z acc → Placed z (record acc { foreign = push x acc.foreign })
    pushed_foreign (inl i) = inl i
    pushed_foreign (inr (inl i)) = inr (inl (In-push_old z x acc.foreign i))
    pushed_foreign (inr (inr i)) = inr (inr i)

    pushed_eligible : Placed z acc → Placed z (record acc { eligible = push x acc.eligible })
    pushed_eligible (inl i) = inl (In-push_old z x acc.eligible i)
    pushed_eligible (inr i) = inr i

sort_scopes-keeps :
    (klass : ResourceClass) (z : String) (xs : List String) (acc : Sorting)
    → Placed z acc
    → Placed z (sort_scopes klass xs acc)
unfolding sort_scopes
sort_scopes-keeps klass z [] acc p = p
sort_scopes-keeps klass z (x ∷ xs) acc p =
    sort_scopes-keeps klass z xs (sort_scope klass x acc) (sort_scope-keeps klass z x acc p)

pub sort_scopes-places :
    (klass : ResourceClass) (z : String) (xs : List String) (acc : Sorting)
    → In z xs
    → Placed z (sort_scopes klass xs acc)
unfolding sort_scopes
sort_scopes-places klass z (x ∷ xs) acc (inl e) =
    sort_scopes-keeps klass z xs (sort_scope klass x acc)
      (subst (λ y. Placed y (sort_scope klass x acc)) e (sort_scope-places klass x acc))
sort_scopes-places klass z (x ∷ xs) acc (inr i) =
    sort_scopes-places klass z xs (sort_scope klass x acc) i
sort_scopes-places klass z [] acc i = absurd i

pub sort_scopes-IsSorting :
    (klass : ResourceClass) (Asked : String → Type 0) (xs : List String) (acc : Sorting)
    → All Asked xs
    → IsSorting klass Asked acc
    → IsSorting klass Asked (sort_scopes klass xs acc)
unfolding sort_scopes
sort_scopes-IsSorting klass Asked [] acc a s = s
sort_scopes-IsSorting klass Asked (x ∷ xs) acc (p, a) s =
    sort_scopes-IsSorting klass Asked xs (sort_scope klass x acc) a
      (sort_scope-IsSorting klass Asked x acc p s)
