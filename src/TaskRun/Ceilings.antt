-- ===== src/TaskRun/Ceilings.antt =====
-- src/task-run.js, `refsSubset` and `capsSubset`: a child stays below its parent's ceilings.
use cairnstone_v.Prelude.{
  sym, ◌∙◌, ap, subst, String, ◌≡◌, refl, Bool, true, false, string_eq, if◌then◌else◌, Bool-cases,
  inl, inr, ◌↔◌, List, [], ◌∷◌, contains, contains_sound, contains_complete, In,
}
use cairnstone_v.TaskRun.{refs_subset, caps_subset, each_within}

-- Each member of a list is one of the other.
abbrev pub IsWithin : List String → List String → Type 0
IsWithin child parent = (x : String) → In x child → In x parent

each-IsWithin :
    (child parent : List String) → each_within child parent ≡ true → IsWithin child parent
each-IsWithin [] parent h x i = absurd i
each-IsWithin (c ∷ cs) parent h x i = elim (Bool-cases (contains c parent)) [
  | inr n ↦ absurd (false-ne-true (rw (n, each_within) at h))
  | inl y ↦ elim i [
    | inl e ↦ subst (λ z. In z parent) e (contains_sound c parent y)
    | inr j ↦ each-IsWithin cs parent (rw (y, each_within) at h) x j
  ]
]
  where
    false-ne-true : false ≡ true → ⊥
    false-ne-true h = cc

IsWithin-each :
    (child parent : List String) → IsWithin child parent → each_within child parent ≡ true
IsWithin-each [] parent w = refl
IsWithin-each (c ∷ cs) parent w =
    rw (contains_complete c parent (w c (inl refl)), each_within)
      (IsWithin-each cs parent (λ x i. w x (inr i)))

refs-each : (child parent : List String) → refs_subset child parent ≡ each_within child parent
unfolding refs_subset
refs-each [] parent = refl
refs-each (c ∷ cs) parent =
    ap (λ (b : Bool). if contains c parent then b else false) (refs-each cs parent)

caps-each : (child parent : List String) → caps_subset child parent ≡ each_within child parent
unfolding caps_subset
caps-each [] [] = refl
caps-each (c ∷ cs) [] = refl
caps-each child (p ∷ ps) = refl

-- Both tests hold exactly where each reference, or each capability, of the child is one of the
-- parent's: the case of an empty ceiling, which the second treats by itself, is none of its own.
pub subsets_exact :
    (child parent : List String)
    → ((refs_subset child parent ≡ true) ↔ IsWithin child parent)
      × ((caps_subset child parent ≡ true) ↔ IsWithin child parent)
subsets_exact child parent = (
  (
    (λ h. each-IsWithin child parent (sym (refs-each child parent) ∙ h)),
    (λ w. refs-each child parent ∙ IsWithin-each child parent w),
  ),
  (
    (λ h. each-IsWithin child parent (sym (caps-each child parent) ∙ h)),
    (λ w. caps-each child parent ∙ IsWithin-each child parent w),
  ),
)
