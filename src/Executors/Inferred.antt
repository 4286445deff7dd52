-- ===== src/Executors/Inferred.antt =====
-- src/executor-profile.js, `inferRequiredCapabilities`: where the inferred capabilities come from.
use cairnstone_v.Prelude.{
  ap, subst, String, ◌≡◌, refl, sym, Bool, true, false, ◌↔◌, ◌⊎◌, Option, none, some, List, [], ◌∷◌,
  if◌then◌else◌, string_eq, nat_eqb, contains, contains_sound, push, Bool-cases, inl, inr, In,
  none-ne-some, some-injective,
}
use cairnstone_v.Prelude.Text.{trim, js_length, text_le}
use cairnstone_v.Executors.Hints.{hint_text}
use cairnstone_v.Executors.Rules.{Asks, hint_caps_iff}
use cairnstone_v.Executors.References.{RefAsks, ref_capability_iff}
use cairnstone_v.Executors.Capabilities.{
  add_cap, add_caps, ref_capability, add_found, add_ref_caps, hint_caps, or_stone_read,
  trimmed_caps, place_text, sort_texts, gather_capabilities, infer_required_capabilities,
}

-- Two additions in turn.
in_turn : {X Y Z S R : Type 0} → (Y ↔ (X ⊎ S)) → (Z ↔ (Y ⊎ R)) → (Z ↔ (X ⊎ (S ⊎ R)))
in_turn f g = (
  (λ z. elim (g.0 z) [
    | inr r ↦ inr (inr r)
    | inl y ↦ elim (f.0 y) [ inl x ↦ inl x | inr k ↦ inr (inl k) ]
  ]),
  (λ i. g.1 (elim i [
    | inl x ↦ inl (f.1 (inl x))
    | inr k ↦ elim k [ inl m ↦ inl (f.1 (inr m)) | inr r ↦ inr r ]
  ])),
)

-- The same addition, described in another way.
described : {X Y S T : Type 0} → (Y ↔ (X ⊎ S)) → (S ↔ T) → (Y ↔ (X ⊎ T))
described f g = (
  (λ y. elim (f.0 y) [ inl x ↦ inl x | inr k ↦ inr (g.0 k) ]),
  (λ i. f.1 (elim i [ inl x ↦ inl x | inr k ↦ inr (g.1 k) ])),
)

nothing_added : {X : Type 0} → X ↔ (X ⊎ ⊥)
nothing_added = ((λ x. inl x), (λ i. elim i [ inl x ↦ x | inr n ↦ absurd n ]))

In-push : (c d : String) (xs : List String) → In c (push d xs) ↔ (In c xs ⊎ (d ≡ c))
In-push c d [] = (
  (λ i. elim i [ inl e ↦ inr e | inr n ↦ absurd n ]),
  (λ i. elim i [ inl n ↦ absurd n | inr e ↦ inl e ]),
)
In-push c d (x ∷ xs) = (
  (λ i. elim i [
    | inl e ↦ inl (inl e)
    | inr j ↦ elim ((In-push c d xs).0 j) [ inl k ↦ inl (inr k) | inr e ↦ inr e ]
  ]),
  (λ i. elim i [
    | inr e ↦ inr ((In-push c d xs).1 (inr e))
    | inl j ↦ elim j [ inl e ↦ inl e | inr k ↦ inr ((In-push c d xs).1 (inl k)) ]
  ]),
)

In-add_cap : (c d : String) (xs : List String) → In c (add_cap d xs) ↔ (In c xs ⊎ (d ≡ c))
In-add_cap c d xs = elim (Bool-cases (contains d xs)) [
  | inr n ↦ rw n (In-push c d xs)
  | inl y ↦ rw y (
    (λ i. inl i),
    (λ i. elim i [ inl j ↦ j | inr e ↦ subst (λ x. In x xs) e (contains_sound d xs y) ]),
  )
]

In-if :
    (c d : String) (b : Bool) (xs : List String)
    → In c (if b then add_cap d xs else xs) ↔ (In c xs ⊎ Path (Bool × String) (b, d) (true, c))
In-if c d true xs = (
  (λ i. elim ((In-add_cap c d xs).0 i) [
    | inl j ↦ inl j
    | inr e ↦ inr (ap (λ (x : String). (true, x)) e)
  ]),
  (λ i.
      (In-add_cap c d xs).1
        (elim i [ inl j ↦ inl j | inr e ↦ inr (ap (λ (p : Bool × String). p.1) e) ])),
)
In-if c d false xs = (
  (λ i. inl i),
  (λ i. elim i [ inl j ↦ j | inr e ↦ absurd (false-ne-true (ap (λ (p : Bool × String). p.0) e)) ]),
)
  where
    false-ne-true : false ≡ true → ⊥
    false-ne-true h = cc

In-add_caps :
    (c : String) (ts : List (Bool × String)) (xs : List String)
    → In c (add_caps ts xs) ↔ (In c xs ⊎ In (true, c) ts)
In-add_caps c [] xs = nothing_added
In-add_caps c ((b, d) ∷ ts) xs =
    in_turn (In-if c d b xs) (In-add_caps c ts (if b then add_cap d xs else xs))

-- The capability that one of the references stands for.
abbrev FromRef : String → List String → Type 0
FromRef c [] = ⊥
FromRef c (r ∷ rs) = RefAsks r c ⊎ FromRef c rs

In-add_found :
    (c : String) (o : Option String) (xs : List String)
    → In c (add_found o xs) ↔ (In c xs ⊎ (o ≡ some c))
In-add_found c none xs =
    ((λ i. inl i), (λ i. elim i [ inl j ↦ j | inr n ↦ absurd (none-ne-some n) ]))
In-add_found c (some d) xs = (
  (λ i. elim ((In-add_cap c d xs).0 i) [
    | inl j ↦ inl j
    | inr e ↦ inr (ap (λ (x : String). some x) e)
  ]),
  (λ i. (In-add_cap c d xs).1 (elim i [ inl j ↦ inl j | inr e ↦ inr (some-injective e) ])),
)

In-add_ref_caps :
    (c : String) (rs : List String) (xs : List String)
    → In c (add_ref_caps rs xs) ↔ (In c xs ⊎ FromRef c rs)
In-add_ref_caps c [] xs = nothing_added
In-add_ref_caps c (r ∷ rs) xs =
    in_turn (described (In-add_found c (ref_capability r) xs) (ref_capability_iff r c))
      (In-add_ref_caps c rs (add_found (ref_capability r) xs))

abbrev is_blank_text : String → Bool
is_blank_text x = nat_eqb (js_length (trim x)) 0

-- What was asked for, without the white space around it.
abbrev pub Asked : String → List String → Type 0
Asked c [] = ⊥
Asked c (x ∷ xs) = ((is_blank_text x ≡ false) × (trim x ≡ c)) ⊎ Asked c xs

In-unless :
    (c d : String) (b : Bool) (xs : List String)
    → In c (if b then xs else add_cap d xs) ↔ (In c xs ⊎ ((b ≡ false) × (d ≡ c)))
In-unless c d true xs =
    ((λ i. inl i), (λ i. elim i [ inl j ↦ j | inr e ↦ absurd (true-ne-false (e.0)) ]))
  where
    true-ne-false : true ≡ false → ⊥
    true-ne-false h = cc
In-unless c d false xs = (
  (λ i. elim ((In-add_cap c d xs).0 i) [ inl j ↦ inl j | inr e ↦ inr (refl, e) ]),
  (λ i. (In-add_cap c d xs).1 (elim i [ inl j ↦ inl j | inr e ↦ inr (e.1) ])),
)

In-trimmed_caps :
    (c : String) (rs : List String) (xs : List String)
    → In c (trimmed_caps rs xs) ↔ (In c xs ⊎ Asked c rs)
In-trimmed_caps c [] xs = nothing_added
In-trimmed_caps c (r ∷ rs) xs =
    in_turn (In-unless c (trim r) (is_blank_text r) xs)
      (In-trimmed_caps c rs (if is_blank_text r then xs else add_cap (trim r) xs))

In-place : (c d : String) (xs : List String) → In c (place_text d xs) ↔ ((d ≡ c) ⊎ In c xs)
unfolding place_text
In-place c d [] = ((λ i. i), (λ i. i))
In-place c d (x ∷ xs) = elim (Bool-cases (text_le d x)) [
  | inl y ↦ rw y ((λ i. i), (λ i. i))
  | inr n ↦ rw n (
    (λ i. elim i [
      | inl e ↦ inr (inl e)
      | inr j ↦ elim ((In-place c d xs).0 j) [ inl e ↦ inl e | inr k ↦ inr (inr k) ]
    ]),
    (λ i. elim i [
      | inl e ↦ inr ((In-place c d xs).1 (inl e))
      | inr j ↦ elim j [ inl e ↦ inl e | inr k ↦ inr ((In-place c d xs).1 (inr k)) ]
    ]),
  )
]

In-sort : (c : String) (xs : List String) → In c (sort_texts xs) ↔ In c xs
unfolding sort_texts
In-sort c [] = ((λ i. i), (λ i. i))
In-sort c (x ∷ xs) = (
  (λ i. elim ((In-place c x (sort_texts xs)).0 i) [
    | inl e ↦ inl e
    | inr j ↦ inr ((In-sort c xs).0 j)
  ]),
  (λ i.
      (In-place c x (sort_texts xs)).1
        (elim i [ inl e ↦ inl e | inr j ↦ inr ((In-sort c xs).1 j) ])),
)

-- Asked for, or the capability of a reference, or one that the hints ask for.
abbrev pub Needed : List String → List String → List String → String → Type 0
Needed required refs hints c = (Asked c required ⊎ FromRef c refs) ⊎ Asks (hint_text hints) c

abbrev found : List String → List String → List String → List String
found required refs hints =
    add_caps (hint_caps (hint_text hints)) (add_ref_caps refs (trimmed_caps required []))

In-found :
    (required refs hints : List String) (c : String)
    → In c (found required refs hints) ↔ Needed required refs hints c
In-found required refs hints c =
    let caps = trimmed_caps required [] in
    let asked = In-trimmed_caps c required [] in
    let from_refs = In-add_ref_caps c refs caps in
    let hinted =
      described (In-add_caps c (hint_caps (hint_text hints)) (add_ref_caps refs caps))
        (hint_caps_iff (hint_text hints) c) in
    (
      (λ i. elim (hinted.0 i) [
        | inr h ↦ inr h
        | inl j ↦ elim (from_refs.0 j) [
          | inr r ↦ inl (inr r)
          | inl k ↦ elim (asked.0 k) [ inl n ↦ absurd n | inr a ↦ inl (inl a) ]
        ]
      ]),
      (λ n. hinted.1 (elim n [
        | inr h ↦ inr h
        | inl m ↦ inl (from_refs.1 (elim m [ inl a ↦ inl (asked.1 (inr a)) | inr r ↦ inr r ]))
      ])),
    )

or-stone_read :
    (N : String → Type 0) (xs : List String) (c : String)
    → ((d : String) → In d xs ↔ N d)
    → In c (or_stone_read xs) ↔ (N c ⊎ ((c ≡ "stone.read") × ((d : String) → ¬ N d)))
or-stone_read N [] c f = (
  (λ i. elim i [ inl e ↦ inr (sym e, (λ d n. (f d).1 n)) | inr n ↦ absurd n ]),
  (λ i. elim i [ inl n ↦ absurd ((f c).1 n) | inr e ↦ inl (sym (e.0)) ]),
)
or-stone_read N (x ∷ xs) c f = (
  (λ i. inl ((f c).0 i)),
  (λ i. elim i [ inl n ↦ (f c).1 n | inr e ↦ absurd (e.1 x ((f x).0 (inl refl))) ]),
)

-- A capability is inferred exactly where it was asked for, stands for one of the references by the table
-- of their prefixes, or is asked for, by the table of words, by a word that occurs in the hints by
-- itself or by a pull request there; where there is no such capability, stone.read alone is inferred.
pub infer_required_capabilities-Needed :
    (required refs hints : List String) (c : String)
    → In c (infer_required_capabilities required refs hints) ↔ (
        Needed required refs hints c
        ⊎ ((c ≡ "stone.read") × ((d : String) → ¬ Needed required refs hints d)))
unfolding infer_required_capabilities gather_capabilities
infer_required_capabilities-Needed required refs hints c =
    let sorted = In-sort c (or_stone_read (found required refs hints)) in
    let all =
      or-stone_read (Needed required refs hints) (found required refs hints) c
        (In-found required refs hints) in
    ((λ i. all.0 (sorted.0 i)), (λ n. sorted.1 (all.1 n)))
