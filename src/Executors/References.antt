-- ===== src/Executors/References.antt =====
-- src/executor-profile.js, `inferRequiredCapabilities`: what a reference stands for, by its prefix.
use cairnstone_v.Prelude.{
  ℕ, String, ◌≡◌, refl, sym, ◌∙◌, ap, subst, ◌↔◌, inl, inr, Bool, true, false, ◌||◌, some,
  if◌then◌else◌, List, [], ◌∷◌, ◌++◌, In, nat_eqb, Bool-cases, some-injective, none-ne-some, arith,
}
use cairnstone_v.Prelude.Text.{codes, strip_prefix}
use cairnstone_v.Executors.Capabilities.{has_prefix, ref_capability}
use cairnstone_v.Executors.Occurrence.{or-true}
use Prim.Native.Char.{code}

-- The prefixes of references, each with the capability that it stands for.
abbrev ref_rules : List (String × String)
ref_rules =
    ("repo:", "repo.read")
    ∷ ("stone:", "stone.read")
    ∷ ("msg:", "stone.read")
    ∷ ("cvs:", "stone.read")
    ∷ ("cs:", "repo.read")
    ∷ ("ws:", "repo.read")
    ∷ []

abbrev pub RefAsks : String → String → Type 0
RefAsks ref c =
    (prefix : String) × In (prefix, c) ref_rules
    × (rest : List ℕ) × (codes ref ≡ codes prefix ++ rest)

-- A text that begins with another.
abbrev starts : List ℕ → List ℕ → Bool
starts [] ys = true
starts (x ∷ xs) [] = false
starts (x ∷ xs) (y ∷ ys) = if nat_eqb x y then starts xs ys else false

has_prefix-starts : (p s : String) → has_prefix p s ≡ starts (codes p) (codes s)
unfolding strip_prefix
has_prefix-starts String.[] s = refl
has_prefix-starts (String.◌∷◌ p ps) String.[] = refl
has_prefix-starts (String.◌∷◌ p ps) (String.◌∷◌ c s) =
    elim (Bool-cases (nat_eqb (code p) (code c))) [
      | inl y ↦ rw (y, has_prefix, strip_prefix) (has_prefix-starts ps s)
      | inr n ↦ rw (n, has_prefix, strip_prefix) refl
    ]

starts_sound : (xs ys : List ℕ) → starts xs ys ≡ true → (rest : List ℕ) × (ys ≡ xs ++ rest)
starts_sound [] ys h = (ys, refl)
starts_sound (x ∷ xs) [] h = cc
starts_sound (x ∷ xs) (y ∷ ys) h = elim (Bool-cases (nat_eqb x y)) [
  | inl e ↦
      let (rest, f) = starts_sound xs ys (rw e at h) in
      let same : x ≡ y = ground arith in (rest, rw same (ap (λ zs. y ∷ zs) f))
  | inr n ↦ absurd (false-ne-true (rw n at h))
]
  where
    false-ne-true : false ≡ true → ⊥
    false-ne-true h = cc

has_prefix-RefAsks :
    (prefix cap ref c : String)
    → In (prefix, cap) ref_rules
    → has_prefix prefix ref ≡ true
    → some cap ≡ some c
    → RefAsks ref c
has_prefix-RefAsks prefix cap ref c i h e =
    let (rest, f) =
      starts_sound (codes prefix) (codes ref) (sym (has_prefix-starts prefix ref) ∙ h) in
    (prefix, subst (λ x. In (prefix, x) ref_rules) (some-injective e) i, rest, f)

ref_capability-RefAsks : (ref c : String) → ref_capability ref ≡ some c → RefAsks ref c
ref_capability-RefAsks ref c h = elim (Bool-cases (has_prefix "repo:" ref)) [
  | inl y ↦ has_prefix-RefAsks "repo:" "repo.read" ref c (inl refl) y (rw y at h)
  | inr n ↦
      let h1 = rw n at h in
      elim (Bool-cases
        (has_prefix "stone:" ref || has_prefix "msg:" ref || has_prefix "cvs:" ref)) [
          | inl y ↦ stone y (rw y at h1)
          | inr m ↦
              let h2 = rw m at h1 in
              elim (Bool-cases (has_prefix "cs:" ref || has_prefix "ws:" ref)) [
                | inl y ↦ session y (rw y at h2)
                | inr k ↦ absurd (none-ne-some (rw k at h2))
              ]
        ]
]
  where
    stone :
        (has_prefix "stone:" ref || has_prefix "msg:" ref || has_prefix "cvs:" ref) ≡ true
        → some "stone.read" ≡ some c
        → RefAsks ref c
    stone y e =
        elim (or-true (has_prefix "stone:" ref || has_prefix "msg:" ref) (has_prefix "cvs:" ref)
          y) [
            | inr z ↦ has_prefix-RefAsks "cvs:" "stone.read" ref c (inr (inr (inr (inl refl)))) z e
            | inl z ↦ elim (or-true (has_prefix "stone:" ref) (has_prefix "msg:" ref) z) [
              | inl w ↦ has_prefix-RefAsks "stone:" "stone.read" ref c (inr (inl refl)) w e
              | inr w ↦ has_prefix-RefAsks "msg:" "stone.read" ref c (inr (inr (inl refl))) w e
            ]
          ]

    session :
        (has_prefix "cs:" ref || has_prefix "ws:" ref) ≡ true
        → some "repo.read" ≡ some c
        → RefAsks ref c
    session y e = elim (or-true (has_prefix "cs:" ref) (has_prefix "ws:" ref) y) [
      | inl w ↦ has_prefix-RefAsks "cs:" "repo.read" ref c (inr (inr (inr (inr (inl refl))))) w e
      | inr w ↦
          has_prefix-RefAsks "ws:" "repo.read" ref c (inr (inr (inr (inr (inr (inl refl)))))) w e
    ]

RefAsks-ref_capability : (ref c : String) → RefAsks ref c → ref_capability ref ≡ some c
RefAsks-ref_capability ref c (prefix, i, rest, e) = of_rule prefix i e
  where
    of_rule :
        (p : String)
        → In (p, c) ref_rules
        → codes ref ≡ codes p ++ rest
        → ref_capability ref ≡ some c
    of_rule p (inl e) f =
        let g = λ (q : String).
          has_prefix-starts q ref
          ∙ ap (starts (codes q)) (f ∙ ap (λ (r : String × String). codes (r.0) ++ rest) (sym e)) in
        rw (g "repo:") (ap (λ (r : String × String). some (r.1)) e)
    of_rule p (inr (inl e)) f =
        let g = λ (q : String).
          has_prefix-starts q ref
          ∙ ap (starts (codes q)) (f ∙ ap (λ (r : String × String). codes (r.0) ++ rest) (sym e)) in
        rw (g "repo:", g "stone:") (ap (λ (r : String × String). some (r.1)) e)
    of_rule p (inr (inr (inl e))) f =
        let g = λ (q : String).
          has_prefix-starts q ref
          ∙ ap (starts (codes q)) (f ∙ ap (λ (r : String × String). codes (r.0) ++ rest) (sym e)) in
        rw (g "repo:", g "stone:", g "msg:") (ap (λ (r : String × String). some (r.1)) e)
    of_rule p (inr (inr (inr (inl e)))) f =
        let g = λ (q : String).
          has_prefix-starts q ref
          ∙ ap (starts (codes q)) (f ∙ ap (λ (r : String × String). codes (r.0) ++ rest) (sym e)) in
        rw (g "repo:", g "stone:", g "msg:", g "cvs:") (ap (λ (r : String × String). some (r.1)) e)
    of_rule p (inr (inr (inr (inr (inl e))))) f =
        let g = λ (q : String).
          has_prefix-starts q ref
          ∙ ap (starts (codes q)) (f ∙ ap (λ (r : String × String). codes (r.0) ++ rest) (sym e)) in
        rw (g "repo:", g "stone:", g "msg:", g "cvs:", g "cs:")
          (ap (λ (r : String × String). some (r.1)) e)
    of_rule p (inr (inr (inr (inr (inr (inl e)))))) f =
        let g = λ (q : String).
          has_prefix-starts q ref
          ∙ ap (starts (codes q)) (f ∙ ap (λ (r : String × String). codes (r.0) ++ rest) (sym e)) in
        rw (g "repo:", g "stone:", g "msg:", g "cvs:", g "cs:", g "ws:")
          (ap (λ (r : String × String). some (r.1)) e)
    of_rule p (inr (inr (inr (inr (inr (inr n)))))) f = absurd n

pub ref_capability_iff : (ref c : String) → (ref_capability ref ≡ some c) ↔ RefAsks ref c
ref_capability_iff ref c = (ref_capability-RefAsks ref c, RefAsks-ref_capability ref c)
