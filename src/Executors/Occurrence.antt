-- ===== src/Executors/Occurrence.antt =====
-- src/executor-profile.js, `inferRequiredCapabilities`: where the searches of its regular expressions
-- succeed.
use cairnstone_v.Prelude.{
  ℕ, String, ◌≡◌, refl, sym, ◌∙◌, ap, subst, ◌↔◌, ◌⊎◌, inl, inr, Bool, true, false, not, ◌&&◌, ◌||◌,
  some, List, [], ◌∷◌, ◌++◌, nat_eqb, In, Bool-cases, Option-cases, and-eq-true, and_true,
  some-injective, none-ne-some, arith,
}
use cairnstone_v.Prelude.Text.{codes}
use cairnstone_v.Executors.Hints.{
  is_word_char, strip_codes, at_end, word_here, any_word, is_dot, request_behind, pull_request_here,
  search_words,
}

-- A text before a word ends outside of one; `inside` says whether a word character stands before it.
abbrev Ends : Bool → List ℕ → Type 0
Ends inside [] = inside ≡ false
Ends inside (c ∷ cs) = Ends (is_word_char c) cs

-- A text behind a word begins outside of one.
abbrev Starts : List ℕ → Type 0
Starts [] = Unit
Starts (c ∷ cs) = is_word_char c ≡ false

-- A word that stands by itself at the head of a text, and anywhere in it.
abbrev pub Begins : List ℕ → List ℕ → Type 0
Begins word text = (post : List ℕ) × (text ≡ word ++ post) × Starts post

abbrev pub Occurs : String → List ℕ → Type 0
Occurs word text =
    (pre : List ℕ) × (rest : List ℕ) × (text ≡ pre ++ rest)
    × Ends false pre
    × Begins (codes word) rest

-- Nothing, or one unit that ends no line.
abbrev IsGap : List ℕ → Type 0
IsGap [] = Unit
IsGap (c ∷ []) = is_dot c ≡ true
IsGap (c ∷ d ∷ cs) = ⊥

abbrev BeginsPull : List ℕ → Type 0
BeginsPull text =
    (gap : List ℕ) × (rest : List ℕ) × (text ≡ codes "pull" ++ (gap ++ rest))
    × IsGap gap
    × Begins (codes "request") rest

-- `pull request`, with at most one unit between.
abbrev pub OccursPull : List ℕ → Type 0
OccursPull text =
    (pre : List ℕ) × (rest : List ℕ) × (text ≡ pre ++ rest) × Ends false pre × BeginsPull rest

pub or-true : (a b : Bool) → (a || b) ≡ true → (a ≡ true) ⊎ (b ≡ true)
or-true true b h = inl refl
or-true false b h = inr h

pub true-or : (a b : Bool) → b ≡ true → (a || b) ≡ true
true-or true b h = refl
true-or false b h = h

not-true : (a : Bool) → not a ≡ true → a ≡ false
not-true true h = cc
not-true false h = refl

false-not : (a : Bool) → a ≡ false → not a ≡ true
false-not a h = rw h refl

same-code : (w c : ℕ) → nat_eqb w c ≡ true → w ≡ c
same-code w c h = ground arith

code-same : (w : ℕ) → nat_eqb w w ≡ true
code-same w = ground arith

strip_sound : (word text post : List ℕ) → strip_codes word text ≡ some post → text ≡ word ++ post
strip_sound [] text post h = some-injective h
strip_sound (w ∷ ws) [] post h = absurd (none-ne-some h)
strip_sound (w ∷ ws) (c ∷ cs) post h = elim (Bool-cases (nat_eqb w c)) [
  | inl y ↦ rw (same-code w c y) (ap (λ xs. c ∷ xs) (strip_sound ws cs post (rw y at h)))
  | inr n ↦ absurd (none-ne-some (rw n at h))
]

strip_complete : (word post : List ℕ) → strip_codes word (word ++ post) ≡ some post
strip_complete [] post = refl
strip_complete (w ∷ ws) post = rw (code-same w) (strip_complete ws post)

at_end-Starts : (post : List ℕ) → at_end post ≡ true → Starts post
at_end-Starts [] h = tt
at_end-Starts (c ∷ cs) h = not-true (is_word_char c) h

Starts-at_end : (post : List ℕ) → Starts post → at_end post ≡ true
Starts-at_end [] h = refl
Starts-at_end (c ∷ cs) h = false-not (is_word_char c) h

pub word_here_iff :
    (word : String) (text : List ℕ) → (word_here word text ≡ true) ↔ Begins (codes word) text
word_here_iff word text = (
  (λ h. elim (Option-cases (strip_codes (codes word) text)) [
    | inl n ↦ absurd (false-ne-true (rw (n, word_here) at h))
    | inr (post, e) ↦
        (post, strip_sound (codes word) text post e, at_end-Starts post (rw (e, word_here) at h))
  ]),
  (λ (post, e, s).
      subst (λ x. word_here word x ≡ true) (sym e)
        (rw (strip_complete (codes word) post, word_here) (Starts-at_end post s))),
)
  where
    false-ne-true : false ≡ true → ⊥
    false-ne-true h = cc

-- One of the words stands at the head.
abbrev pub BeginsOne : List String → List ℕ → Type 0
BeginsOne words text = (w : String) × In w words × Begins (codes w) text

pub any_word_iff :
    (words : List String) (text : List ℕ) → (any_word words text ≡ true) ↔ BeginsOne words text
any_word_iff [] text = ((λ h. absurd (false-ne-true h)), (λ (w, i, b). absurd i))
  where
    false-ne-true : false ≡ true → ⊥
    false-ne-true h = cc
any_word_iff (v ∷ vs) text = (
  (λ h. elim (or-true (word_here v text) (any_word vs text) h) [
    | inl y ↦ (v, inl refl, (word_here_iff v text).0 y)
    | inr y ↦ let (w, i, b) = (any_word_iff vs text).0 y in (w, inr i, b)
  ]),
  (λ (w, i, b). elim i [
    | inl e ↦ rw ((word_here_iff v text).1 (subst (λ x. Begins (codes x) text) (sym e) b)) refl
    | inr j ↦ true-or (word_here v text) (any_word vs text) ((any_word_iff vs text).1 (w, j, b))
  ]),
)

request_behind_sound :
    (text : List ℕ)
    → request_behind text ≡ true
    → (gap : List ℕ) × (rest : List ℕ) × (text ≡ gap ++ rest)
      × IsGap gap
      × Begins (codes "request") rest
request_behind_sound [] h = cc
request_behind_sound (c ∷ cs) h =
    elim (or-true (word_here "request" (c ∷ cs)) (is_dot c && word_here "request" cs) h) [
      | inl y ↦ ([], c ∷ cs, refl, tt, (word_here_iff "request" (c ∷ cs)).0 y)
      | inr y ↦
          let (dot, here) = and-eq-true (is_dot c) (word_here "request" cs) y in
          (c ∷ [], cs, refl, dot, (word_here_iff "request" cs).0 here)
    ]

request_behind_complete :
    (gap rest : List ℕ)
    → IsGap gap
    → Begins (codes "request") rest
    → request_behind (gap ++ rest) ≡ true
request_behind_complete [] [] g b = absurd (empty b)
  where
    empty : Begins (codes "request") [] → ⊥
    empty b = cons-ne-nil b.1
      where
        cons-ne-nil : {x : ℕ} {xs : List ℕ} → Path (List ℕ) [] (x ∷ xs) → ⊥
        cons-ne-nil h = cc
request_behind_complete [] (c ∷ cs) g b = rw ((word_here_iff "request" (c ∷ cs)).1 b) refl
request_behind_complete (c ∷ []) rest g b =
    true-or (word_here "request" (c ∷ rest)) (is_dot c && word_here "request" rest)
      (and_true (is_dot c) (word_here "request" rest) g ((word_here_iff "request" rest).1 b))
request_behind_complete (c ∷ d ∷ cs) rest g b = absurd g

pub pull_request_here_iff : (text : List ℕ) → (pull_request_here text ≡ true) ↔ BeginsPull text
pull_request_here_iff text = (
  (λ h. elim (Option-cases (strip_codes (codes "pull") text)) [
    | inl n ↦ absurd (false-ne-true (rw n at h))
    | inr (behind, e) ↦
        let (gap, rest, f, g, b) = request_behind_sound behind (rw e at h) in
        (
          gap,
          rest,
          strip_sound (codes "pull") text behind e ∙ ap (λ xs. codes "pull" ++ xs) f,
          g,
          b,
        )
  ]),
  (λ (gap, rest, e, g, b).
      subst (λ x. pull_request_here x ≡ true) (sym e) (request_behind_complete gap rest g b)),
)
  where
    false-ne-true : false ≡ true → ⊥
    false-ne-true h = cc

-- A search succeeds where its test holds at some place outside of a word.
module _ (here : List ℕ → Bool) where
  pub search_sound :
      (inside : Bool) (text : List ℕ)
      → search_words here inside text ≡ true
      → (pre : List ℕ) × (rest : List ℕ) × (text ≡ pre ++ rest)
        × Ends inside pre
        × (here rest ≡ true)
  unfolding search_words
  search_sound inside [] h = cc
  search_sound inside (c ∷ cs) h =
      elim (or-true (not inside && here (c ∷ cs)) (search_words here (is_word_char c) cs) h) [
        | inl y ↦
            let (out, t) = and-eq-true (not inside) (here (c ∷ cs)) y in
            ([], c ∷ cs, refl, not-true inside out, t)
        | inr y ↦
            let (pre, rest, e, o, t) = search_sound (is_word_char c) cs y in
            (c ∷ pre, rest, ap (λ xs. c ∷ xs) e, o, t)
      ]

  pub search_complete :
      (inside : Bool) (pre rest : List ℕ)
      → here [] ≡ false
      → Ends inside pre
      → here rest ≡ true
      → search_words here inside (pre ++ rest) ≡ true
  unfolding search_words
  search_complete inside [] [] n o t = sym n ∙ t
  search_complete inside [] (c ∷ cs) n o t = rw (o, t) refl
  search_complete inside (c ∷ pre) rest n o t =
      true-or (not inside && here (c ∷ (pre ++ rest)))
        (search_words here (is_word_char c) (pre ++ rest))
        (search_complete (is_word_char c) pre rest n o t)
