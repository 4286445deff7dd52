-- ===== src/Executors/Searches.antt =====
-- src/executor-profile.js, `inferRequiredCapabilities`: its searches find a word that occurs in a text, or
-- a pull request.
use cairnstone_v.Prelude.{
  ℕ, String, ◌≡◌, refl, sym, subst, ◌↔◌, ◌⊎◌, inl, inr, Bool, true, false, ◌||◌, List, [], ◌∷◌, In,
  string_eq,
}
use cairnstone_v.Prelude.Text.{codes}
use cairnstone_v.Executors.Hints.{any_word, word_here, pull_request_here, asks_words, search_words}
use cairnstone_v.Executors.Occurrence.{
  Occurs, OccursPull, Begins, BeginsOne, or-true, true-or, word_here_iff, any_word_iff,
  pull_request_here_iff, search_sound, search_complete,
}

-- One of the words occurs in a text.
abbrev pub OccursOne : List String → List ℕ → Type 0
OccursOne words text = (w : String) × In w words × Occurs w text

pub words-search :
    (words : List String) (text : List ℕ)
    → any_word words [] ≡ false
    → (asks_words words text ≡ true) ↔ OccursOne words text
words-search words text n = (
  (λ h.
      let (pre, rest, e, o, t) = search_sound (any_word words) false text h in
      let (w, i, b) = (any_word_iff words rest).0 t in (w, i, (pre, rest, e, o, b))),
  (λ (w, i, (pre, rest, e, o, b)).
      subst (λ x. asks_words words x ≡ true) (sym e)
        (search_complete (any_word words) false pre rest n o
          ((any_word_iff words rest).1 (w, i, b)))),
)

-- A search that looks for a pull request too.
module _ (other : List ℕ → Bool) (words : List String)
    (finds : (t : List ℕ) → (other t ≡ true) ↔ BeginsOne words t) (n : other [] ≡ false)
    (text : List ℕ) where
  pub pull_sound :
      search_words (λ t. pull_request_here t || other t) false text ≡ true
      → OccursPull text ⊎ OccursOne words text
  pull_sound h =
      let (pre, rest, e, o, t) = search_sound (λ x. pull_request_here x || other x) false text h in
      elim (or-true (pull_request_here rest) (other rest) t) [
        | inl y ↦ inl (pre, rest, e, o, (pull_request_here_iff rest).0 y)
        | inr y ↦ let (w, i, b) = (finds rest).0 y in inr (w, i, (pre, rest, e, o, b))
      ]

  pub pull-found :
      OccursPull text → search_words (λ t. pull_request_here t || other t) false text ≡ true
  pull-found (pre, rest, e, o, b) =
      subst (λ x. search_words (λ t. pull_request_here t || other t) false x ≡ true) (sym e)
        (search_complete (λ t. pull_request_here t || other t) false pre rest n o
          (rw ((pull_request_here_iff rest).1 b) refl))

  pub word-found :
      OccursOne words text → search_words (λ t. pull_request_here t || other t) false text ≡ true
  word-found (w, i, (pre, rest, e, o, b)) =
      subst (λ x. search_words (λ t. pull_request_here t || other t) false x ≡ true) (sym e)
        (search_complete (λ t. pull_request_here t || other t) false pre rest n o
          (true-or (pull_request_here rest) (other rest) ((finds rest).1 (w, i, b))))

pub pr-finds : (t : List ℕ) → (word_here "pr" t ≡ true) ↔ BeginsOne ("pr" ∷ []) t
pr-finds t = (
  (λ h. ("pr", inl refl, (word_here_iff "pr" t).0 h)),
  (λ (w, i, b). elim i [
    | inl e ↦ (word_here_iff "pr" t).1 (subst (λ x. Begins (codes x) t) (sym e) b)
    | inr j ↦ absurd j
  ]),
)
