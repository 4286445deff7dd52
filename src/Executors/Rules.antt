-- ===== src/Executors/Rules.antt =====
-- src/executor-profile.js, `inferRequiredCapabilities`: which words and which references ask for which
-- capabilities, as tables, and that the code follows them.
use cairnstone_v.Prelude.{
  ℕ, String, ◌≡◌, refl, sym, ap, subst, ◌↔◌, ◌⊎◌, inl, inr, Bool, true, List, [], ◌∷◌, In,
  string_eq,
}
use cairnstone_v.Executors.Hints.{any_word, word_here, edit_words, asks_edit, asks_pr, asks_words}
use cairnstone_v.Executors.Capabilities.{hint_caps}
use cairnstone_v.Executors.Occurrence.{OccursPull, any_word_iff}
use cairnstone_v.Executors.Searches.{
  OccursOne, words-search, pull_sound, pull-found, word-found, pr-finds,
}

-- The capabilities, each with the words that ask for it.
abbrev word_rules : List (String × List String)
word_rules =
    ("repo.edit", "pr" ∷ "diff" ∷ "edit" ∷ "patch" ∷ "implement" ∷ "fix" ∷ "coding" ∷ [])
    ∷ ("repo.diff", "pr" ∷ "diff" ∷ "edit" ∷ "patch" ∷ "implement" ∷ "fix" ∷ "coding" ∷ [])
    ∷ ("repo.pr", "pr" ∷ [])
    ∷ ("repo.test", "test" ∷ "tests" ∷ [])
    ∷ ("github.api", "github" ∷ "copilot" ∷ [])
    ∷ ("d1.inspect", "d1" ∷ "sql" ∷ "database" ∷ [])
    ∷ ("cloudflare.inspect", "cloudflare" ∷ "worker" ∷ "wrangler" ∷ [])
    ∷ ("reasoning.general", "reason" ∷ "judge" ∷ "architect" ∷ "compare" ∷ "synthesize" ∷ [])
    ∷ []

-- Those that a pull request asks for.
abbrev pull_rules : List String
pull_rules = "repo.edit" ∷ "repo.diff" ∷ "repo.pr" ∷ []

-- A text asks for a capability.
abbrev pub Asks : List ℕ → String → Type 0
Asks text c =
    ((words : List String) × In (c, words) word_rules × OccursOne words text)
    ⊎ (In c pull_rules × OccursPull text)

-- The tests of `hint_caps`, and the rules that they follow.
module _ (text : List ℕ) (c : String) where
  of_word :
      (b : Bool) (cap : String) (words : List String)
      → In (cap, words) word_rules
      → (b ≡ true → OccursOne words text)
      → Path (Bool × String) (b, cap) (true, c)
      → Asks text c
  of_word b cap words i f e = inl (
    words,
    subst (λ x. In (x, words) word_rules) (ap (λ (p : Bool × String). p.1) e) i,
    f (ap (λ (p : Bool × String). p.0) e),
  )

  of_pull :
      (b : Bool) (cap : String) (words : List String)
      → In (cap, words) word_rules
      → In cap pull_rules
      → (b ≡ true → OccursPull text ⊎ OccursOne words text)
      → Path (Bool × String) (b, cap) (true, c)
      → Asks text c
  of_pull b cap words i j f e = elim (f (ap (λ (p : Bool × String). p.0) e)) [
    | inl o ↦ inr (subst (λ x. In x pull_rules) (ap (λ (p : Bool × String). p.1) e) j, o)
    | inr o ↦ of_word b cap words i (λ y. o) e
  ]

  to_test : (b : Bool) (cap : String) → b ≡ true → cap ≡ c → Path (Bool × String) (b, cap) (true, c)
  to_test b cap y e = λ t. (y t, e t)

  by_word :
      (b : Bool) (cap : String) (own words : List String)
      → (OccursOne own text → b ≡ true)
      → Path (String × List String) (cap, own) (c, words)
      → OccursOne words text
      → Path (Bool × String) (b, cap) (true, c)
  by_word b cap own words f e o =
      to_test b cap
        (f (subst (λ x. OccursOne x text) (sym (ap (λ (p : String × List String). p.1) e)) o))
        (ap (λ (p : String × List String). p.0) e)

  edit_sound : asks_edit text ≡ true → OccursPull text ⊎ OccursOne edit_words text
  edit_sound = pull_sound (any_word edit_words) edit_words (any_word_iff edit_words) refl text

  pr_sound : asks_pr text ≡ true → OccursPull text ⊎ OccursOne ("pr" ∷ []) text
  pr_sound = pull_sound (word_here "pr") ("pr" ∷ []) pr-finds refl text

  edit-word : OccursOne edit_words text → asks_edit text ≡ true
  edit-word = word-found (any_word edit_words) edit_words (any_word_iff edit_words) refl text

  edit-pull : OccursPull text → asks_edit text ≡ true
  edit-pull = pull-found (any_word edit_words) edit_words (any_word_iff edit_words) refl text

  pr-word : OccursOne ("pr" ∷ []) text → asks_pr text ≡ true
  pr-word = word-found (word_here "pr") ("pr" ∷ []) pr-finds refl text

  pr-pull : OccursPull text → asks_pr text ≡ true
  pr-pull = pull-found (word_here "pr") ("pr" ∷ []) pr-finds refl text

  hint_caps_sound : In (true, c) (hint_caps text) → Asks text c
  unfolding hint_caps
  hint_caps_sound (inl e) =
      of_pull (asks_edit text) "repo.edit" edit_words (inl refl) (inl refl) edit_sound e
  hint_caps_sound (inr (inl e)) =
      of_pull (asks_edit text) "repo.diff" edit_words (inr (inl refl)) (inr (inl refl)) edit_sound e
  hint_caps_sound (inr (inr (inl e))) =
      of_pull (asks_pr text) "repo.pr" ("pr" ∷ []) (inr (inr (inl refl))) (inr (inr (inl refl)))
        pr_sound e
  hint_caps_sound (inr (inr (inr (inl e)))) =
      of_word (asks_words ("test" ∷ "tests" ∷ []) text) "repo.test" ("test" ∷ "tests" ∷ [])
        (inr (inr (inr (inl refl)))) (words-search ("test" ∷ "tests" ∷ []) text refl).0 e
  hint_caps_sound (inr (inr (inr (inr (inl e))))) =
      of_word (asks_words ("github" ∷ "copilot" ∷ []) text) "github.api" ("github" ∷ "copilot" ∷ [])
        (inr (inr (inr (inr (inl refl))))) (words-search ("github" ∷ "copilot" ∷ []) text refl).0 e
  hint_caps_sound (inr (inr (inr (inr (inr (inl e)))))) =
      of_word (asks_words ("d1" ∷ "sql" ∷ "database" ∷ []) text) "d1.inspect"
        ("d1" ∷ "sql" ∷ "database" ∷ []) (inr (inr (inr (inr (inr (inl refl))))))
        (words-search ("d1" ∷ "sql" ∷ "database" ∷ []) text refl).0 e
  hint_caps_sound (inr (inr (inr (inr (inr (inr (inl e))))))) =
      of_word (asks_words ("cloudflare" ∷ "worker" ∷ "wrangler" ∷ []) text) "cloudflare.inspect"
        ("cloudflare" ∷ "worker" ∷ "wrangler" ∷ []) (inr (inr (inr (inr (inr (inr (inl refl)))))))
        (words-search ("cloudflare" ∷ "worker" ∷ "wrangler" ∷ []) text refl).0 e
  hint_caps_sound (inr (inr (inr (inr (inr (inr (inr (inl e)))))))) =
      of_word (asks_words ("reason" ∷ "judge" ∷ "architect" ∷ "compare" ∷ "synthesize" ∷ []) text)
        "reasoning.general" ("reason" ∷ "judge" ∷ "architect" ∷ "compare" ∷ "synthesize" ∷ [])
        (inr (inr (inr (inr (inr (inr (inr (inl refl))))))))
        (words-search ("reason" ∷ "judge" ∷ "architect" ∷ "compare" ∷ "synthesize" ∷ []) text
          refl).0
        e
  hint_caps_sound (inr (inr (inr (inr (inr (inr (inr (inr n)))))))) = absurd n

  word-complete :
      (words : List String)
      → In (c, words) word_rules
      → OccursOne words text
      → In (true, c) (hint_caps text)
  unfolding hint_caps
  word-complete words (inl e) o =
      inl (by_word (asks_edit text) "repo.edit" edit_words words edit-word e o)
  word-complete words (inr (inl e)) o =
      inr (inl (by_word (asks_edit text) "repo.diff" edit_words words edit-word e o))
  word-complete words (inr (inr (inl e))) o =
      inr (inr (inl (by_word (asks_pr text) "repo.pr" ("pr" ∷ []) words pr-word e o)))
  word-complete words (inr (inr (inr (inl e)))) o = inr (
      inr (
        inr (
          inl (
            by_word (asks_words ("test" ∷ "tests" ∷ []) text) "repo.test" ("test" ∷ "tests" ∷ [])
              words (words-search ("test" ∷ "tests" ∷ []) text refl).1 e o))))
  word-complete words (inr (inr (inr (inr (inl e))))) o = inr (
      inr (
        inr (
          inr (
            inl (
              by_word (asks_words ("github" ∷ "copilot" ∷ []) text) "github.api"
                ("github" ∷ "copilot" ∷ []) words
                (words-search ("github" ∷ "copilot" ∷ []) text refl).1 e o)))))
  word-complete words (inr (inr (inr (inr (inr (inl e)))))) o = inr (
      inr (
        inr (
          inr (
            inr (
              inl (
                by_word (asks_words ("d1" ∷ "sql" ∷ "database" ∷ []) text) "d1.inspect"
                  ("d1" ∷ "sql" ∷ "database" ∷ []) words
                  (words-search ("d1" ∷ "sql" ∷ "database" ∷ []) text refl).1 e o))))))
  word-complete words (inr (inr (inr (inr (inr (inr (inl e))))))) o = inr (
      inr (
        inr (
          inr (
            inr (
              inr (
                inl (
                  by_word (asks_words ("cloudflare" ∷ "worker" ∷ "wrangler" ∷ []) text)
                    "cloudflare.inspect" ("cloudflare" ∷ "worker" ∷ "wrangler" ∷ []) words
                    (words-search ("cloudflare" ∷ "worker" ∷ "wrangler" ∷ []) text refl).1 e
                    o)))))))
  word-complete words (inr (inr (inr (inr (inr (inr (inr (inl e)))))))) o = inr (
      inr (
        inr (
          inr (
            inr (
              inr (
                inr (
                  inl (
                    by_word
                      (asks_words ("reason" ∷ "judge" ∷ "architect" ∷ "compare" ∷ "synthesize" ∷ [])
                        text)
                      "reasoning.general"
                      ("reason" ∷ "judge" ∷ "architect" ∷ "compare" ∷ "synthesize" ∷ []) words
                      (words-search
                        ("reason" ∷ "judge" ∷ "architect" ∷ "compare" ∷ "synthesize" ∷ []) text
                        refl).1
                      e o))))))))
  word-complete words (inr (inr (inr (inr (inr (inr (inr (inr n)))))))) o = absurd n

  pull-complete : In c pull_rules → OccursPull text → In (true, c) (hint_caps text)
  unfolding hint_caps
  pull-complete (inl e) o = inl (to_test (asks_edit text) "repo.edit" (edit-pull o) e)
  pull-complete (inr (inl e)) o = inr (inl (to_test (asks_edit text) "repo.diff" (edit-pull o) e))
  pull-complete (inr (inr (inl e))) o =
      inr (inr (inl (to_test (asks_pr text) "repo.pr" (pr-pull o) e)))
  pull-complete (inr (inr (inr n))) o = absurd n

  pub hint_caps_iff : In (true, c) (hint_caps text) ↔ Asks text c
  hint_caps_iff = (
    hint_caps_sound,
    (λ a. elim a [ inl (words, i, o) ↦ word-complete words i o | inr (i, o) ↦ pull-complete i o ]),
  )
