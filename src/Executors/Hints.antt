-- ===== src/Executors/Hints.antt =====
-- src/executor-profile.js, `inferRequiredCapabilities`: the words that it looks for in the hints.
-- A text is its code points in lower case.
use cairnstone_v.Prelude.{
  ℕ, Bool, true, false, not, ◌&&◌, ◌||◌, Option, none, some, List, [], ◌∷◌, if◌then◌else◌, ltb,
  nat_eqb, String, ◌++◌,
}
use cairnstone_v.Prelude.Text.{codes, is_alnum, in_range, lowered}

-- `\w`
abbrev pub is_word_char : ℕ → Bool
is_word_char c = is_alnum c || nat_eqb c b'_'

-- What is left behind a word that stands at the head of a text.
abbrev pub strip_codes : List ℕ → List ℕ → Option (List ℕ)
strip_codes [] text = some text
strip_codes (w ∷ ws) [] = none
strip_codes (w ∷ ws) (c ∷ cs) = if nat_eqb w c then strip_codes ws cs else none

-- `\b` behind a word.
abbrev pub at_end : List ℕ → Bool
at_end [] = true
at_end (c ∷ cs) = not (is_word_char c)

-- `word\b` at the head of a text.
abbrev pub word_here : String → List ℕ → Bool
word_here word text = elim (strip_codes (codes word) text) [
  | none ↦ false
  | some rest ↦ at_end rest
]

abbrev pub any_word : List String → List ℕ → Bool
any_word [] text = false
any_word (w ∷ ws) text = word_here w text || any_word ws text

-- `.`: one UTF-16 unit that ends no line.
abbrev pub is_dot : ℕ → Bool
is_dot c = ltb c 0x10000 && not (nat_eqb c 10 || nat_eqb c 13 || in_range 0x2028 0x2029 c)

abbrev pub request_behind : List ℕ → Bool
request_behind [] = false
request_behind (c ∷ cs) = word_here "request" (c ∷ cs) || (is_dot c && word_here "request" cs)

-- `pull.?request\b`
abbrev pub pull_request_here : List ℕ → Bool
pull_request_here text = elim (strip_codes (codes "pull") text) [
  | none ↦ false
  | some rest ↦ request_behind rest
]

-- `/\b(...)\b/.test(text)`, for alternatives that begin with a letter; `inside` says whether a word
-- character stands before.
unfoldable pub search_words : (List ℕ → Bool) → Bool → List ℕ → Bool
search_words here inside [] = false
search_words here inside (c ∷ cs) =
    (not inside && here (c ∷ cs)) || search_words here (is_word_char c) cs

-- `hints.map(toLowerCase).join(" ")`
unfoldable pub hint_text : List String → List ℕ
hint_text [] = []
hint_text (h ∷ []) = lowered h
hint_text (h ∷ i ∷ hs) = lowered h ++ b' ' ∷ hint_text (i ∷ hs)

abbrev pub edit_words : List String
edit_words = "pr" ∷ "diff" ∷ "edit" ∷ "patch" ∷ "implement" ∷ "fix" ∷ "coding" ∷ []

abbrev pub asks_edit : List ℕ → Bool
asks_edit = search_words (λ t. pull_request_here t || any_word edit_words t) false

abbrev pub asks_pr : List ℕ → Bool
asks_pr = search_words (λ t. pull_request_here t || word_here "pr" t) false

abbrev pub asks_words : List String → List ℕ → Bool
asks_words words = search_words (any_word words) false
