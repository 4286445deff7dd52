-- ===== src/Executors/Capabilities.antt =====
-- src/executor-profile.js: the capabilities that a request asks for and those that are inferred from
-- its references and hints. The elements of the references and hints that reach the inference are
-- texts, as `String` gives them.
use cairnstone_v.Prelude.{
  ℕ, String, Bool, true, false, ◌&&◌, ◌||◌, Option, none, some, List, [], ◌∷◌, if◌then◌else◌, leb,
  nat_eqb, string_eq, length, contains, push, all,
}
use cairnstone_v.Prelude.Text.{codes, in_range, js_length, trim, slice_units, strip_prefix, text_le}
use cairnstone_v.Prelude.Names.{is_name_char, nonempty_text}
use cairnstone_v.Prelude.Value.{Value, truthy}
use cairnstone_v.Prelude.Words.{distinct_after}
use cairnstone_v.Prelude.Result.{Result, ok, fail, ◌>>=◌}
use cairnstone_v.Executors.Hints.{hint_text, asks_edit, asks_pr, asks_words}

abbrev pub max_caps : ℕ
max_caps = 64

abbrev pub max_refs : ℕ
max_refs = 100

abbrev pub max_ref_len : ℕ
max_ref_len = 256

-- `Array.isArray(input) ? input : []`
abbrev pub list_or_empty {ℓ} : {A : Type ℓ} → Option (List A) → List A
list_or_empty none = []
list_or_empty (some xs) = xs

pub data ListError : Type 0 where
  too_large invalid_entry : ListError

abbrev is_letter : ℕ → Bool
is_letter c = in_range b'a' b'z' c || in_range b'A' b'Z' c

abbrev is_capability_codes : List ℕ → Bool
is_capability_codes [] = false
is_capability_codes (c ∷ cs) = is_letter c && all is_name_char cs && leb (length cs) 127

-- `/^[a-z][a-z0-9._-]{0,127}$/i`
unfoldable pub is_capability : String → Bool
is_capability s = is_capability_codes (codes s)

abbrev pub checked_capability : String → Result ListError String
checked_capability cap = if is_capability cap then ok cap else fail invalid_entry

abbrev pub capability_entry : Value → Result ListError String
capability_entry v = elim (nonempty_text v) [
  | none ↦ fail invalid_entry
  | some s ↦ checked_capability (slice_units 128 s)
]

-- A loop that stops at the first entry that is refused.
unfoldable pub each_entry : {A E B : Type 0} → (A → Result E B) → List A → Result E (List B)
each_entry f [] = ok []
each_entry f (v ∷ vs) = let rest = each_entry f vs in f v >>= (λ x. rest >>= (λ xs. ok (x ∷ xs)))

unfoldable pub normalize_capability_list : Option (List Value) → Result ListError (List String)
normalize_capability_list input =
    if leb (length (list_or_empty input)) max_caps
    then each_entry capability_entry (list_or_empty input) >>= (λ xs. ok (distinct_after [] xs))
    else fail too_large

-- An entry of a list of references: a value that is no object, or an object's three fields.
pub data RefItem : Type 0 where
  plain : Value → RefItem
  ref_object : (object_ref ref attachment_ref : Value) → RefItem

abbrev or_value : Value → Value → Value
or_value a b = if truthy a then a else b

-- `typeof item === "string" ? item : (item.object_ref || item.ref || item.attachment_ref)`
abbrev pub ref_text : RefItem → Option String
ref_text (plain v) = nonempty_text v
ref_text (ref_object a b c) = nonempty_text (or_value (or_value a b) c)

-- An entry without a text is skipped.
abbrev pub and_hint : Option String → List String → List String
and_hint none xs = xs
and_hint (some s) xs = slice_units max_ref_len s ∷ xs

abbrev pub hints_of : List RefItem → List String
hints_of [] = []
hints_of (v ∷ vs) = and_hint (ref_text v) (hints_of vs)

unfoldable pub normalize_ref_hints : List RefItem → Result ListError (List String)
normalize_ref_hints list =
    if leb (length list) max_refs then ok (distinct_after [] (hints_of list)) else fail too_large

-- `caps.add(c)`
abbrev pub add_cap : String → List String → List String
add_cap c caps = if contains c caps then caps else push c caps

-- Those of a list whose test holds, added in turn.
abbrev pub add_caps : List (Bool × String) → List String → List String
add_caps [] caps = caps
add_caps ((b, c) ∷ rest) caps = add_caps rest (if b then add_cap c caps else caps)

abbrev pub has_prefix : String → String → Bool
has_prefix prefix s = elim (strip_prefix prefix s) [ none ↦ false | some rest ↦ true ]

abbrev pub ref_capability : String → Option String
ref_capability ref =
    if has_prefix "repo:" ref
    then some "repo.read"
    else if has_prefix "stone:" ref || has_prefix "msg:" ref || has_prefix "cvs:" ref
    then some "stone.read"
    else if has_prefix "cs:" ref || has_prefix "ws:" ref
    then some "repo.read"
    else none

abbrev pub add_found : Option String → List String → List String
add_found none caps = caps
add_found (some c) caps = add_cap c caps

abbrev pub add_ref_caps : List String → List String → List String
add_ref_caps [] caps = caps
add_ref_caps (r ∷ rs) caps = add_ref_caps rs (add_found (ref_capability r) caps)

-- What the words of the hints ask for.
unfoldable pub hint_caps : List ℕ → List (Bool × String)
hint_caps text =
    (asks_edit text, "repo.edit")
    ∷ (asks_edit text, "repo.diff")
    ∷ (asks_pr text, "repo.pr")
    ∷ (asks_words ("test" ∷ "tests" ∷ []) text, "repo.test")
    ∷ (asks_words ("github" ∷ "copilot" ∷ []) text, "github.api")
    ∷ (asks_words ("d1" ∷ "sql" ∷ "database" ∷ []) text, "d1.inspect")
    ∷ (asks_words ("cloudflare" ∷ "worker" ∷ "wrangler" ∷ []) text, "cloudflare.inspect")
    ∷ (
      asks_words ("reason" ∷ "judge" ∷ "architect" ∷ "compare" ∷ "synthesize" ∷ []) text,
      "reasoning.general",
    )
    ∷ []

abbrev pub or_stone_read : List String → List String
or_stone_read [] = "stone.read" ∷ []
or_stone_read (c ∷ caps) = c ∷ caps

-- `filter(c => c.trim()).map(c => c.trim())`, into the set.
abbrev pub trimmed_caps : List String → List String → List String
trimmed_caps [] caps = caps
trimmed_caps (c ∷ cs) caps =
    trimmed_caps cs (if nat_eqb (js_length (trim c)) 0 then caps else add_cap (trim c) caps)

-- `sort()`: by UTF-16 units.
unfoldable pub place_text : String → List String → List String
place_text x [] = x ∷ []
place_text x (y ∷ ys) = if text_le x y then x ∷ y ∷ ys else y ∷ place_text x ys

unfoldable pub sort_texts : List String → List String
unfolding place_text
sort_texts [] = []
sort_texts (x ∷ xs) = place_text x (sort_texts xs)

unfoldable pub gather_capabilities : List String → List String → List String → List String
gather_capabilities required refs hints =
    or_stone_read
      (add_caps (hint_caps (hint_text hints)) (add_ref_caps refs (trimmed_caps required [])))

unfoldable pub infer_required_capabilities : List String → List String → List String → List String
unfolding gather_capabilities sort_texts
infer_required_capabilities required refs hints =
    sort_texts (gather_capabilities required refs hints)
