-- ===== src/Executors/Digest.antt =====
-- src/executor-adapters.js: `simpleDigest`, and the commit that a list of references pins.
use Prim.Native.Nat.{◌*◌, ◌/◌, ◌%◌, ◌^◌, bit_xor}
use Prim.Native.Char.{code}
use Prim.Native.String.{String, [], ◌∷◌, ◌++◌}
use cairnstone_v.Prelude.{
  ℕ, zero, suc, ◌+◌, Bool, false, ◌||◌, Option, none, some, if◌then◌else◌, leb, nat_eqb,
}
use mathlib.Core.List.{List}
use cairnstone_v.Prelude.Text.{units, in_range, is_alnum}

-- One round: `h ^= c; h = Math.imul(h, 16777619)`, on 32 bits.
unfoldable pub fnv_round : ℕ → ℕ → ℕ
fnv_round h c = (bit_xor h c * 16777619) % 2 ^ 32

unfoldable pub fnv : ℕ → List ℕ → ℕ
fnv h List.[] = h
fnv h (List.◌∷◌ c cs) = fnv (fnv_round h c) cs

abbrev hex_digit : ℕ → String
hex_digit d =
    if leb d 0
    then "0"
    else if leb d 1
    then "1"
    else if leb d 2
    then "2"
    else if leb d 3
    then "3"
    else if leb d 4
    then "4"
    else if leb d 5
    then "5"
    else if leb d 6
    then "6"
    else if leb d 7
    then "7"
    else if leb d 8
    then "8"
    else if leb d 9
    then "9"
    else if leb d 10
    then "a"
    else if leb d 11
    then "b"
    else if leb d 12
    then "c"
    else if leb d 13
    then "d"
    else if leb d 14
    then "e"
    else "f"

-- `h.toString(16).padStart(n, "0")`, for `h` below 16 ^ n.
unfoldable pub hex_text : ℕ → ℕ → String
hex_text zero h = []
hex_text (suc n) h = hex_text n (h / 16) ++ hex_digit (h % 16)

unfoldable pub simple_digest : String → String
unfolding fnv fnv_round hex_text
simple_digest text = "fnv1a32:" ++ hex_text 8 (fnv 2166136261 (units text))

abbrev is_hex : ℕ → Bool
is_hex c = in_range b'0' b'9' c || in_range b'a' b'f' c || in_range b'A' b'F' c

abbrev is_word : ℕ → Bool
is_word c = is_alnum c || nat_eqb c b'_'

-- The hexadecimal digits at the head of a text, where no further word character follows.
unfoldable pub hex_run : String → Option String
hex_run [] = some []
hex_run (c ∷ s) =
    let rest = hex_run s in
    if is_hex (code c)
    then elim rest [ none ↦ none | some r ↦ some (c ∷ r) ]
    else if is_word (code c)
    then none
    else some []

abbrev run_length : String → ℕ
run_length [] = 0
run_length (c ∷ s) = suc (run_length s)

abbrev fitting : Option String → Option String
fitting none = none
fitting (some r) = if in_range 7 40 (run_length r) then some r else none

abbrev or_else : Option String → Option String → Option String
or_else none o = o
or_else (some s) o = some s

-- `/@([0-9a-f]{7,40})\b/i`
unfoldable pub sha_after_at : String → Option String
sha_after_at [] = none
sha_after_at (c ∷ s) =
    let rest = sha_after_at s in
    if nat_eqb (code c) b'@' then or_else (fitting (hex_run s)) rest else rest

-- `repo_sha:` in any case, at the head of a text.
abbrev lower : ℕ → ℕ
lower c = if in_range b'A' b'Z' c then c + 32 else c

abbrev strip_any_case : String → String → Option String
strip_any_case [] s = some s
strip_any_case (p ∷ ps) [] = none
strip_any_case (p ∷ ps) (c ∷ s) =
    if nat_eqb (code p) (lower (code c)) then strip_any_case ps s else none

abbrev sha_at_label : String → Option String
sha_at_label s = elim (strip_any_case "repo_sha:" s) [ none ↦ none | some r ↦ fitting (hex_run r) ]

-- `/\brepo_sha:([0-9a-f]{7,40})\b/i`; `inside` says whether a word character stands before.
unfoldable pub sha_after_label : Bool → String → Option String
sha_after_label inside [] = none
sha_after_label inside (c ∷ s) =
    let rest = sha_after_label (is_word (code c)) s in
    if inside then rest else or_else (sha_at_label (c ∷ s)) rest

unfoldable pub extract_repo_sha : List String → Option String
extract_repo_sha List.[] = none
extract_repo_sha (List.◌∷◌ r rs) =
    let rest = extract_repo_sha rs in
    or_else (or_else (sha_after_at r) (sha_after_label false r)) rest
