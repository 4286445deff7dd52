-- ===== src/Prelude/Names.antt =====
-- The shape of the ids that several components share: `kind:name`, in any case of letters.
use Prim.Native.Nat.{ℕ, ◌+◌}
use Prim.Native.String.{String}
use mathlib.Core.Bool.{Bool, true, false, ◌&&◌, ◌||◌}
use mathlib.Core.Option.{Option, none, some}
use mathlib.Core.List.{List, [], ◌∷◌}
use cairnstone_v.Prelude.Tests.{leb, nat_eqb, if◌then◌else◌}
use cairnstone_v.Prelude.Lists.{length, all}
use cairnstone_v.Prelude.Text.{codes, in_range, is_alnum, js_length, trim}
use cairnstone_v.Prelude.Value.{Value, as_string}

-- `[a-z0-9._-]`, in any case
abbrev pub is_name_char : ℕ → Bool
is_name_char c = is_alnum c || nat_eqb c b'.' || nat_eqb c b'_' || nat_eqb c b'-'

-- `[a-z0-9][a-z0-9._-]{0,hi}`
abbrev pub is_name : ℕ → List ℕ → Bool
is_name hi [] = false
is_name hi (c ∷ cs) = is_alnum c && all is_name_char cs && leb (length cs) hi

abbrev and_first : ℕ → Option (List ℕ × List ℕ) → Option (List ℕ × List ℕ)
and_first c none = none
and_first c (some (a, b)) = some (c ∷ a, b)

-- What stands before the first colon and behind it.
abbrev pub split_colon : List ℕ → Option (List ℕ × List ℕ)
split_colon [] = none
split_colon (c ∷ cs) =
    let rest = split_colon cs in if nat_eqb c b':' then some ([], cs) else and_first c rest

-- A letter of A to Z in lower case.
abbrev pub to_lower : ℕ → ℕ
to_lower c = if in_range b'A' b'Z' c then c + 32 else c

abbrev pub same_letters : List ℕ → List ℕ → Bool
same_letters [] [] = true
same_letters [] (y ∷ ys) = false
same_letters (x ∷ xs) [] = false
same_letters (x ∷ xs) (y ∷ ys) = nat_eqb (to_lower x) y && same_letters xs ys

-- `ACTOR_ID_RE`
unfoldable pub actor_pattern : String → Bool
actor_pattern s = elim (split_colon (codes s)) [
  | none ↦ false
  | some (a, b) ↦ is_name 63 a && is_name 127 b
]

-- `/^kind:[a-z0-9][a-z0-9._-]{0,127}$/i`, for a kind in lower case
unfoldable pub kind_pattern : String → String → Bool
kind_pattern kind s = elim (split_colon (codes s)) [
  | none ↦ false
  | some (a, b) ↦ same_letters a (codes kind) && is_name 127 b
]

-- The trimmed text of a value that `isNonEmptyString` accepts.
abbrev pub nonempty_text : Value → Option String
nonempty_text v = elim (as_string v) [
  | none ↦ none
  | some s ↦ if nat_eqb (js_length (trim s)) 0 then none else some (trim s)
]

-- `isNonEmptyString(v)` and a pattern on the trimmed text.
abbrev pub named : (String → Bool) → Value → Option String
named pattern v = elim (nonempty_text v) [
  | none ↦ none
  | some s ↦ if pattern s then some s else none
]
