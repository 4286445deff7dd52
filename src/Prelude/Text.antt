-- ===== src/Prelude/Text.antt =====
-- JavaScript texts: a `String` is a sequence of code points (a lone surrogate is not represented),
-- and its `length` and order are those of its UTF-16 code units.
use Prim.Native.Nat.{ℕ, ◌+◌, ◌-◌, ◌/◌, ◌%◌}
use Prim.Native.Char.{Char, code}
use Prim.Native.String.{String, [], ◌∷◌}
use mathlib.Core.Bool.{Bool, true, false, ◌&&◌, ◌||◌}
use mathlib.Core.Option.{Option, none, some}
use mathlib.Core.List.{List}
use cairnstone_v.Prelude.Tests.{ltb, leb, nat_eqb, if◌then◌else◌}
use cairnstone_v.Prelude.Lists.{length, all}

abbrev pub codes : String → List ℕ
codes [] = List.[]
codes (c ∷ s) = List.◌∷◌ (code c) (codes s)

-- The UTF-16 code units of one code point, put before `rest`.
abbrev unit_pair : ℕ → List ℕ → List ℕ
unit_pair c rest =
    if ltb c 0x10000
    then List.◌∷◌ c rest
    else List.◌∷◌ (0xd800 + (c - 0x10000) / 1024) (List.◌∷◌ (0xdc00 + (c - 0x10000) % 1024) rest)

abbrev pub units : String → List ℕ
units [] = List.[]
units (c ∷ s) = unit_pair (code c) (units s)

-- The order of texts, in `sort` and `<=`: by UTF-16 code units.
abbrev pub units_le : List ℕ → List ℕ → Bool
units_le List.[] ys = true
units_le (List.◌∷◌ x xs) List.[] = false
units_le (List.◌∷◌ x xs) (List.◌∷◌ y ys) = if ltb x y then true else nat_eqb x y && units_le xs ys

-- `a <= b`
abbrev pub text_le : String → String → Bool
text_le a b = units_le (units a) (units b)

-- `s.length`
abbrev pub js_length : String → ℕ
js_length s = length (units s)

abbrev pub in_range : ℕ → ℕ → ℕ → Bool
in_range lo hi c = leb lo c && leb c hi

-- White space and line ends, as `trim` removes them.
abbrev pub is_space : ℕ → Bool
is_space c =
    in_range 9 13 c
    || nat_eqb c 32
    || nat_eqb c 0xa0
    || nat_eqb c 0x1680
    || in_range 0x2000 0x200a c
    || in_range 0x2028 0x2029 c
    || nat_eqb c 0x202f
    || nat_eqb c 0x205f
    || nat_eqb c 0x3000
    || nat_eqb c 0xfeff

unfoldable pub trim_start : String → String
trim_start [] = []
trim_start (c ∷ s) = let rest = trim_start s in if is_space (code c) then rest else c ∷ s

abbrev pub push_unless_space : Char → String → String
push_unless_space c [] = if is_space (code c) then [] else c ∷ []
push_unless_space c (d ∷ s) = c ∷ (d ∷ s)

unfoldable pub trim_end : String → String
trim_end [] = []
trim_end (c ∷ s) = push_unless_space c (trim_end s)

-- `s.trim()`
unfoldable pub trim : String → String
unfolding trim_start trim_end
trim s = trim_end (trim_start s)

-- `toLowerCase`, as far as a comparison with an ASCII text can tell: A to Z, and the Kelvin sign.
abbrev pub lower_unit : ℕ → ℕ
lower_unit c = if in_range b'A' b'Z' c then c + 32 else if nat_eqb c 0x212a then b'k' else c

abbrev pub same_codes : List ℕ → List ℕ → Bool
same_codes List.[] List.[] = true
same_codes List.[] (List.◌∷◌ y ys) = false
same_codes (List.◌∷◌ x xs) List.[] = false
same_codes (List.◌∷◌ x xs) (List.◌∷◌ y ys) = nat_eqb x y && same_codes xs ys

abbrev pub lower_codes : List ℕ → List ℕ
lower_codes List.[] = List.[]
lower_codes (List.◌∷◌ c cs) = List.◌∷◌ (lower_unit c) (lower_codes cs)

-- `s.toLowerCase() === name`, for a name in ASCII
abbrev pub lower_is : String → String → Bool
lower_is s name = same_codes (lower_codes (codes s)) (codes name)

-- What is left of `s` behind a prefix.
unfoldable pub strip_prefix : String → String → Option String
strip_prefix [] s = some s
strip_prefix (p ∷ ps) [] = none
strip_prefix (p ∷ ps) (c ∷ s) = if nat_eqb (code p) (code c) then strip_prefix ps s else none

-- The classes `[A-Za-z0-9]`, `[a-z0-9]`.
abbrev pub is_lower_digit : ℕ → Bool
is_lower_digit c = in_range b'a' b'z' c || in_range b'0' b'9' c

abbrev pub is_alnum : ℕ → Bool
is_alnum c = is_lower_digit c || in_range b'A' b'Z' c

-- A text of `lo` to `hi` characters of one class, behind a fixed prefix: `/^prefix[class]{lo,hi}$/`.
unfoldable pub matches_class : String → (ℕ → Bool) → ℕ → ℕ → String → Bool
unfolding strip_prefix
matches_class prefix class lo hi s = elim (strip_prefix prefix s) [
  | none ↦ false
  | some rest ↦ all class (codes rest) && in_range lo hi (length (codes rest))
]

-- The number of UTF-16 code units of a character.
abbrev pub unit_width : Char → ℕ
unit_width c = if ltb (code c) 0x10000 then 1 else 2

-- `s.slice(0, n)`; of a surrogate pair that the cut would halve nothing is kept, where JavaScript
-- keeps a lone half.
unfoldable pub slice_units : ℕ → String → String
slice_units n [] = []
slice_units n (c ∷ s) =
    let rest = slice_units (n - unit_width c) s in if leb (unit_width c) n then c ∷ rest else []

-- `toLowerCase`, for a search of ASCII letters and digits: two further characters have such letters in
-- lower case, the Kelvin sign and the I with a dot.
abbrev lower_code : ℕ → List ℕ → List ℕ
lower_code c rest =
    if nat_eqb c 0x130 then List.◌∷◌ b'i' (List.◌∷◌ 0x307 rest) else List.◌∷◌ (lower_unit c) rest

unfoldable pub lowered : String → List ℕ
lowered [] = List.[]
lowered (c ∷ s) = lower_code (code c) (lowered s)
