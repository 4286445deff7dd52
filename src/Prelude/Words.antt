-- ===== src/Prelude/Words.antt =====
-- Texts as sequences of words, without repetition, and without slashes behind.
use Prim.Native.Char.{Char, code}
use Prim.Native.String.{String, [], ◌∷◌, ◌++◌}
use mathlib.Core.Bool.{Bool, not}
use mathlib.Core.List.{List}
use cairnstone_v.Prelude.Tests.{nat_eqb, if◌then◌else◌, ◌==◌, string_eq}
use cairnstone_v.Prelude.Lists.{keep, contains}
use cairnstone_v.Prelude.Text.{is_space}

abbrev push_head : Char → List String → List String
push_head c List.[] = List.◌∷◌ (c ∷ []) List.[]
push_head c (List.◌∷◌ s ss) = List.◌∷◌ (c ∷ s) ss

-- `s.split(/\s+/)`, with an empty piece for each further white space.
unfoldable pub pieces : String → List String
pieces [] = List.◌∷◌ [] List.[]
pieces (c ∷ s) =
    let rest = pieces s in if is_space (code c) then List.◌∷◌ [] rest else push_head c rest

abbrev pub not_empty : String → Bool
not_empty s = not (s == "")

-- The words of a text: `split(/\s+/)` and `filter(Boolean)`.
unfoldable pub words : String → List String
unfolding pieces
words s = keep not_empty (pieces s)

-- `[...new Set(xs)]`, for what is not among `seen`.
unfoldable pub distinct_after : List String → List String → List String
distinct_after seen List.[] = List.[]
distinct_after seen (List.◌∷◌ x xs) =
    let rest = distinct_after (List.◌∷◌ x seen) xs in
    if contains x seen then rest else List.◌∷◌ x rest

abbrev push_unless_slash : Char → String → String
push_unless_slash c [] = if nat_eqb (code c) b'/' then [] else c ∷ []
push_unless_slash c (d ∷ s) = c ∷ (d ∷ s)

-- `s.replace(/\/+$/, "")`
unfoldable pub drop_slashes : String → String
drop_slashes [] = []
drop_slashes (c ∷ s) = push_unless_slash c (drop_slashes s)

-- `xs.join(separator)`
unfoldable pub join_texts : String → List String → String
join_texts separator List.[] = []
join_texts separator (List.◌∷◌ x List.[]) = x
join_texts separator (List.◌∷◌ x (List.◌∷◌ y ys)) =
    x ++ (separator ++ join_texts separator (List.◌∷◌ y ys))
