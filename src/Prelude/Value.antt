-- ===== src/Prelude/Value.antt =====
-- The JavaScript values that reach the components from outside, where they test `typeof`.
use Prim.Native.Nat.{ℕ, zero, suc}
use Prim.Native.String.{String}
use mathlib.Core.Bool.{Bool, true, false, not}
use mathlib.Core.Option.{Option, none, some}
use cairnstone_v.Prelude.Tests.{◌==◌, string_eq}

-- `neg n` is the integer -(n + 1); `other` stands for every further value, all of them truthy
-- (objects, arrays, functions, fractions); NaN is left out.
pub data Value : Type 0 where
  undefined null other : Value
  bool : Bool → Value
  nat neg : ℕ → Value
  str : String → Value

-- `typeof v === "string"`, with the text.
abbrev pub as_string : Value → Option String
as_string (str s) = some s
as_string undefined = none
as_string null = none
as_string other = none
as_string (bool b) = none
as_string (nat n) = none
as_string (neg n) = none

abbrev pub as_bool : Value → Option Bool
as_bool (bool b) = some b
as_bool undefined = none
as_bool null = none
as_bool other = none
as_bool (nat n) = none
as_bool (neg n) = none
as_bool (str s) = none

-- The default of a destructured field: `{ field = d }`.
abbrev pub or_default : Value → Value → Value
or_default undefined d = d
or_default null d = null
or_default other d = other
or_default (bool b) d = bool b
or_default (nat n) d = nat n
or_default (neg n) d = neg n
or_default (str s) d = str s

-- Whether an `if` takes the value for true.
abbrev pub truthy : Value → Bool
truthy (bool b) = b
truthy undefined = false
truthy null = false
truthy other = true
truthy (nat zero) = false
truthy (nat (suc n)) = true
truthy (neg n) = true
truthy (str s) = not (s == "")
