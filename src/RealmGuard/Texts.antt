-- ===== src/RealmGuard/Texts.antt =====
-- src/realm-guard.js: texts that `trim` and `toLowerCase` leave with their prefix.
use cairnstone_v.Prelude.{
  and-eq-true, and_true, some-injective, none-ne-some, String, ◌≡◌, refl, sym, ◌∙◌, ap, subst, some,
  Bool, true, false, not, ◌&&◌, string_eq, arith, Bool-cases, inl, inr, nat_eqb, all,
}
use Prim.Native.String.{[], ◌∷◌}
use Prim.Native.Char.{Char, code}
use cairnstone_v.Prelude.Text.{
  codes, is_space, trim_start, push_unless_space, trim_end, trim, lower_unit, lower_codes,
  strip_prefix,
}
use cairnstone_v.RealmGuard.{starts_with}

-- No white space, so that `trim` keeps the text.
abbrev pub IsTight : String → Type 0
IsTight s = all (λ c. not (is_space c)) (codes s) ≡ true

pub push-tight : (c : Char) (s : String) → is_space (code c) ≡ false → push_unless_space c s ≡ c ∷ s
push-tight c [] h = rw h refl
push-tight c (d ∷ s) h = refl

pub tight-head : (b r : Bool) → (not b && r) ≡ true → (b ≡ false) × (r ≡ true)
tight-head b r h = (ground arith, ground arith)

pub trim_end-tight : (s : String) → IsTight s → trim_end s ≡ s
unfolding trim_end
trim_end-tight [] h = refl
trim_end-tight (c ∷ s) h =
    let (tight, rest) = tight-head _ _ h in
    ap (push_unless_space c) (trim_end-tight s rest) ∙ push-tight c s tight

pub trim_start-tight : (s : String) → IsTight s → trim_start s ≡ s
unfolding trim_start
trim_start-tight [] h = refl
trim_start-tight (c ∷ s) h =
    let tight : is_space (code c) ≡ false = (tight-head _ _ h).0 in rw tight refl

pub trim-tight : (s : String) → IsTight s → trim s ≡ s
unfolding trim
trim-tight s h = ap trim_end (trim_start-tight s h) ∙ trim_end-tight s h

pub strip-IsTight :
    (p s rest : String) → strip_prefix p s ≡ some rest → IsTight p → IsTight rest → IsTight s
unfolding strip_prefix
strip-IsTight [] s rest e h t = subst IsTight (some-injective (sym e)) t
strip-IsTight (a ∷ p) [] rest e h t = absurd (ground arith)
strip-IsTight (a ∷ p) (c ∷ s) rest e h t = elim (Bool-cases (nat_eqb (code a) (code c))) [
  | inl y ↦
      let (tight, rest_tight) = tight-head _ _ h in
      let same : code a ≡ code c = ground arith in
      tight_cons (is_space (code c)) _ (subst (λ k. is_space k ≡ false) same tight)
        (strip-IsTight p s rest (rw (y, strip_prefix) at e) rest_tight t)
  | inr n ↦ absurd (none-ne-some (rw (n, strip_prefix) at e))
]
  where
    tight_cons : (b r : Bool) → b ≡ false → r ≡ true → (not b && r) ≡ true
    tight_cons b r p q = ground arith

abbrev pub IsLower : String → Type 0
IsLower p = all (λ c. nat_eqb c (lower_unit c)) (codes p) ≡ true

pub strip-starts :
    (p s rest : String)
    → strip_prefix p s ≡ some rest
    → IsLower p
    → starts_with (codes p) (lower_codes (codes s)) ≡ true
unfolding strip_prefix
strip-starts [] s rest e h = refl
strip-starts (a ∷ p) [] rest e h = absurd (ground arith)
strip-starts (a ∷ p) (c ∷ s) rest e h = elim (Bool-cases (nat_eqb (code a) (code c))) [
  | inl y ↦
      let (low, rest_low) = and-eq-true _ _ h in
      let same : code a ≡ code c = ground arith in
      and_true _ _ (subst (λ k. nat_eqb (code a) (lower_unit k) ≡ true) same low)
        (strip-starts p s rest (rw (y, strip_prefix) at e) rest_low)
  | inr n ↦ absurd (none-ne-some (rw (n, strip_prefix) at e))
]
