-- ===== src/Prelude/Dict.antt =====
-- A JavaScript `Map`: entries in the order of insertion; `set` on a key that is there writes in place.
use Prim.Native.Nat.{ℕ, suc, ◌+◌}
use mathlib.Core.Path.{◌≡◌, refl, sym, subst, subst₂}
use mathlib.Core.Logic.{inl, inr}
use mathlib.Core.Bool.{Bool, false}
use mathlib.Core.Option.{Option, none, some}
use mathlib.Core.Option
use mathlib.Core.List.{List, [], ◌∷◌}
use native.Mathlib.Omega.{arith}
use cairnstone_v.Prelude.Tests.{if◌then◌else◌, Eq, ◌==◌, Bool-cases}

abbrev pub Dict {ℓ κ} : Type ℓ → Type κ → Type (ℓ ⊔ κ)
Dict K V = List (K × V)

module _ {ℓ κ} {K : Type ℓ} {V : Type κ} where
  -- `[...m.values()]`
  abbrev pub values : Dict K V → List V
  values [] = []
  values ((k, v) ∷ m) = v ∷ values m

  -- Writes through the values of a map, in an iteration over all of it.
  unfoldable pub update_all : (K → V → V) → Dict K V → Dict K V
  update_all f [] = []
  update_all f ((k, v) ∷ m) = (k, f k v) ∷ update_all f m

  abbrev pub tally : (V → Bool) → Dict K V → ℕ
  tally test [] = 0
  tally test ((k, v) ∷ m) = let rest = tally test m in if test v then suc rest else rest

module _ {ℓ κ} {K : Type ℓ} {V : Type κ} ⦃e : Eq K⦄ where
  -- `m.get(k)`
  unfoldable pub lookup : K → Dict K V → Option V
  lookup k [] = none
  lookup k ((j, v) ∷ m) = if j == k then some v else lookup k m

  -- `m.set(k, v)`
  unfoldable pub insert : K → V → Dict K V → Dict K V
  insert k v [] = (k, v) ∷ []
  insert k v ((j, w) ∷ m) = if j == k then (j, v) ∷ m else (j, w) ∷ insert k v m

  pub lookup-nil : (k : K) → lookup k [] ≡ none
  unfolding lookup
  lookup-nil k = refl

  -- What `get` gives after a `set`.
  pub lookup-insert :
      (k j : K) (v : V) (m : Dict K V)
      → lookup j (insert k v m) ≡ (if k == j then some v else lookup j m)
  unfolding insert lookup
  lookup-insert key other val [] = refl
  lookup-insert key other val ((at, old) ∷ rest) = ground (
    arith,
    lookup-insert key other val rest,
    e.same_iff at other,
    e.same_iff at key,
    e.same_iff key other,
  )

  pub lookup-insert_self : (k : K) (v : V) (m : Dict K V) → lookup k (insert k v m) ≡ some v
  lookup-insert_self k v m = ground (arith, lookup-insert k k v m, e.same_iff k k)

  pub lookup-insert_ne :
      (k j : K) (v : V) (m : Dict K V) → ((k == j) ≡ false) → lookup j (insert k v m) ≡ lookup j m
  lookup-insert_ne k j v m h = ground (arith, lookup-insert k j v m)

  pub lookup-update_all :
      (f : K → V → V) (j : K) (m : Dict K V)
      → lookup j (update_all f m) ≡ Option.map (f j) (lookup j m)
  unfolding lookup update_all
  lookup-update_all f j [] = refl
  lookup-update_all f j ((k, v) ∷ m) = elim (Bool-cases (k == j)) [
    | inl h ↦ rw (h, (e.same_iff k j).0 h)
    | inr h ↦ rw h (lookup-update_all f j m)
  ]

  -- A write over an entry moves the tally by what the entry counted before and after.
  pub tally-insert :
      (test : V → Bool) (k : K) (v w : V) (m : Dict K V)
      → lookup k m ≡ some w
      → tally test (insert k v m) + (if test w then 1 else 0)
        ≡ tally test m + (if test v then 1 else 0)
  unfolding lookup insert
  tally-insert test k v w [] h = ground arith
  tally-insert test k v w ((j, u) ∷ m) h = ground (arith, tally-insert test k v w m)

-- What holds of every entry of a map.
abbrev pub AllEntries {ℓ κ μ} : {K : Type ℓ} {V : Type κ} → (K → V → Type μ) → Dict K V → Type μ
AllEntries P [] = Unit
AllEntries P ((k, v) ∷ m) = P k v × AllEntries P m

pub AllEntries-map {ℓ κ μ} :
    {K : Type ℓ} {V : Type κ} {P Q : K → V → Type μ} (m : Dict K V)
    → ((k : K) (v : V) → P k v → Q k v)
    → AllEntries P m
    → AllEntries Q m
AllEntries-map [] f h = tt
AllEntries-map ((k, v) ∷ m) f (p, h) = (f k v p, AllEntries-map m f h)

module _ {ℓ κ μ} {K : Type ℓ} {V : Type κ} ⦃e : Eq K⦄ (P : K → V → Type μ) where
  pub AllEntries-insert :
      (k : K) (v : V) (m : Dict K V) → P k v → AllEntries P m → AllEntries P (insert k v m)
  unfolding insert
  AllEntries-insert k v [] p h = (p, tt)
  AllEntries-insert k v ((j, w) ∷ m) p (q, h) = elim (Bool-cases (j == k)) [
    | inl t ↦ rw t (subst (λ i. P i v) (sym ((e.same_iff j k).0 t)) p, h)
    | inr f ↦ rw f (q, AllEntries-insert k v m p h)
  ]

  pub AllEntries-lookup :
      (k : K) (v : V) (m : Dict K V) → lookup k m ≡ some v → AllEntries P m → P k v
  unfolding lookup
  AllEntries-lookup k v [] h a = absurd (ground arith)
  AllEntries-lookup k v ((j, w) ∷ m) h (q, a) = elim (Bool-cases (j == k)) [
    | inl t ↦ subst₂ P ((e.same_iff j k).0 t) (ground arith) q
    | inr f ↦ AllEntries-lookup k v m (rw f at h) a
  ]
