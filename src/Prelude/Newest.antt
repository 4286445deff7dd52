-- ===== src/Prelude/Newest.antt =====
-- `ORDER BY created_at DESC`: rows in the order of a date, the newest first, and what that order keeps.
use cairnstone_v.Prelude.{
  ℕ, zero, suc, String, ◌≡◌, refl, ◌∙◌, ap, Bool, true, false, string_eq, arith, Bool-cases, inl,
  inr, if◌then◌else◌, List, [], ◌∷◌, length, min, take, keep, All, In, All-take,
}
use cairnstone_v.Prelude.Text.{text_le, units_le, units}

module _ {A : Type 0} (date : A → String) where
  -- Rows of one moment stay in the order of the table.
  unfoldable pub place_newest : A → List A → List A
  place_newest r [] = r ∷ []
  place_newest r (x ∷ xs) =
      let rest = place_newest r xs in if text_le (date x) (date r) then r ∷ x ∷ xs else x ∷ rest

  unfoldable pub newest_first : List A → List A
  unfolding place_newest
  newest_first [] = []
  newest_first (r ∷ rs) = place_newest r (newest_first rs)

  length-place : (r : A) (xs : List A) → length (place_newest r xs) ≡ suc (length xs)
  unfolding place_newest
  length-place r [] = refl
  length-place r (x ∷ xs) = ground (arith, length-place r xs)

  length-newest_first : (xs : List A) → length (newest_first xs) ≡ length xs
  unfolding newest_first
  length-newest_first [] = refl
  length-newest_first (x ∷ xs) =
      length-place x (newest_first xs) ∙ ap (λ n. suc n) (length-newest_first xs)

  -- Each row is at least as new as the one behind it.
  abbrev pub IsNewestFirst : List A → Type 0
  IsNewestFirst [] = Unit
  IsNewestFirst (x ∷ []) = Unit
  IsNewestFirst (x ∷ y ∷ ys) = (text_le (date y) (date x) ≡ true) × IsNewestFirst (y ∷ ys)

  abbrev Heads : A → List A → Type 0
  Heads x [] = Unit
  Heads x (y ∷ ys) = text_le (date y) (date x) ≡ true

  newest_cons : (x : A) (xs : List A) → Heads x xs → IsNewestFirst xs → IsNewestFirst (x ∷ xs)
  newest_cons x [] h s = tt
  newest_cons x (y ∷ ys) h s = (h, s)

  newest_split : (x : A) (xs : List A) → IsNewestFirst (x ∷ xs) → Heads x xs × IsNewestFirst xs
  newest_split x [] s = (tt, tt)
  newest_split x (y ∷ ys) (h, s) = (h, s)

  place-Heads :
      (x r : A) (xs : List A)
      → text_le (date r) (date x) ≡ true
      → Heads x xs
      → Heads x (place_newest r xs)
  unfolding place_newest
  place-Heads x r [] le h = le
  place-Heads x r (y ∷ ys) le h = elim (Bool-cases (text_le (date y) (date r))) [
    | inl t ↦ rw t le
    | inr f ↦ rw f h
  ]

  units_le_total : (xs ys : List ℕ) → units_le xs ys ≡ false → units_le ys xs ≡ true
  units_le_total [] ys h = absurd (ground arith)
  units_le_total (x ∷ xs) [] h = refl
  units_le_total (x ∷ xs) (y ∷ ys) h = ground (arith, units_le_total xs ys)

  place-IsNewestFirst : (r : A) (xs : List A) → IsNewestFirst xs → IsNewestFirst (place_newest r xs)
  unfolding place_newest
  place-IsNewestFirst r [] s = tt
  place-IsNewestFirst r (x ∷ xs) s = elim (Bool-cases (text_le (date x) (date r))) [
    | inl y ↦ rw y (y, s)
    | inr n ↦
        let (h, s') = newest_split x xs s in
        rw n (
          newest_cons x (place_newest r xs)
            (place-Heads x r xs (units_le_total (units (date x)) (units (date r)) n) h)
            (place-IsNewestFirst r xs s'))
  ]

  newest_first-IsNewestFirst : (xs : List A) → IsNewestFirst (newest_first xs)
  unfolding newest_first
  newest_first-IsNewestFirst [] = tt
  newest_first-IsNewestFirst (x ∷ xs) =
      place-IsNewestFirst x (newest_first xs) (newest_first-IsNewestFirst xs)

  take-IsNewestFirst : (n : ℕ) (xs : List A) → IsNewestFirst xs → IsNewestFirst (take n xs)
  take-IsNewestFirst zero xs s = tt
  take-IsNewestFirst (suc n) [] s = tt
  take-IsNewestFirst (suc zero) (x ∷ xs) s = tt
  take-IsNewestFirst (suc (suc n)) (x ∷ []) s = tt
  take-IsNewestFirst (suc (suc n)) (x ∷ y ∷ ys) (h, s) = (h, take-IsNewestFirst (suc n) (y ∷ ys) s)

length-take : {A : Type 0} (n : ℕ) (xs : List A) → length (take n xs) ≡ min n (length xs)
length-take zero xs = omega arith
length-take (suc n) [] = omega arith
length-take (suc n) (x ∷ xs) = omega (arith, length-take n xs)

module _ {A : Type 0} (P : A → Type 0) (date : A → String) where
  All-place : (r : A) (xs : List A) → P r → All P xs → All P (place_newest date r xs)
  unfolding place_newest
  All-place r [] p h = (p, tt)
  All-place r (x ∷ xs) p (q, h) = elim (Bool-cases (text_le (date x) (date r))) [
    | inl y ↦ rw y (p, (q, h))
    | inr n ↦ rw n (q, All-place r xs p h)
  ]

  All-newest_first : (xs : List A) → All P xs → All P (newest_first date xs)
  unfolding newest_first
  All-newest_first [] h = tt
  All-newest_first (x ∷ xs) (p, h) = All-place x (newest_first date xs) p (All-newest_first xs h)

All-keep :
    {A : Type 0} (P : A → Type 0) (test : A → Bool) (xs : List A)
    → ((x : A) → In x xs → test x ≡ true → P x)
    → All P (keep test xs)
All-keep P test [] f = tt
All-keep P test (x ∷ xs) f = elim (Bool-cases (test x)) [
  | inl y ↦ rw y (f x (inl refl) y, All-keep P test xs (λ z i. f z (inr i)))
  | inr n ↦ rw n (All-keep P test xs (λ z i. f z (inr i)))
]

-- `WHERE test ORDER BY created_at DESC LIMIT n`, of the rows of a table.
unfoldable pub query_newest : {A : Type 0} → (A → String) → (A → Bool) → ℕ → List A → List A
unfolding newest_first
query_newest date test n rows = take n (newest_first date (keep test rows))

-- What such a query gives: as many of the rows that the test chooses as the limit allows, in order.
pub record IsListing {A : Type 0} (date : A → String) (test : A → Bool) (n : ℕ) (all rows : List A)
    : Type 0 where
  pub count : length rows ≡ min n (length (keep test all))
  pub chosen : All (λ r. In r all × (test r ≡ true)) rows
  pub newest : IsNewestFirst date rows

pub query_newest-IsListing :
    {A : Type 0} (date : A → String) (test : A → Bool) (n : ℕ) (all : List A)
    → IsListing date test n all (query_newest date test n all)
unfolding query_newest
query_newest-IsListing {A} date test n all = record {
  count = length-take n sorted ∙ ap (min n) (length-newest_first date (keep test all));
  chosen =
      All-take P n sorted
        (All-newest_first P date (keep test all) (All-keep P test all (λ x i e. (i, e))));
  newest = take-IsNewestFirst date n sorted (newest_first-IsNewestFirst date (keep test all));
}
  where
    sorted : List A
    sorted = newest_first date (keep test all)

    P : A → Type 0
    P r = In r all × (test r ≡ true)

pub All-map :
    {A : Type 0} (P Q : A → Type 0) (f : (r : A) → P r → Q r) (xs : List A) → All P xs → All Q xs
All-map P Q f [] h = tt
All-map P Q f (x ∷ xs) (p, h) = (f x p, All-map P Q f xs h)
