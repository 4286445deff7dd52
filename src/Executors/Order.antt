-- ===== src/Executors/Order.antt =====
-- src/executor-profile.js, `compareCandidates`: the order in which candidates are preferred, and the
-- head of a list that is sorted by it.
use Prim.Native.Nat.{compare}
use cairnstone_v.Prelude.{
  ℕ, ◌≡◌, Bool, true, false, List, [], ◌∷◌, Bool-cases, inl, inr, All, arith,
}
use cairnstone_v.Executors.Profiles.{Profile}
use cairnstone_v.Executors.Policy.{
  Preset, cost_rank, quality_rank, context_mode_rank, then_by, not_after, compare_candidates,
  place_candidate, sort_candidates,
}

abbrev pub Precedes : Preset → Profile → Profile → Type 0
Precedes policy p q = not_after (compare_candidates p q policy) ≡ true

abbrev lex : (a b c x y z : ℕ) → Bool
lex a b c x y z = not_after (then_by (compare a x) (then_by (compare b y) (compare c z)))

abbrev quality : Profile → ℕ
quality p = quality_rank p.quality_class

abbrev cost : Profile → ℕ
cost p = cost_rank p.cost_class

abbrev rank : Profile → ℕ
rank p = p.selection_rank

lex_total : (a b c x y z : ℕ) → lex a b c x y z ≡ false → lex x y z a b c ≡ true
lex_total a b c x y z h = ground arith

lex_trans :
    (a b c x y z u v w : ℕ)
    → lex a b c x y z ≡ true
    → lex x y z u v w ≡ true
    → lex a b c u v w ≡ true
lex_trans a b c x y z u v w h k = ground arith

best_total : (a b c x y z : ℕ) → lex x b c a y z ≡ false → lex a y z x b c ≡ true
best_total a b c x y z h = ground arith

best_trans :
    (a b c x y z u v w : ℕ)
    → lex x b c a y z ≡ true
    → lex u y z x v w ≡ true
    → lex u b c a v w ≡ true
best_trans a b c x y z u v w h k = ground arith

lex_refl : (a b c : ℕ) → lex a b c a b c ≡ true
lex_refl a b c = ground arith

pub Precedes_total :
    (policy : Preset) (p q : Profile)
    → not_after (compare_candidates p q policy) ≡ false
    → Precedes policy q p
unfolding compare_candidates
Precedes_total Preset.best p q h =
    best_total (quality p) (rank p) (context_mode_rank p) (quality q) (rank q) (context_mode_rank q)
      h
Precedes_total Preset.economy p q h =
    lex_total (cost p) (rank p) (context_mode_rank p) (cost q) (rank q) (context_mode_rank q) h
Precedes_total Preset.balanced p q h =
    lex_total (rank p) (cost p) (context_mode_rank p) (rank q) (cost q) (context_mode_rank q) h
Precedes_total Preset.manual p q h =
    lex_total (rank p) (cost p) (context_mode_rank p) (rank q) (cost q) (context_mode_rank q) h

pub Precedes_trans :
    (policy : Preset) (p q r : Profile)
    → Precedes policy p q
    → Precedes policy q r
    → Precedes policy p r
unfolding compare_candidates
Precedes_trans Preset.best p q r h k =
    best_trans (quality p) (rank p) (context_mode_rank p) (quality q) (rank q) (context_mode_rank q)
      (quality r) (rank r) (context_mode_rank r) h k
Precedes_trans Preset.economy p q r h k =
    lex_trans (cost p) (rank p) (context_mode_rank p) (cost q) (rank q) (context_mode_rank q)
      (cost r) (rank r) (context_mode_rank r) h k
Precedes_trans Preset.balanced p q r h k =
    lex_trans (rank p) (cost p) (context_mode_rank p) (rank q) (cost q) (context_mode_rank q)
      (rank r) (cost r) (context_mode_rank r) h k
Precedes_trans Preset.manual p q r h k =
    lex_trans (rank p) (cost p) (context_mode_rank p) (rank q) (cost q) (context_mode_rank q)
      (rank r) (cost r) (context_mode_rank r) h k

pub Precedes_refl : (policy : Preset) (p : Profile) → Precedes policy p p
unfolding compare_candidates
Precedes_refl Preset.best p = lex_refl (quality p) (rank p) (context_mode_rank p)
Precedes_refl Preset.economy p = lex_refl (cost p) (rank p) (context_mode_rank p)
Precedes_refl Preset.balanced p = lex_refl (rank p) (cost p) (context_mode_rank p)
Precedes_refl Preset.manual p = lex_refl (rank p) (cost p) (context_mode_rank p)

module _ (P : Profile → Type 0) (policy : Preset) where
  All-place :
      (p : Profile) (qs : List Profile) → P p → All P qs → All P (place_candidate policy p qs)
  unfolding place_candidate
  All-place p [] h a = (h, tt)
  All-place p (q ∷ qs) h (k, a) = elim (Bool-cases (not_after (compare_candidates p q policy))) [
    | inl y ↦ rw y (h, (k, a))
    | inr n ↦ rw n (k, All-place p qs h a)
  ]

  pub All-sort : (ps : List Profile) → All P ps → All P (sort_candidates policy ps)
  unfolding sort_candidates
  All-sort [] h = tt
  All-sort (p ∷ ps) (h, a) = All-place p (sort_candidates policy ps) h (All-sort ps a)

  of-place :
      (p : Profile) (qs : List Profile) → All P (place_candidate policy p qs) → P p × All P qs
  unfolding place_candidate
  of-place p [] (h, a) = (h, tt)
  of-place p (q ∷ qs) a = elim (Bool-cases (not_after (compare_candidates p q policy))) [
    | inl y ↦ let b : All P (p ∷ q ∷ qs) = rw y at a in b
    | inr n ↦
        let b : All P (q ∷ place_candidate policy p qs) = rw n at a in
        let (h, c) = of-place p qs (b.1) in (h, (b.0, c))
  ]

  -- What holds of all of a sorted list holds of all of the list.
  pub of-sort : (ps : List Profile) → All P (sort_candidates policy ps) → All P ps
  unfolding sort_candidates
  of-sort [] a = tt
  of-sort (p ∷ ps) a = let (h, b) = of-place p (sort_candidates policy ps) a in (h, of-sort ps b)

All-Precedes :
    (policy : Preset) (p q : Profile) (qs : List Profile)
    → Precedes policy p q
    → All (Precedes policy q) qs
    → All (Precedes policy p) qs
All-Precedes policy p q [] h a = tt
All-Precedes policy p q (r ∷ rs) h (k, a) =
    (Precedes_trans policy p q r h k, All-Precedes policy p q rs h a)

-- The head of a list precedes all of it.
abbrev pub HeadPrecedes : Preset → List Profile → Type 0
HeadPrecedes policy [] = Unit
HeadPrecedes policy (q ∷ qs) = All (Precedes policy q) (q ∷ qs)

place-HeadPrecedes :
    (policy : Preset) (p : Profile) (qs : List Profile)
    → HeadPrecedes policy qs
    → HeadPrecedes policy (place_candidate policy p qs)
unfolding place_candidate
place-HeadPrecedes policy p [] h = (Precedes_refl policy p, tt)
place-HeadPrecedes policy p (q ∷ qs) h =
    elim (Bool-cases (not_after (compare_candidates p q policy))) [
      | inl y ↦ rw y (Precedes_refl policy p, All-Precedes policy p q (q ∷ qs) y h)
      | inr n ↦
          rw n (h.0, All-place (Precedes policy q) policy p qs (Precedes_total policy p q n) h.1)
    ]

pub sort-HeadPrecedes :
    (policy : Preset) (ps : List Profile) → HeadPrecedes policy (sort_candidates policy ps)
unfolding sort_candidates
sort-HeadPrecedes policy [] = tt
sort-HeadPrecedes policy (p ∷ ps) =
    place-HeadPrecedes policy p (sort_candidates policy ps) (sort-HeadPrecedes policy ps)
