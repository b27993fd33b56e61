-- ===== src/Verifier/Percentile.antt =====
-- `Result` of internal/verifier/verifier.go: the 99th percentile of the latencies that the ring holds.
-- `int(float64(n) * 0.99)` is n * 99 / 100 for the lengths up to 1000 that occur.
use postgres_controller_back.Base.Slices.{length-drop}
use postgres_controller_back.Base.{
  ℕ, zero, suc, ◌+◌, ◌-◌, ◌*◌, ◌/◌, ◌≡◌, ◌<◌, ◌≤◌, refl, Bool, true, false, List, [], ◌∷◌, ◌++◌,
  length, take, drop, keep, leb, ltb, if◌then◌else◌, arith, All, ap, sym, ◌∙◌, Bool-cases, inl, inr,
}
use postgres_controller_back.Verifier.Latencies.{
  Ring, sampled, window, latest, record_all, empty_ring, ring_keeps_latest,
}

unfoldable pub insert : ℕ → List ℕ → List ℕ
insert d [] = d ∷ []
insert d (x ∷ xs) = if leb d x then d ∷ x ∷ xs else x ∷ insert d xs

unfoldable pub sort : List ℕ → List ℕ
unfolding insert
sort [] = []
sort (d ∷ ds) = insert d (sort ds)

-- The entry at an index, 0 past the end.
unfoldable pub at : ℕ → List ℕ → ℕ
at i [] = 0
at zero (x ∷ xs) = x
at (suc i) (x ∷ xs) = at i xs

unfoldable pub p99_index : ℕ → ℕ
p99_index n = let i = n * 99 / 100 in if leb n i then n - 1 else i

unfoldable pub p99 : List ℕ → ℕ
unfolding sort at p99_index
p99 ds = at (p99_index (length ds)) (sort ds)

abbrev pub IsSorted : List ℕ → Type 0
IsSorted [] = Unit
IsSorted (x ∷ xs) = All (λ y. x ≤ y) xs × IsSorted xs

abbrev pub count : (ℕ → Bool) → List ℕ → ℕ
count p ds = length (keep p ds)

count-append : (p : ℕ → Bool) (xs ys : List ℕ) → count p (xs ++ ys) ≡ count p xs + count p ys
count-append p [] ys = omega arith
count-append p (x ∷ xs) ys = ground (arith, count-append p xs ys)

count-insert : (p : ℕ → Bool) (d : ℕ) (xs : List ℕ) → count p (insert d xs) ≡ count p (d ∷ xs)
unfolding insert
count-insert p d [] = refl
count-insert p d (x ∷ xs) = ground (arith, count-insert p d xs)

count-sort : (p : ℕ → Bool) (ds : List ℕ) → count p (sort ds) ≡ count p ds
unfolding sort
count-sort p [] = refl
count-sort p (d ∷ ds) = count-insert p d (sort ds) ∙ ground (arith, count-sort p ds)

keep_all : (xs : List ℕ) → count (λ x. true) xs ≡ length xs
keep_all [] = refl
keep_all (x ∷ xs) = ap suc (keep_all xs)

length-sort : (ds : List ℕ) → length (sort ds) ≡ length ds
length-sort ds = sym (keep_all (sort ds)) ∙ count-sort (λ x. true) ds ∙ keep_all ds

All-insert : (b d : ℕ) (xs : List ℕ) → b ≤ d → All (λ y. b ≤ y) xs → All (λ y. b ≤ y) (insert d xs)
unfolding insert
All-insert b d [] l h = (l, tt)
All-insert b d (x ∷ xs) l (m, h) = elim (Bool-cases (leb d x)) [
  | inl c ↦ rw c (l, (m, h))
  | inr c ↦ rw c (m, All-insert b d xs l h)
]

All-weaken : (a b : ℕ) (xs : List ℕ) → a ≤ b → All (λ y. b ≤ y) xs → All (λ y. a ≤ y) xs
All-weaken a b [] l h = tt
All-weaken a b (x ∷ xs) l (m, h) = (omega arith, All-weaken a b xs l h)

insert-IsSorted : (d : ℕ) (xs : List ℕ) → IsSorted xs → IsSorted (insert d xs)
unfolding insert
insert-IsSorted d [] h = (tt, tt)
insert-IsSorted d (x ∷ xs) (a, h) = elim (Bool-cases (leb d x)) [
  | inl c ↦ rw c ((ground arith, All-weaken d x xs (ground arith) a), (a, h))
  | inr c ↦ rw c (All-insert x d xs (ground arith) a, insert-IsSorted d xs h)
]

pub sort-IsSorted : (ds : List ℕ) → IsSorted (sort ds)
unfolding sort
sort-IsSorted [] = tt
sort-IsSorted (d ∷ ds) = insert-IsSorted d (sort ds) (sort-IsSorted ds)

none_below : (b : ℕ) (xs : List ℕ) → All (λ y. b ≤ y) xs → count (λ x. ltb x b) xs ≡ 0
none_below b [] h = refl
none_below b (x ∷ xs) (l, h) = ground (arith, none_below b xs h)

at_bound : (b i : ℕ) (xs : List ℕ) → All (λ y. b ≤ y) xs → i < length xs → b ≤ at i xs
unfolding at
at_bound b i [] h l = absurd (omega arith)
at_bound b zero (x ∷ xs) (m, h) l = m
at_bound b (suc i) (x ∷ xs) (m, h) l = at_bound b i xs h (omega arith)

-- In a sorted list, at most i entries are below the one at i, and more than i are not above it.
at_rank :
    (i : ℕ) (xs : List ℕ)
    → IsSorted xs
    → i < length xs
    → (count (λ x. ltb x (at i xs)) xs ≤ i) × (i < count (λ x. leb x (at i xs)) xs)
unfolding at
at_rank i [] h l = absurd (omega arith)
at_rank zero (x ∷ xs) (a, h) l = (ground (arith, none_below x xs a), ground arith)
at_rank (suc i) (x ∷ xs) (a, h) l =
    let (below, above) = at_rank i xs h (omega arith) in
    let b : x ≤ at i xs = at_bound x i xs a (omega arith) in
    (ground (arith, below), ground (arith, above, b))

-- The 99th percentile: at most 99 in a hundred are below it, and more than 99 in a hundred are not
-- above it.
pub record IsPercentile (ds : List ℕ) (d : ℕ) : Type 0 where
  pub below : count (λ x. ltb x d) ds * 100 ≤ length ds * 99
  pub not_above : length ds * 99 < count (λ x. leb x d) ds * 100

p99-IsPercentile : (ds : List ℕ) → 0 < length ds → IsPercentile ds (p99 ds)
unfolding p99 p99_index
p99-IsPercentile ds h =
    let e : p99_index (length ds) ≡ length ds * 99 / 100 = ground arith in
    let (below, above) =
      at_rank (p99_index (length ds)) (sort ds) (sort-IsSorted ds)
        (ground (arith, length-sort ds)) in
    record {
      below = omega (arith, below, count-sort (λ x. ltb x (p99 ds)) ds, e);
      not_above = omega (arith, above, count-sort (λ x. leb x (p99 ds)) ds, e);
    }

count-turned : (p : ℕ → Bool) (i : ℕ) (ds : List ℕ) → count p (drop i ds ++ take i ds) ≡ count p ds
count-turned p zero ds = omega (arith, count-append p ds [])
count-turned p (suc i) [] = refl
count-turned p (suc i) (d ∷ ds) = ground (
  arith,
  count-turned p i ds,
  count-append p (drop i ds) (take i ds),
  count-append p (drop i ds) (d ∷ take i ds),
)

count-sampled : (p : ℕ → Bool) (r : Ring) → count p (sampled r) ≡ count p (window r)
unfolding sampled
count-sampled p r = go r.full
  where
    go :
        (full : Bool)
        → count p (if full then r.times else take r.index r.times)
          ≡ count p
              (if full then drop r.index r.times ++ take r.index r.times else take r.index r.times)
    go true = sym (count-turned p r.index r.times)
    go false = refl

-- What the verifier reports once latencies were recorded is the 99th percentile of the latest thousand.
pub p99_of_latest :
    (ds : List ℕ)
    → 0 < length ds
    → IsPercentile (latest 1000 ds) (p99 (sampled (record_all 1000 ds (empty_ring 1000))))
p99_of_latest ds h =
    let r : Ring = record_all 1000 ds (empty_ring 1000) in
    let w : window r ≡ latest 1000 ds = ring_keeps_latest 1000 ds (omega arith) in
    let same : (p : ℕ → Bool) → count p (sampled r) ≡ count p (latest 1000 ds) =
      λ p. count-sampled p r ∙ ap (count p) w in
    let l : length (sampled r) ≡ length (latest 1000 ds) =
      sym (keep_all (sampled r)) ∙ same (λ x. true) ∙ keep_all (latest 1000 ds) in
    let k : IsPercentile (sampled r) (p99 (sampled r)) =
      p99-IsPercentile (sampled r) (omega (arith, l, length-drop (length ds - 1000) ds)) in
    record {
      below = omega (arith, k.below, l, same (λ x. ltb x (p99 (sampled r))));
      not_above = omega (arith, k.not_above, l, same (λ x. leb x (p99 (sampled r))));
    }
