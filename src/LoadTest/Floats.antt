-- ===== src/LoadTest/Floats.antt =====
-- What the load test does with a float64, and `percentile`, `mean` and `stddev` of
-- loadtest/cmd/loadtest/phase1_ceiling.go. IEEE arithmetic is given by `Floats`, and no
-- float is a NaN: `not (x < y)` stands for `x >= y`.
use postgres_controller_back.Base.{
  ℕ, zero, suc, ◌-◌, ◌<◌, Bool, List, [], ◌∷◌, length, leb, if◌then◌else◌, arith, In, here, there,
  refl,
}
use postgres_controller_back.Verifier.Percentile.{at}

-- `seconds` is `Duration.Seconds`, of nanoseconds; `ceil` is `int(math.Ceil(x))` of an x that is not
-- negative.
pub record Floats (F : Type 0) : Type 0 where
  pub nought : F
  pub of_int : ℕ → F
  pub seconds : ℕ → F
  pub plus : F → F → F
  pub minus : F → F → F
  pub times : F → F → F
  pub over : F → F → F
  pub square_root : F → F
  pub below : F → F → Bool
  pub ceil : F → ℕ

module _ {F : Type 0} (fl : Floats F) where
  -- The index into a list of `n` entries that is not empty.
  unfoldable pub rank : F → ℕ → ℕ
  rank p n = let i = fl.ceil (fl.times p (fl.of_int n)) - 1 in if leb n i then n - 1 else i

  unfoldable pub percentile : F → List ℕ → ℕ
  unfolding rank at
  percentile p [] = 0
  percentile p (d ∷ ds) = at (rank p (length (d ∷ ds))) (d ∷ ds)

  unfoldable pub sum_from : F → List F → F
  sum_from s [] = s
  sum_from s (v ∷ vs) = sum_from (fl.plus s v) vs

  unfoldable pub mean : List F → F
  unfolding sum_from
  mean [] = fl.nought
  mean (v ∷ vs) = fl.over (sum_from fl.nought (v ∷ vs)) (fl.of_int (length (v ∷ vs)))

  unfoldable pub squares_from : F → F → List F → F
  squares_from m s [] = s
  squares_from m s (v ∷ vs) = squares_from m (fl.plus s (fl.times (fl.minus v m) (fl.minus v m))) vs

  unfoldable pub stddev : List F → F
  unfolding mean squares_from
  stddev [] = fl.nought
  stddev (v ∷ []) = fl.nought
  stddev (v ∷ w ∷ vs) =
      let xs = v ∷ w ∷ vs in
      fl.square_root (fl.over (squares_from (mean xs) fl.nought xs) (fl.of_int (length xs - 1)))

  at-In : (i : ℕ) (ds : List ℕ) → i < length ds → In (at i ds) ds
  unfolding at
  at-In i [] h = absurd (omega arith)
  at-In zero (d ∷ ds) h = here refl
  at-In (suc i) (d ∷ ds) h = there (at-In i ds (omega arith))

  rank-lt : (p : F) (n : ℕ) → 0 < n → rank p n < n
  unfolding rank
  rank-lt p n h = ground arith

  -- Whatever the float arithmetic gives, the percentile of latencies is one of them.
  pub percentile-In : (p : F) (d : ℕ) (ds : List ℕ) → In (percentile p (d ∷ ds)) (d ∷ ds)
  unfolding percentile
  percentile-In p d ds =
      at-In (rank p (length (d ∷ ds))) (d ∷ ds) (rank-lt p (length (d ∷ ds)) (omega arith))
