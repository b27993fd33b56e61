-- ===== src/LoadTest/Avalanche.antt =====
-- loadtest/cmd/loadtest/phase3_avalanche.go: which writers are killed, what a writer does, and the
-- verdict. `perm` is what `rand.Perm(numWriters)` returns.
use postgres_controller_back.Base.{
  ℕ, zero, suc, ◌+◌, ◌≡◌, ◌≤◌, refl, Bool, ◌&&◌, Option, none, some, List, [], ◌∷◌, ◌++◌, length,
  take, drop, ltb, if◌then◌else◌, Outcome, ok, err, arith,
}
use postgres_controller_back.Base.Int.{ℤ, pos, negsuc}
use postgres_controller_back.Base.Slices.{take-drop}
use postgres_controller_back.Base.Text.{Text, codes}
use postgres_controller_back.Json.{num, str, obj, member, end}
use postgres_controller_back.Strconv.{format_uint}
use postgres_controller_back.Model.{WriteRequest, WriteResult}
use postgres_controller_back.Writer.Client.{WriteError}
use postgres_controller_back.Verifier.Percentile.{sort}
use postgres_controller_back.LoadTest.Floats.{Floats, percentile}
use postgres_controller_back.LoadTest.Report.{PhaseResult}
use postgres_controller_back.LoadTest.Ceiling.{Quantiles}
use postgres_controller_back.LoadTest.Traffic.{
  Call, Tally, phase_request, count_call, is_empty, error_counts,
}

abbrev pub num_writers : ℕ
num_writers = 8

-- `numToKill` from `int(float64(numWriters) * killFraction)`; a negative one makes Go panic.
unfoldable pub kill_count : Bool → ℤ → Option ℕ
kill_count positive (negsuc n) = if positive then some 1 else none
kill_count positive (pos n) =
    if ltb n 1 && positive then some 1 else if ltb num_writers n then some num_writers else some n

unfoldable pub killed_workers : ℕ → List ℕ → List ℕ
killed_workers n perm = take n perm

unfoldable pub surviving_workers : ℕ → List ℕ → List ℕ
surviving_workers n perm = drop n perm

unfoldable pub holder_id : ℕ → Text
holder_id i = codes "holder-" ++ format_uint i

-- The names of the writers that take over, each with its place among the killed.
unfoldable pub survivor_ids : ℕ → List ℕ → List Text
survivor_ids i [] = []
survivor_ids i (w ∷ ws) =
    (codes "survivor-" ++ format_uint w ++ codes "-" ++ format_uint i) ∷ survivor_ids (i + 1) ws

unfoldable pub avalanche_request : Text → Text → ℕ → WriteRequest
unfolding phase_request
avalanche_request gvk id n =
    phase_request gvk (codes "phase3") (codes "p3-" ++ id ++ codes "-r" ++ format_uint n)
      (obj (member (codes "n") (num (format_uint n)) (member (codes "w") (str id) end)))

abbrev pub next_num : Outcome WriteError WriteResult → ℕ → ℕ
next_num (ok r) n = n + 1
next_num (err e) n = n

-- `writerLoop` until its context ends: the writes it makes, into the shared counters.
unfoldable pub writer_loop : (WriteError → Bool) → Text → Text → List Call → ℕ → Tally → Tally
unfolding avalanche_request count_call
writer_loop is_serialization gvk id [] n t = t
writer_loop is_serialization gvk id (c ∷ cs) n t =
    let r = c.answer (avalanche_request gvk id n) in
    writer_loop is_serialization gvk id cs (next_num r n)
      (count_call is_serialization c.latency r t)

module _ {F : Type 0} (fl : Floats F) (qs : Quantiles F) where
  -- The phase passes if the verifier saw nothing.
  unfoldable pub avalanche_result : ℕ → Tally → List Text → PhaseResult F
  unfolding percentile sort
  avalanche_result elapsed t violations = record {
    name = codes "phase3_avalanche";
    passed = is_empty violations;
    duration = elapsed;
    total_writes = t.writes;
    rps = fl.over (fl.of_int t.writes) (fl.seconds elapsed);
    p50 = percentile fl qs.half (sort t.latencies);
    p99 = percentile fl qs.most (sort t.latencies);
    p999 = percentile fl qs.nearly_all (sort t.latencies);
    errors = error_counts t.ser_failures t.other_errors;
    verifier_violations = violations;
    sweep = [];
    baseline = none;
  }

kill_count-le : (positive : Bool) (k : ℤ) (n : ℕ) → kill_count positive k ≡ some n → n ≤ num_writers
unfolding kill_count
kill_count-le positive (pos m) n e = ground arith
kill_count-le positive (negsuc m) n e = ground arith

length-take : (n : ℕ) (xs : List ℕ) → n ≤ length xs → length (take n xs) ≡ n
length-take zero xs h = refl
length-take (suc n) [] h = absurd (omega arith)
length-take (suc n) (x ∷ xs) h = omega (arith, length-take n xs (omega arith))

-- Each writer is killed or survives, in one place, and as many are killed as were counted.
pub kills_split :
    (positive : Bool) (k : ℤ) (n : ℕ) (perm : List ℕ)
    → length perm ≡ num_writers
    → kill_count positive k ≡ some n
    → (killed_workers n perm ++ surviving_workers n perm ≡ perm)
      × (length (killed_workers n perm) ≡ n)
unfolding kill_count killed_workers surviving_workers
kills_split positive k n perm h e =
    (take-drop n perm, length-take n perm (omega (arith, kill_count-le positive k n e)))
