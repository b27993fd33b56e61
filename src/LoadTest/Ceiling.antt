-- ===== src/LoadTest/Ceiling.antt =====
-- loadtest/cmd/loadtest/phase1_ceiling.go: the workers, the verdict, and the sweep over counts of
-- workers. Duration and warm-up are those of a configuration in which neither is negative.
pub mod Sweeps
use postgres_controller_back.Base.{
  ℕ, zero, suc, ◌+◌, ◌-◌, ◌≡◌, Bool, true, false, not, ◌&&◌, ◌||◌, Option, none, some, List, [],
  ◌∷◌, ◌++◌, ltb, ◌==◌, if◌then◌else◌, Outcome, ok, err, ◌>>=◌,
}
use postgres_controller_back.Base.Int.{ℤ}
use postgres_controller_back.Base.Text.{Text, codes}
use postgres_controller_back.Json.{num, obj, member, end}
use postgres_controller_back.Strconv.{format_uint}
use postgres_controller_back.Model.{WriteRequest, WriteResult}
use postgres_controller_back.Writer.Client.{WriteError}
use postgres_controller_back.Verifier.Percentile.{sort}
use postgres_controller_back.LoadTest.Floats.{Floats, percentile, mean, stddev}
use postgres_controller_back.LoadTest.Report.{PhaseResult, SweepEntry, blank_result}
use postgres_controller_back.LoadTest.Traffic.{
  Call, Tally, no_tally, phase_request, count_success, count_failure, exceeds, is_empty,
  error_counts,
}

unfoldable pub ceiling_request : Text → ℕ → ℕ → WriteRequest
unfolding phase_request
ceiling_request gvk id n =
    phase_request gvk (codes "phase1")
      (codes "p1-w" ++ format_uint id ++ codes "-r" ++ format_uint n)
      (obj
        (member (codes "n") (num (format_uint n)) (member (codes "w") (num (format_uint id)) end)))

-- One round of a worker: when the deadline is read, when the end of the warm-up is, and the write.
pub record Round : Type 0 where
  pub loop_now : ℕ
  pub check_now : ℕ
  pub call : Call

pub record Worker : Type 0 where
  pub write_num : ℕ
  pub warmed_up : Bool
  pub tally : Tally

module _ (is_serialization : WriteError → Bool) (gvk : Text) (id warm_up_end deadline : ℕ) where
  -- A write that fails is made again under the same name.
  unfoldable pub note_write : ℕ → Outcome WriteError WriteResult → Worker → Worker
  unfolding count_success count_failure
  note_write lat (err e) w = record w { tally = count_failure (is_serialization e) w.tally }
  note_write lat (ok r) w = record w {
    write_num = w.write_num + 1;
    tally = if w.warmed_up then count_success lat w.tally else w.tally;
  }

  unfoldable pub worker_round : Round → Worker → Worker
  unfolding note_write ceiling_request
  worker_round r w =
      note_write r.call.latency (r.call.answer (ceiling_request gvk id w.write_num))
        (record w { warmed_up = w.warmed_up || ltb warm_up_end r.check_now })

  unfoldable pub worker_rounds : List Round → Worker → Worker
  unfolding worker_round
  worker_rounds [] w = w
  worker_rounds (r ∷ rs) w =
      let rest = worker_rounds rs (worker_round r w) in if ltb r.loop_now deadline then rest else w

-- A worker that gets no connection counts one error.
unfoldable pub run_worker : (WriteError → Bool) → Text → ℕ → ℕ → ℕ → ℕ → Option (List Round) → Tally
unfolding worker_rounds
run_worker is_serialization gvk id start warm_up duration none = record no_tally {
  other_errors = 1;
}
run_worker is_serialization gvk id start warm_up duration (some rs) =
    (worker_rounds is_serialization gvk id (start + warm_up) (start + duration) rs
      (record { write_num = 0; warmed_up = warm_up == 0; tally = no_tally })).tally

unfoldable pub gather : List Tally → Tally
gather [] = no_tally
gather (t ∷ ts) =
    let rest = gather ts in
    record {
      latencies = t.latencies ++ rest.latencies;
      writes = t.writes + rest.writes;
      ser_failures = t.ser_failures + rest.ser_failures;
      other_errors = t.other_errors + rest.other_errors;
    }

unfoldable pub measured : ℕ → ℕ → ℕ
measured warm_up duration = if ltb warm_up duration then duration - warm_up else duration

-- 0.50, 0.99 and 0.999
pub record Quantiles (F : Type 0) : Type 0 where
  pub half : F
  pub most : F
  pub nearly_all : F

module _ {F : Type 0} (fl : Floats F) (qs : Quantiles F) where
  unfoldable pub ceiling_passed : F → ℤ → F → ℕ → ℕ → List Text → Bool
  unfolding exceeds
  ceiling_passed target_rps target_p99 rps p99 ser violations =
      not (fl.below fl.nought target_rps && fl.below rps target_rps)
      && not (exceeds target_p99 p99)
      && ser == 0
      && is_empty violations

  -- What a single run makes of its workers' results and the verifier's violations.
  unfoldable pub ceiling_result : F → ℤ → ℕ → ℕ → ℕ → List Tally → List Text → PhaseResult F
  unfolding gather measured ceiling_passed percentile sort
  ceiling_result target_rps target_p99 warm_up duration elapsed ts violations =
      let all = gather ts in
      let sorted = sort all.latencies in
      let rps = fl.over (fl.of_int all.writes) (fl.seconds (measured warm_up duration)) in
      let p99 = percentile fl qs.most sorted in
      record {
        name = codes "phase1_ceiling";
        passed = ceiling_passed target_rps target_p99 rps p99 all.ser_failures violations;
        duration = elapsed;
        total_writes = all.writes;
        rps = rps;
        p50 = percentile fl qs.half sorted;
        p99 = p99;
        p999 = percentile fl qs.nearly_all sorted;
        errors = error_counts all.ser_failures all.other_errors;
        verifier_violations = violations;
        sweep = [];
        baseline = none;
      }

unfoldable pub sum_errors : List (Text × ℕ) → ℕ
sum_errors [] = 0
sum_errors ((k, n) ∷ es) = n + sum_errors es

-- The variables of the runs with one count of workers.
pub record Runs (F : Type 0) : Type 0 where
  pub rps_values : List F
  pub best_result : Option (PhaseResult F)
  pub total_errors : ℕ
  pub total_duration : ℕ
  pub all_passed : Bool

-- The variables of the sweep.
pub record Sweep (F : Type 0) : Type 0 where
  pub entries : List (SweepEntry F)
  pub best_rps : F
  pub all_passed : Bool
  pub total_duration : ℕ

-- A nil result is read: Go panics. Else the error of a run ends the sweep.
pub data SweepError : Type 0 where
  run_failed nil_result : SweepError

module _ {F : Type 0} (fl : Floats F) where
  unfoldable pub better : Option (PhaseResult F) → PhaseResult F → PhaseResult F
  better none r = r
  better (some b) r = if fl.below b.rps r.rps then r else b

  unfoldable pub note_run : PhaseResult F → Runs F → Runs F
  unfolding better sum_errors
  note_run r s = record {
    rps_values = s.rps_values ++ r.rps ∷ [];
    best_result = some (better s.best_result r);
    total_errors = s.total_errors + sum_errors r.errors;
    total_duration = s.total_duration + r.duration;
    all_passed = if r.passed then s.all_passed else false;
  }

  unfoldable pub note_runs : List (Option (PhaseResult F)) → Runs F → Outcome SweepError (Runs F)
  unfolding note_run
  note_runs [] s = ok s
  note_runs (some r ∷ rs) s = note_runs rs (note_run r s)
  note_runs (none ∷ rs) s = err run_failed

  abbrev pub sweep_entry : ℕ → ℕ → Runs F → PhaseResult F → SweepEntry F
  sweep_entry workers runs s best = record {
    workers = workers;
    rps = mean fl s.rps_values;
    rps_std_dev = stddev fl s.rps_values;
    p50 = best.p50;
    p99 = best.p99;
    p999 = best.p999;
    error_count = s.total_errors;
    runs = runs;
  }

  -- After the runs with one count of workers.
  unfoldable pub note_entry : ℕ → ℕ → Sweep F → Runs F → Outcome SweepError (Sweep F)
  unfolding mean stddev
  note_entry workers runs w s = elim s.best_result [
    | none ↦ err nil_result
    | some best ↦ ok (record {
      entries = w.entries ++ sweep_entry workers runs s best ∷ [];
      best_rps =
          if fl.below w.best_rps (mean fl s.rps_values) then mean fl s.rps_values else w.best_rps;
      all_passed = s.all_passed;
      total_duration = s.total_duration;
    })
  ]

  -- Each count of workers with the results of its runs: `none` if the connection, the truncation, the
  -- seeding or the run has an error.
  unfoldable pub sweep_on :
      ℕ → List (ℕ × List (Option (PhaseResult F))) → Sweep F → Outcome SweepError (Sweep F)
  unfolding note_runs note_entry
  sweep_on runs [] w = ok w
  sweep_on runs ((workers, rs) ∷ more) w = do
    s ← note_runs rs (record {
      rps_values = [];
      best_result = none;
      total_errors = 0;
      total_duration = w.total_duration;
      all_passed = w.all_passed;
    })
    w' ← note_entry workers runs w s
    sweep_on runs more w'

  unfoldable pub run_sweep :
      ℕ → List (ℕ × List (Option (PhaseResult F))) → Outcome SweepError (PhaseResult F)
  unfolding sweep_on
  run_sweep runs sweep = do
    w ←
        sweep_on runs sweep
          (record { entries = []; best_rps = fl.nought; all_passed = true; total_duration = 0 })
    ok (record (blank_result fl (codes "phase1_ceiling") w.all_passed) {
      duration = w.total_duration;
      rps = w.best_rps;
      sweep = w.entries;
    })
