-- ===== src/LoadTest/Steady.antt =====
-- loadtest/cmd/loadtest/phase2_steady.go and phase2b_skew.go: the loop that sends jobs at a rate, with
-- bursts in the first of them, the pool of four writers that takes them, and the verdicts. Times are in
-- nanoseconds since the start of the phase, on a clock that does not go back.
pub mod Bursts
pub mod Stalls
use postgres_controller_back.Base.{
  ℕ, zero, suc, ◌+◌, ◌-◌, ◌*◌, ◌≡◌, Bool, true, false, not, ◌&&◌, Option, none, some, List, [], ◌∷◌,
  ◌++◌, length, leb, ltb, if◌then◌else◌, Outcome, ok, err,
}
use postgres_controller_back.Base.Int.{ℤ}
use postgres_controller_back.Base.Text.{Text, codes}
use postgres_controller_back.Json.{num, obj, member, end}
use postgres_controller_back.Strconv.{format_uint}
use postgres_controller_back.Model.{WriteRequest, WriteResult}
use postgres_controller_back.Writer.Client.{WriteError}
use postgres_controller_back.Verifier.Percentile.{sort}
use postgres_controller_back.LoadTest.Floats.{Floats, percentile}
use postgres_controller_back.LoadTest.Report.{PhaseResult}
use postgres_controller_back.LoadTest.Ceiling.{Quantiles}
use postgres_controller_back.LoadTest.Traffic.{
  Call, Tally, no_tally, phase_request, count_call, exceeds, is_empty, error_counts,
}

abbrev pub burst_duration : ℕ
burst_duration = 10 * 1_000_000_000

abbrev pub burst_interval : ℕ
burst_interval = 300 * 1_000_000_000

-- `make(chan writeJob, numWriters*10)`
abbrev pub job_capacity : ℕ
job_capacity = 40

-- The variables of the loop; `jobs` are the numbers of the jobs that it sent.
pub record Pacer (F : Type 0) : Type 0 where
  pub current_rps : F
  pub last_burst_start : ℕ
  pub in_burst : Bool
  pub write_counter : ℕ
  pub jobs : List ℕ

-- A turn: when the loop's condition and `now` are read, how many jobs the writers have taken by then,
-- and whether the select takes the context's case.
pub record Tick : Type 0 where
  pub loop_now : ℕ
  pub now : ℕ
  pub taken : ℕ
  pub ctx_done : Bool

-- The loop goes on or ends; or its select waits for good, until a writer takes a job.
pub data Paced (F : Type 0) : Type 0 where
  goes_on ended blocked : Pacer F → Paced F

unfoldable pub pace_on : {F : Type 0} → (Pacer F → Paced F) → Paced F → Paced F
pace_on f (goes_on p) = f p
pace_on f (ended p) = ended p
pace_on f (blocked p) = blocked p

module _ {F : Type 0} (fl : Floats F) where
  -- "Decide if we should be in burst mode."
  unfoldable pub decide_burst : F → F → ℕ → Pacer F → Pacer F
  decide_burst target burst now p =
      if fl.below fl.nought burst
      then (if p.in_burst && leb burst_duration (now - p.last_burst_start)
          then record p { in_burst = false; current_rps = target }
          else if not p.in_burst && leb burst_interval (now - p.last_burst_start)
          then record p { in_burst = true; last_burst_start = now; current_rps = burst }
          else p)
      else p

  -- The select between the job channel and the context.
  unfoldable pub send_job : Tick → Pacer F → Paced F
  send_job t p =
      if ltb (length p.jobs - t.taken) job_capacity
      then (if t.ctx_done
          then ended p
          else goes_on (record p {
            write_counter = p.write_counter + 1;
            jobs = p.jobs ++ p.write_counter ∷ [];
          }))
      else if t.ctx_done
      then ended p
      else blocked p

  -- Without a rate the loop sleeps and goes on.
  unfoldable pub send_at_rate : Tick → Pacer F → Paced F
  unfolding send_job
  send_at_rate t p = if fl.below fl.nought p.current_rps then send_job t p else goes_on p

  unfoldable pub pace : F → F → ℕ → Tick → Pacer F → Paced F
  unfolding decide_burst send_at_rate
  pace target burst until t p =
      if ltb t.loop_now until then send_at_rate t (decide_burst target burst t.now p) else ended p

  unfoldable pub pace_all : F → F → ℕ → List Tick → Pacer F → Paced F
  unfolding pace pace_on
  pace_all target burst until [] p = goes_on p
  pace_all target burst until (t ∷ ts) p =
      pace_on (pace_all target burst until ts) (pace target burst until t p)

  unfoldable pub new_pacer : F → Pacer F
  new_pacer target = record {
    current_rps = target;
    last_burst_start = 0;
    in_burst = false;
    write_counter = 0;
    jobs = [];
  }

  -- The loop of the skew phase: one rate, no bursts.
  unfoldable pub skew_pace : ℕ → Tick → Pacer F → Paced F
  unfolding send_at_rate
  skew_pace until t p = if ltb t.loop_now until then send_at_rate t p else ended p

unfoldable pub steady_request : Text → ℕ → WriteRequest
unfolding phase_request
steady_request gvk n =
    phase_request gvk (codes "phase2") (codes "p2-r" ++ format_uint n)
      (obj (member (codes "n") (num (format_uint n)) end))

unfoldable pub skew_request : Text → ℕ → WriteRequest
unfolding phase_request
skew_request gvk n =
    phase_request gvk (codes "phase2b") (codes "p2b-r" ++ format_uint n)
      (obj (member (codes "n") (num (format_uint n)) end))

-- The pool: each job is taken by one of the writers, and the counters are shared. `request` is one of
-- the two above.
unfoldable pub do_jobs : (WriteError → Bool) → (ℕ → WriteRequest) → List (ℕ × Call) → Tally → Tally
unfolding count_call
do_jobs is_serialization request [] t = t
do_jobs is_serialization request ((n, c) ∷ js) t =
    do_jobs is_serialization request js
      (count_call is_serialization c.latency (c.answer (request n)) t)

module _ {F : Type 0} (fl : Floats F) (qs : Quantiles F) where
  -- `slack` is 0.95.
  unfoldable pub steady_passed : F → F → ℤ → F → ℕ → List Text → Bool
  unfolding exceeds
  steady_passed slack target_rps target_p50 rps p50 violations =
      not (fl.below fl.nought target_rps && fl.below rps (fl.times target_rps slack))
      && not (exceeds target_p50 p50)
      && is_empty violations

  unfoldable pub steady_result : F → F → ℤ → ℕ → Tally → List Text → PhaseResult F
  unfolding steady_passed percentile sort
  steady_result slack target_rps target_p50 elapsed t violations =
      let rps = fl.over (fl.of_int t.writes) (fl.seconds elapsed) in
      let p50 = percentile fl qs.half (sort t.latencies) in
      record {
        name = codes "phase2_steady";
        passed = steady_passed slack target_rps target_p50 rps p50 violations;
        duration = elapsed;
        total_writes = t.writes;
        rps = rps;
        p50 = p50;
        p99 = percentile fl qs.most (sort t.latencies);
        p999 = percentile fl qs.nearly_all (sort t.latencies);
        errors = error_counts t.ser_failures t.other_errors;
        verifier_violations = violations;
        sweep = [];
        baseline = none;
      }

  -- The skew phase passes if the verifier saw nothing.
  unfoldable pub skew_result : ℕ → Tally → List Text → PhaseResult F
  unfolding percentile sort
  skew_result elapsed t violations = record {
    name = codes "phase2b_skew";
    passed = is_empty violations;
    duration = elapsed;
    total_writes = t.writes;
    rps = fl.over (fl.of_int t.writes) (fl.seconds elapsed);
    p50 = percentile fl qs.half (sort t.latencies);
    p99 = percentile fl qs.most (sort t.latencies);
    p999 = percentile fl qs.nearly_all (sort t.latencies);
    errors = error_counts t.ser_failures t.other_errors;
    verifier_violations = violations;
    sweep = [];
    baseline = none;
  }
