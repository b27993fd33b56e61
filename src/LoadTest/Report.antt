-- ===== src/LoadTest/Report.antt =====
-- The results of loadtest/cmd/loadtest/reporter.go. Durations are in nanoseconds; a violation is its
-- text; a map of errors is the list of its entries.
use postgres_controller_back.Base.{ℕ, Bool, Option, none, List, []}
use postgres_controller_back.Base.Text.{Text}
use postgres_controller_back.LoadTest.Floats.{Floats}

pub record SweepEntry (F : Type 0) : Type 0 where
  pub workers : ℕ
  pub rps : F
  pub rps_std_dev : F
  pub p50 : ℕ
  pub p99 : ℕ
  pub p999 : ℕ
  pub error_count : ℕ
  pub runs : ℕ

pub record PgStatEntry (F : Type 0) : Type 0 where
  pub query : Text
  pub calls : ℕ
  pub mean_time_ms : F
  pub total_time_ms : F

pub record BaselineResult (F : Type 0) : Type 0 where
  pub ping_p50 : ℕ
  pub ping_p99 : ℕ
  pub ping_p999 : ℕ
  pub sync_commit_rps : F
  pub async_commit_rps : F
  pub sync_commit_p50 : ℕ
  pub async_commit_p50 : ℕ
  pub go_writer_rps : F
  pub go_writer_p50 : ℕ
  pub go_writer_p99 : ℕ
  pub stored_proc_rps : F
  pub stored_proc_p50 : ℕ
  pub stored_proc_p99 : ℕ
  pub round_trip_savings : F
  pub pg_stat_entries : List (PgStatEntry F)

pub record PhaseResult (F : Type 0) : Type 0 where
  pub name : Text
  pub passed : Bool
  pub duration : ℕ
  pub total_writes : ℕ
  pub rps : F
  pub p50 : ℕ
  pub p99 : ℕ
  pub p999 : ℕ
  pub errors : List (Text × ℕ)
  pub verifier_violations : List Text
  pub sweep : List (SweepEntry F)
  pub baseline : Option (BaselineResult F)

-- The zero value, with a name and a verdict.
abbrev pub blank_result : {F : Type 0} → Floats F → Text → Bool → PhaseResult F
blank_result fl n b = record {
  name = n;
  passed = b;
  duration = 0;
  total_writes = 0;
  rps = fl.nought;
  p50 = 0;
  p99 = 0;
  p999 = 0;
  errors = [];
  verifier_violations = [];
  sweep = [];
  baseline = none;
}

pub record Report (F : Type 0) : Type 0 where
  pub spec_name : Text
  pub description : Text
  pub start_time : ℕ
  pub end_time : ℕ
  pub duration : ℕ
  pub all_passed : Bool
  pub phases : List (PhaseResult F)
