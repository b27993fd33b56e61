-- ===== src/LoadTest/Baseline.antt =====
-- loadtest/cmd/loadtest/phase0_baseline.go: the loops that it times, over the table, and the difference of
-- two snapshots of pg_stat_statements.
pub mod Arms
use postgres_controller_back.Base.{
  ℕ, zero, suc, ◌+◌, ◌-◌, Bool, true, false, Option, none, some, List, [], ◌∷◌, ◌++◌, ltb, leb,
  if◌then◌else◌, Outcome, ok, err, min,
}
use postgres_controller_back.Base.Text.{Text, codes, text_eq}
use postgres_controller_back.Json.{Json, bool, obj, member, end}
use postgres_controller_back.Strconv.{format_uint}
use postgres_controller_back.Model.{WriteRequest, WriteResult}
use postgres_controller_back.Writer.Params.{WriteParams, PgError, Draw, Reply}
use postgres_controller_back.Writer.Proc.{pgctl_write}
use postgres_controller_back.Writer.Client.{WriteError, World, Link}
use postgres_controller_back.Writer.Multi.{no_fault, write_params}
use postgres_controller_back.Writer.Entry.{write}
use postgres_controller_back.Writer.Plain.{plain_writer}
use postgres_controller_back.Table.{Table}
use postgres_controller_back.LoadTest.Floats.{Floats}
use postgres_controller_back.LoadTest.Report.{PgStatEntry}
use postgres_controller_back.LoadTest.Traffic.{Attempt, phase_request}

pub data BaselineError : Type 0 where
  connect_failed truncate_failed set_failed : BaselineError
  write_failed : ℕ → WriteError → BaselineError
  sproc_begin_failed sproc_commit_failed : ℕ → BaselineError
  sproc_call_failed : ℕ → PgError → BaselineError

-- `{"phase0": true}`
abbrev pub phase0_spec : Json
phase0_spec = obj (member (codes "phase0") (bool true) end)

unfoldable pub baseline_request : Text → Text → ℕ → WriteRequest
unfolding phase_request
baseline_request gvk namespace i =
    phase_request gvk namespace (codes "p0-" ++ namespace ++ codes "-" ++ format_uint i) phase0_spec

abbrev pub plus_latency : ℕ → List ℕ × World → List ℕ × World
plus_latency l (ls, w) = (l ∷ ls, w)

abbrev pub map_ok : {E A B : Type 0} → (A → B) → Outcome E A → Outcome E B
map_ok f (ok a) = ok (f a)
map_ok f (err e) = err e

module _ (round : Text → Text) where
  -- The loop of `runSingleThreadedWrites` and `runWritesWithLatencies`: the first error ends it.
  unfoldable pub single_writes :
      (ℕ → WriteRequest) → ℕ → List Attempt → World → Outcome BaselineError (List ℕ × World)
  single_writes request i [] w = ok ([], w)
  single_writes request i (a ∷ more) w =
      let (r, w') = write round (plain_writer a.link) a.draw (request i) w in
      elim r [
        | ok x ↦ map_ok (plus_latency a.latency) (single_writes request (i + 1) more w')
        | err e ↦ err (write_failed i e)
      ]

  -- Whether the connection, the TRUNCATE and, where it is asked for, the SET succeed.
  pub record Session : Type 0 where
    pub connects : Bool
    pub truncates : Bool
    pub sets : Bool

  unfoldable pub run_single_threaded_writes :
      Session → Bool → Text → Text → List Attempt → World → Outcome BaselineError (List ℕ × World)
  unfolding single_writes baseline_request
  run_single_threaded_writes s sets_mode gvk namespace attempts w =
      if s.connects
      then (if s.truncates
          then (if sets_mode
              then (if s.sets
                  then single_writes (baseline_request gvk namespace) 0 attempts
                      (record w { table = [] })
                  else err set_failed)
              else single_writes (baseline_request gvk namespace) 0 attempts
                  (record w { table = [] }))
          else err truncate_failed)
      else err connect_failed

-- A transaction of the stored procedure's arm: whether BEGIN and COMMIT succeed.
pub record SprocAttempt : Type 0 where
  pub draw : Draw
  pub begins : Bool
  pub commits : Bool
  pub latency : ℕ

unfoldable pub sproc_params : Text → ℕ → WriteParams
unfolding phase_request
sproc_params gvk i =
    write_params
      (phase_request gvk (codes "phase0-sproc") (codes "p0-sproc-" ++ format_uint i) phase0_spec)

abbrev pub plus_sproc_latency : ℕ → List ℕ × Table → List ℕ × Table
plus_sproc_latency l (ls, t) = (l ∷ ls, t)

-- The loop over `pgctl_write` of `measureStoredProcComparison`.
unfoldable pub sproc_writes :
    (ℕ → WriteParams) → ℕ → List SprocAttempt → Table → Outcome BaselineError (List ℕ × Table)
sproc_writes params i [] t = ok ([], t)
sproc_writes params i (a ∷ more) t =
    if a.begins
    then elim (pgctl_write a.draw (params i) t) [
      | err e ↦ err (sproc_call_failed i e)
      | ok (reply, t') ↦
          if a.commits
          then map_ok (plus_sproc_latency a.latency) (sproc_writes params (i + 1) more t')
          else err (sproc_commit_failed i)
    ]
    else err (sproc_begin_failed i)

-- A row of pg_stat_statements, under its query.
pub record PgStatRow (F : Type 0) : Type 0 where
  pub calls : ℕ
  pub total_time : F

module _ {F : Type 0} (fl : Floats F) where
  unfoldable pub stat_of : Text → List (Text × PgStatRow F) → PgStatRow F
  stat_of q [] = record { calls = 0; total_time = fl.nought }
  stat_of q ((k, r) ∷ rs) = if text_eq k q then r else stat_of q rs

  abbrev pub stat_delta : Text → PgStatRow F → PgStatRow F → PgStatEntry F
  stat_delta q b a = record {
    query = q;
    calls = a.calls - b.calls;
    mean_time_ms = fl.over (fl.minus a.total_time b.total_time) (fl.of_int (a.calls - b.calls));
    total_time_ms = fl.minus a.total_time b.total_time;
  }

  -- Queries without a new call are left out.
  unfoldable pub stat_deltas :
      List (Text × PgStatRow F) → List (Text × PgStatRow F) → List (PgStatEntry F)
  unfolding stat_of
  stat_deltas before [] = []
  stat_deltas before ((q, a) ∷ after) =
      let rest = stat_deltas before after in
      if leb a.calls (stat_of q before).calls
      then rest
      else stat_delta q (stat_of q before) a ∷ rest

  unfoldable pub insert_by_total : PgStatEntry F → List (PgStatEntry F) → List (PgStatEntry F)
  insert_by_total e [] = e ∷ []
  insert_by_total e (x ∷ xs) =
      let rest = insert_by_total e xs in
      if fl.below e.total_time_ms x.total_time_ms then x ∷ rest else e ∷ x ∷ xs

  unfoldable pub sort_by_total : List (PgStatEntry F) → List (PgStatEntry F)
  unfolding insert_by_total
  sort_by_total [] = []
  sort_by_total (e ∷ es) = insert_by_total e (sort_by_total es)

  unfoldable pub diff_pg_stat :
      List (Text × PgStatRow F) → List (Text × PgStatRow F) → List (PgStatEntry F)
  unfolding stat_deltas sort_by_total
  diff_pg_stat before after = sort_by_total (stat_deltas before after)

  -- `round_trip_savings_pct`; `one` and `hundred` are 1.0 and 100.
  unfoldable pub round_trip_savings : F → F → ℕ → ℕ → F
  round_trip_savings one hundred go_p50 sproc_p50 =
      if ltb 0 go_p50
      then fl.times (fl.minus one (fl.over (fl.of_int sproc_p50) (fl.of_int go_p50))) hundred
      else fl.nought
