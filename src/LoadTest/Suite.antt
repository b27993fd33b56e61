-- ===== src/LoadTest/Suite.antt =====
-- `main` of loadtest/cmd/loadtest/main.go from the loop over the phases on: their results, the
-- checkpoints, the report and the exit code. What a phase returns is given with it.
pub mod Verdict
use postgres_controller_back.Base.{
  ℕ, ◌-◌, Bool, true, false, Option, none, some, List, [], ◌∷◌, ◌++◌, map, if◌then◌else◌, Outcome,
  ok, err,
}
use postgres_controller_back.Base.Text.{Text, codes}
use postgres_controller_back.LoadTest.Floats.{Floats}
use postgres_controller_back.LoadTest.Config.{Config}
use postgres_controller_back.LoadTest.Report.{PhaseResult, Report, blank_result}
use postgres_controller_back.LoadTest.Checkpoint.{
  PhaseProgress, Checkpoint, CheckpointWriter, new_checkpoint_writer, record_phase_complete,
  set_current_phase, checkpoint,
}

-- A phase with the time it starts, the time its checkpoint is written and the result of its `run`. The
-- ticker's goroutine writes checkpoints too: `idle_ticks` are the times when it does before the phase
-- starts and after the enabled one before it, `ticks` while it runs, and `late_ticks` between its result and
-- its own checkpoint. After the last phase the ticker ends at once.
pub record Phase (F : Type 0) : Type 0 where
  pub name : Text
  pub enabled : Bool
  pub started : ℕ
  pub idle_ticks : List ℕ
  pub ticks : List ℕ
  pub late_ticks : List ℕ
  pub noted : ℕ
  pub run : Outcome Text (PhaseResult F)

-- The variables of the loop; `checkpoints` are those that it and the ticker wrote, in their order.
pub record Suite (F : Type 0) : Type 0 where
  pub phases : List (PhaseResult F)
  pub writer : CheckpointWriter F
  pub all_passed : Bool
  pub checkpoints : List (Checkpoint F)

module _ {F : Type 0} (fl : Floats F) where
  -- A phase that returns an error counts as failed.
  unfoldable pub result_of : Phase F → PhaseResult F
  result_of p = elim p.run [
    | ok r ↦ r
    | err e ↦ record (blank_result fl p.name false) { errors = (codes "fatal", 1) ∷ [] }
  ]

  abbrev pub progress : Phase F → PhaseProgress F
  progress p = record {
    name = p.name;
    started_at = p.started;
    elapsed = 0;
    total_writes = 0;
    current_rps = fl.nought;
    errors = [];
  }

  -- The checkpoints that the ticker writes at these times.
  abbrev pub ticked : List ℕ → CheckpointWriter F → List (Checkpoint F)
  ticked ts w = map (λ t. checkpoint t w) ts

  -- One turn of the loop, for an enabled phase.
  unfoldable pub run_phase : Phase F → Suite F → Suite F
  unfolding result_of record_phase_complete set_current_phase checkpoint
  run_phase p s =
      let r = result_of p in
      let busy = set_current_phase (some (progress p)) s.writer in
      let w = record_phase_complete r busy in
      record {
        phases = s.phases ++ r ∷ [];
        writer = w;
        all_passed = if r.passed then s.all_passed else false;
        checkpoints =
            s.checkpoints
            ++ (ticked p.idle_ticks s.writer
                ++ (ticked p.ticks busy ++ (ticked p.late_ticks w ++ checkpoint p.noted w ∷ [])));
      }

  unfoldable pub run_phases : List (Phase F) → Suite F → Suite F
  unfolding run_phase
  run_phases [] s = s
  run_phases (p ∷ ps) s = run_phases ps (if p.enabled then run_phase p s else s)

  -- The loop's variables before it, with the writer that `main` makes at `now`.
  unfoldable pub new_suite : ℕ → Text → Config F → Suite F
  unfolding new_checkpoint_writer
  new_suite now path c = record {
    phases = [];
    writer = new_checkpoint_writer now c.metadata.name path;
    all_passed = true;
    checkpoints = [];
  }

  -- The report and the exit code.
  unfoldable pub conclude : ℕ → ℕ → Config F → Suite F → Report F × ℕ
  conclude start end c s = (
    record {
      spec_name = c.metadata.name;
      description = c.metadata.description;
      start_time = start;
      end_time = end;
      duration = end - start;
      all_passed = s.all_passed;
      phases = s.phases;
    },
    if s.all_passed then 0 else 1,
  )
