-- ===== src/LoadTest/Checkpoint.antt =====
-- loadtest/cmd/loadtest/checkpoint.go: the writer of checkpoints. encoding/json and the disk are given
-- to `write_checkpoint`; its log lines are left out.
use postgres_controller_back.Base.{
  ℕ, ◌-◌, Bool, true, false, Option, none, some, List, [], ◌∷◌, ◌++◌, if◌then◌else◌, Outcome, ok,
  err,
}
use postgres_controller_back.Base.Text.{Text}
use postgres_controller_back.LoadTest.Report.{PhaseResult}

pub record PhaseProgress (F : Type 0) : Type 0 where
  pub name : Text
  pub started_at : ℕ
  pub elapsed : ℕ
  pub total_writes : ℕ
  pub current_rps : F
  pub errors : List (Text × ℕ)

pub record Checkpoint (F : Type 0) : Type 0 where
  pub timestamp : ℕ
  pub elapsed : ℕ
  pub spec_name : Text
  pub completed_phases : List (PhaseResult F)
  pub current_phase : Option (PhaseProgress F)
  pub all_passed_so_far : Bool

pub record CheckpointWriter (F : Type 0) : Type 0 where
  pub spec_name : Text
  pub start_time : ℕ
  pub completed_phases : List (PhaseResult F)
  pub current_phase : Option (PhaseProgress F)
  pub all_passed_so_far : Bool
  pub path : Text

pub data CheckpointError : Type 0 where
  marshal_error write_error : CheckpointError

module _ {F : Type 0} where
  unfoldable pub new_checkpoint_writer : ℕ → Text → Text → CheckpointWriter F
  new_checkpoint_writer now spec path = record {
    spec_name = spec;
    start_time = now;
    completed_phases = [];
    current_phase = none;
    all_passed_so_far = true;
    path = path;
  }

  unfoldable pub record_phase_complete : PhaseResult F → CheckpointWriter F → CheckpointWriter F
  record_phase_complete r w = record w {
    completed_phases = w.completed_phases ++ r ∷ [];
    all_passed_so_far = if r.passed then w.all_passed_so_far else false;
    current_phase = none;
  }

  unfoldable pub set_current_phase :
      Option (PhaseProgress F) → CheckpointWriter F → CheckpointWriter F
  set_current_phase p w = record w { current_phase = p }

  -- What `Write` takes from the writer, under its lock.
  unfoldable pub checkpoint : ℕ → CheckpointWriter F → Checkpoint F
  checkpoint now w = record {
    timestamp = now;
    elapsed = now - w.start_time;
    spec_name = w.spec_name;
    completed_phases = w.completed_phases;
    current_phase = w.current_phase;
    all_passed_so_far = w.all_passed_so_far;
  }

  -- `Write`: the text and the path that the file is written with, or where it fails.
  unfoldable pub write_checkpoint :
      (Checkpoint F → Option Text)
      → (Text → Text → Bool)
      → ℕ
      → CheckpointWriter F
      → Outcome CheckpointError (Text × Text)
  unfolding checkpoint
  write_checkpoint marshal writes now w = elim (marshal (checkpoint now w)) [
    | none ↦ err marshal_error
    | some t ↦ if writes w.path t then ok (w.path, t) else err write_error
  ]
