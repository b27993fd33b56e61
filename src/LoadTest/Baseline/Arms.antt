-- ===== src/LoadTest/Baseline/Arms.antt =====
-- What the two arms of the comparison do, and what the timed loops leave in the table.
use postgres_controller_back.Base.{ℕ, true, List, Outcome, ok, err}
use postgres_controller_back.Base.Text.{Text}
use postgres_controller_back.Table.{Table}
use postgres_controller_back.Writer.Params.{Draw}
use postgres_controller_back.Writer.Client.{World, up, map_stored_proc_error}
use postgres_controller_back.LoadTest.Baseline.{
  Attempt, SprocAttempt, BaselineError, write_failed, sproc_call_failed,
}

-- A draw and a latency, as both arms meet it where nothing fails.
pub record Trial : Type 0 where
  pub draw : Draw
  pub latency : ℕ

abbrev pub as_write : Trial → Attempt
as_write a = record { draw = a.draw; link = up; latency = a.latency }

abbrev pub as_call : Trial → SprocAttempt
as_call a = record { draw = a.draw; begins = true; commits = true; latency = a.latency }

-- The same, but that the writer maps the procedure's error.
abbrev pub mapped : BaselineError → BaselineError
mapped (sproc_call_failed i e) = write_failed i (map_stored_proc_error e)
mapped e = e

abbrev pub arm :
    World → Outcome BaselineError (List ℕ × Table) → Outcome BaselineError (List ℕ × World)
arm w (ok (ls, t)) = ok (ls, record w { table = t })
arm w (err e) = err (mapped e)
