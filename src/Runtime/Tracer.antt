-- ===== src/Runtime/Tracer.antt =====
-- pkg/pgruntime/tracer.go: queries that take a threshold or longer are logged. Times are in nanoseconds; a
-- context is what `TraceQueryStart` has left in it.
use postgres_controller_back.Base.{ℕ, ◌-◌, Option, none, some, List, [], ◌∷◌, ltb, if◌then◌else◌}
use postgres_controller_back.Base.Text.{Text}

pub record TraceData : Type 0 where
  pub start : ℕ
  pub sql : Text

-- The attributes of "slow query".
pub record SlowQuery : Type 0 where
  pub pg_pid : ℕ
  pub duration : ℕ
  pub sql : Text
  pub error : Option Text

unfoldable pub trace_query_start : ℕ → Text → Option TraceData
trace_query_start now sql = some (record { start = now; sql = sql })

-- The lines that are logged when a query ends.
unfoldable pub trace_query_end : ℕ → ℕ → ℕ → Option Text → Option TraceData → List SlowQuery
trace_query_end threshold now pid error none = []
trace_query_end threshold now pid error (some d) =
    if ltb (now - d.start) threshold
    then []
    else record { pg_pid = pid; duration = now - d.start; sql = d.sql; error = error } ∷ []
