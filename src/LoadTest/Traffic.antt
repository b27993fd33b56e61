-- ===== src/LoadTest/Traffic.antt =====
-- What the phases of loadtest/cmd/loadtest share: the requests, and how the outcome of a write is counted.
-- `is_serialization` is `isSerializationFailure`, a test on the text of an error.
use postgres_controller_back.Base.{
  ℕ, ◌+◌, ◌/◌, Bool, true, false, ◌&&◌, some, none, List, [], ◌∷◌, ◌++◌, ltb, if◌then◌else◌,
  Outcome, ok, err,
}
use postgres_controller_back.Base.Int.{ℤ, pos, negsuc}
use postgres_controller_back.Base.Text.{Text, codes}
use postgres_controller_back.Json.{Json, obj, end}
use postgres_controller_back.Model.{WriteRequest, WriteResult}
use postgres_controller_back.Writer.Params.{Draw}
use postgres_controller_back.Writer.Client.{WriteError, Link}

-- A create with empty status and metadata.
unfoldable pub phase_request : Text → Text → Text → Json → WriteRequest
phase_request gvk namespace name spec = record {
  key = record { gvk = gvk; namespace = namespace; name = name };
  spec = some spec;
  status = some (obj end);
  metadata = some (obj end);
  deletion_timestamp = none;
  deletion_nanos = 0;
  expected_version = pos 0;
  force_write = false;
}

-- A write of a phase: what the writer answers to the request, and how long it takes.
pub record Call : Type 0 where
  pub answer : WriteRequest → Outcome WriteError WriteResult
  pub latency : ℕ

-- What the server and the connection do in one write, and how long it takes.
pub record Attempt : Type 0 where
  pub draw : Draw
  pub link : Link
  pub latency : ℕ

-- The latencies and counters of a phase.
pub record Tally : Type 0 where
  pub latencies : List ℕ
  pub writes : ℕ
  pub ser_failures : ℕ
  pub other_errors : ℕ

abbrev pub no_tally : Tally
no_tally = record { latencies = []; writes = 0; ser_failures = 0; other_errors = 0 }

unfoldable pub count_success : ℕ → Tally → Tally
count_success lat t = record t { latencies = t.latencies ++ lat ∷ []; writes = t.writes + 1 }

unfoldable pub count_failure : Bool → Tally → Tally
count_failure serialization t =
    if serialization
    then record t { ser_failures = t.ser_failures + 1 }
    else record t { other_errors = t.other_errors + 1 }

unfoldable pub count_call : (WriteError → Bool) → ℕ → Outcome WriteError WriteResult → Tally → Tally
unfolding count_success count_failure
count_call is_serialization lat (ok r) t = count_success lat t
count_call is_serialization lat (err e) t = count_failure (is_serialization e) t

-- `target > 0 && d.Milliseconds() > int64(target)`
unfoldable pub exceeds : ℤ → ℕ → Bool
exceeds (pos n) d = ltb 0 n && ltb n (d / 1_000_000)
exceeds (negsuc n) d = false

abbrev pub is_empty {ℓ} : {A : Type ℓ} → List A → Bool
is_empty [] = true
is_empty (_ ∷ _) = false

-- `return PhaseResult.Errors` of the phases that write.
abbrev pub error_counts : ℕ → ℕ → List (Text × ℕ)
error_counts ser other = (codes "serialization", ser) ∷ (codes "other", other) ∷ []
