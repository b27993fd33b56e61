-- ===== src/Writer/Params.antt =====
-- What `pgctl_write` takes and returns: `writeParams` of internal/writer/writer.go, the errors that
-- the server raises, and the values that the server draws for one call.
use postgres_controller_back.Base.{ℕ, Bool, Option}
use postgres_controller_back.Base.Int.{ℤ}
use postgres_controller_back.Json.{Json}
use postgres_controller_back.Model.{Key}

pub record WriteParams : Type 0 where
  pub status_only : Bool
  pub key : Key
  pub expected_version : ℤ
  pub force_write : Bool
  pub spec : Option Json
  pub status : Option Json
  pub metadata : Option Json
  pub deletion_timestamp : Option ℕ

-- P0002, P0003, P0004; a NULL in a NOT NULL column (23502); a bigint out of range (22003); any other error
-- of the server, such as a statement timeout (57014)
pub data PgError : Type 0 where
  conflict already_exists status_needs_version not_null out_of_range server_error : PgError

-- pg_current_xact_id(), now() and gen_random_uuid(); `nanos` is what the caller's clock reads beyond a
-- microsecond
pub record Draw : Type 0 where
  pub txid : ℕ
  pub now : ℕ
  pub fresh_uid : ℕ
  pub nanos : ℕ

-- The row that the procedure returns.
pub record Reply : Type 0 where
  pub uid : ℕ
  pub version : ℕ
  pub txid : ℕ
  pub changed : Bool
