-- ===== src/Runtime/Errors.antt =====
-- pkg/pgruntime/errors.go: the API errors, and the fate of a commit in doubt.
use postgres_controller_back.Base.{
  ◌≡◌, Bool, true, Option, none, some, if◌then◌else◌, Outcome, ok, err,
}
use postgres_controller_back.Model.{Resource}
use postgres_controller_back.Table.{Table}
use postgres_controller_back.Writer.Params.{WriteParams, Draw}
use postgres_controller_back.Writer.Client.{
  WriteError, err_conflict, err_already_exists, err_version_required, err_pg, err_ambiguous,
  err_stage, AmbiguousCommit, World, Link, call_stored_proc, read_back,
}
use postgres_controller_back.Writer.Ambiguity.{IsStamped, read_back_never_confirms}

pub data ApiError : Type 0 where
  not_found already_exists conflict : ApiError
  dry_run_not_supported propagation_policy_not_supported preconditions_not_supported : ApiError
  grace_period_not_supported generate_name_not_supported bad_resource_version : ApiError
  read_back_failed not_decodable : ApiError
  write_failed : WriteError → ApiError

pub record DeleteOptions : Type 0 where
  pub dry_run : Bool
  pub propagation_policy : Bool
  pub preconditions : Bool
  pub grace_period_seconds : Bool

-- A field of the options is true where the caller set it.
unfoldable pub reject_unsupported_delete_opts : DeleteOptions → Option ApiError
reject_unsupported_delete_opts o =
    if o.dry_run
    then some dry_run_not_supported
    else if o.propagation_policy
    then some propagation_policy_not_supported
    else if o.preconditions
    then some preconditions_not_supported
    else if o.grace_period_seconds
    then some grace_period_not_supported
    else none

abbrev pub landed_row : Option Resource → Outcome ApiError Resource
landed_row none = err conflict
landed_row (some r) = ok r

-- `mapWriteError`: an error for the caller, or the row that a commit in doubt turns out to have left.
-- `readable` says whether the read-back's query succeeds.
unfoldable pub map_write_error : Bool → WriteError → Table → Outcome ApiError Resource
map_write_error readable err_already_exists t = err already_exists
map_write_error readable err_conflict t = err conflict
map_write_error readable (err_ambiguous a) t =
    if readable then landed_row (read_back a.key a.txid t) else err read_back_failed
map_write_error readable err_version_required t = err (write_failed err_version_required)
map_write_error readable (err_pg e) t = err (write_failed (err_pg e))
map_write_error readable (err_stage s) t = err (write_failed (err_stage s))

-- Of a commit in doubt the client always reports a conflict, also where the write took effect: the
-- stored procedure's path does not know the id to look for.
pub doubt_is_conflict :
    (doorbell : Bool) (link : Link) (d : Draw) (p : WriteParams) (w : World) (t : Table)
    {a : AmbiguousCommit}
    → (call_stored_proc doorbell link d p w).0 ≡ err (err_ambiguous a)
    → IsStamped t
    → map_write_error true (err_ambiguous a) t ≡ err conflict
unfolding map_write_error
doubt_is_conflict doorbell link d p w t h s =
    rw (read_back_never_confirms doorbell link d p w t h s)
