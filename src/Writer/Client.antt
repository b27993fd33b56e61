-- ===== src/Writer/Client.antt =====
-- The Writer of internal/writer/writer.go over the stored procedure, and `ReadBack`. The wrapping
-- texts of errors are not modelled; the kind of each error is.
use postgres_controller_back.Base.{
  ℕ, Bool, true, false, Option, none, some, List, [], ◌∷◌, ◌++◌, ◌==◌, if◌then◌else◌, Outcome, ok,
  err,
}
use postgres_controller_back.Base.Text.{Text}
use postgres_controller_back.Model.{Key, Resource, WriteResult}
use postgres_controller_back.Table.{Table, find}
use postgres_controller_back.Writer.Params.{WriteParams, PgError, Draw, Reply}
use postgres_controller_back.Writer.Proc.{pgctl_write}

-- The statements of the callbacks of the multi-statement path.
pub data Statement : Type 0 where
  savepoint insert rollback_savepoint revival update : Statement

-- Where a write transaction of the multi-statement path failed, when no write is in doubt.
pub data Stage : Type 0 where
  begin read_existing commit_suppressed txid_acquire hook : Stage
  statement : Statement → Stage

-- `AmbiguousCommitError`, without its cause.
pub record AmbiguousCommit : Type 0 where
  pub key : Key
  pub txid : ℕ

pub data WriteError : Type 0 where
  err_conflict err_already_exists err_version_required : WriteError
  err_pg : PgError → WriteError
  err_ambiguous : AmbiguousCommit → WriteError
  err_stage : Stage → WriteError

-- What a writer's calls can change: the table, and the doorbells that were rung.
pub record World : Type 0 where
  pub table : Table
  pub rung : List Text

-- How the call of the procedure goes: the reply arrives; or the server gives up with an error that is
-- none of the procedure's own; or the connection fails before the statement took effect, or after it.
pub data Link : Type 0 where
  up refused lost landed : Link

unfoldable pub map_stored_proc_error : PgError → WriteError
map_stored_proc_error PgError.conflict = err_conflict
map_stored_proc_error PgError.already_exists = err_already_exists
map_stored_proc_error PgError.status_needs_version = err_version_required
map_stored_proc_error PgError.not_null = err_pg PgError.not_null
map_stored_proc_error PgError.out_of_range = err_pg PgError.out_of_range
map_stored_proc_error PgError.server_error = err_pg PgError.server_error

-- `w.doorbell` may be nil.
unfoldable pub ring : Bool → Text → World → World
ring doorbell gvk w = if doorbell then record w { rung = w.rung ++ gvk ∷ [] } else w

abbrev pub ambiguous : Key → ℕ → WriteError
ambiguous k xid = err_ambiguous (record { key = k; txid = xid })

unfoldable pub report :
    Bool → WriteParams → Reply × Table → World → Outcome WriteError WriteResult × World
unfolding ring
report doorbell p (reply, t) w =
    if reply.changed
    then (
      ok (record {
        txid = reply.txid;
        object_version = reply.version;
        uid = reply.uid;
        changed = true;
      }),
      ring doorbell p.key.gvk (record w { table = t }),
    )
    else (
      ok (record { txid = 0; object_version = reply.version; uid = reply.uid; changed = false }),
      record w { table = t },
    )

-- The table after a call whose reply was lost.
abbrev pub table_after : Outcome PgError (Reply × Table) → World → World
table_after (ok (reply, t)) w = record w { table = t }
table_after (err e) w = w

unfoldable pub call_stored_proc :
    Bool → Link → Draw → WriteParams → World → Outcome WriteError WriteResult × World
unfolding report map_stored_proc_error
call_stored_proc doorbell up d p w = elim (pgctl_write d p w.table) [
  | ok answer ↦ report doorbell p answer w
  | err e ↦ (err (map_stored_proc_error e), w)
]
call_stored_proc doorbell refused d p w = (err (map_stored_proc_error PgError.server_error), w)
call_stored_proc doorbell lost d p w = (err (ambiguous p.key 0), w)
call_stored_proc doorbell landed d p w =
    (err (ambiguous p.key 0), table_after (pgctl_write d p w.table) w)

-- `ReadBack`: the row under the key, if its stamp is the given one.
unfoldable pub read_back : Key → ℕ → Table → Option Resource
read_back k xid t = elim (find k t) [
  | none ↦ none
  | some r ↦ if r.txid_stamp == xid then some r else none
]

-- The label that `observeResult` counts a write under.
pub data Label : Type 0 where
  noop success conflict already_exists ambiguous_commit error : Label

unfoldable pub result_label : Outcome WriteError WriteResult → Label
result_label (ok r) = if r.changed then success else noop
result_label (err err_conflict) = conflict
result_label (err err_already_exists) = already_exists
result_label (err (err_ambiguous a)) = ambiguous_commit
result_label (err err_version_required) = error
result_label (err (err_pg e)) = error
result_label (err (err_stage s)) = error
