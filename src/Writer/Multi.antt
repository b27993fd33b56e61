-- ===== src/Writer/Multi.antt =====
-- The multi-statement path of internal/writer/writer.go (`execWriteInner` and its three callers), and
-- internal/writer/hooks.go.
use postgres_controller_back.Base.{
  ℕ, Bool, true, false, ◌&&◌, Option, none, some, List, [], ◌∷◌, ◌==◌, ◌||◌, is_some, if◌then◌else◌,
  Outcome, ok, err, ◌>>=◌,
}
use postgres_controller_back.Base.Int.{pos, int_eq}
use postgres_controller_back.Base.Text.{Text}
use postgres_controller_back.Json.{json_equal}
use postgres_controller_back.Model.{
  Key, Resource, WriteRequest, StatusWriteRequest, ObjectWriteRequest, WriteResult, time_equal,
}
use postgres_controller_back.Table.{find, put}
use postgres_controller_back.Writer.Params.{WriteParams, PgError, Draw}
use postgres_controller_back.Writer.Proc.{at_version, bump, require, create, update, update_status}
use postgres_controller_back.Writer.Client.{
  Statement, savepoint, insert, rollback_savepoint, revival, Stage, WriteError, err_conflict,
  err_already_exists, err_version_required, err_pg, err_stage, World, ring, ambiguous,
}

-- `TxHooks`: each hook may fail the transaction. They are given no way to write through it.
pub record TxHooks : Type 0 where
  pub after_suppression_check : Bool → Bool
  pub after_txid_acquire : ℕ → Bool
  pub before_commit : Bool

-- The statement at which the connection or the server fails, if any; one that is not reached does not
-- fail. A commit fails before or after its effect.
pub data Fault : Type 0 where
  no_fault at_begin at_read at_txid commit_lost commit_landed : Fault
  at_statement : Statement → Fault

-- The callbacks of one write: is the row's content the request's, the statements that the other one sends,
-- and the row that they store.
pub record Upsert : Type 0 where
  pub key : Key
  pub force_write : Bool
  pub is_content_equal : Resource → Bool
  pub statements : Option Resource → List Statement
  pub stored : Draw → Option Resource → Outcome PgError Resource

unfoldable pub map_upsert_error : PgError → WriteError
map_upsert_error PgError.conflict = err_conflict
map_upsert_error PgError.already_exists = err_already_exists
map_upsert_error PgError.status_needs_version = err_version_required
map_upsert_error PgError.not_null = err_pg PgError.not_null
map_upsert_error PgError.out_of_range = err_pg PgError.out_of_range
map_upsert_error PgError.server_error = err_pg PgError.server_error

abbrev pub fail : Stage → World → Outcome WriteError WriteResult × World
fail s w = (err (err_stage s), w)

unfoldable pub commit :
    Bool → Fault → Draw → Key → Resource → World → Outcome WriteError WriteResult × World
unfolding ring
commit doorbell commit_lost d k r w = (err (ambiguous k d.txid), w)
commit doorbell commit_landed d k r w =
    (err (ambiguous k d.txid), record w { table = put r w.table })
commit doorbell fault d k r w = (
  ok (record { txid = d.txid; object_version = r.object_version; uid = r.uid; changed = true }),
  ring doorbell k.gvk (record w { table = put r w.table }),
)

-- From the row that the upsert gives on.
unfoldable pub finish_row :
    Bool
    → TxHooks
    → Fault
    → Draw
    → Upsert
    → World
    → Outcome PgError Resource
    → Outcome WriteError WriteResult × World
finish_row doorbell hooks fault d u w (err e) = (err (map_upsert_error e), w)
finish_row doorbell hooks fault d u w (ok r) =
    if hooks.before_commit then fail Stage.hook w else commit doorbell fault d u.key r w

abbrev pub place : Statement → ℕ
place savepoint = 0
place insert = 1
place rollback_savepoint = 2
place revival = 3
place Statement.update = 4

unfoldable pub sends : Statement → List Statement → Bool
sends s [] = false
sends s (x ∷ xs) = place x == place s || sends s xs

-- The statement of the callback that fails.
unfoldable pub failed_at : Fault → List Statement → Option Statement
unfolding sends
failed_at (at_statement s) ss = if sends s ss then some s else none
failed_at fault ss = none

-- The callback, one of whose statements may fail.
unfoldable pub upsert_row :
    Bool
    → TxHooks
    → Fault
    → Draw
    → Upsert
    → World
    → Option Statement
    → Outcome WriteError WriteResult × World
unfolding finish_row
upsert_row doorbell hooks fault d u w (some s) = fail (Stage.statement s) w
upsert_row doorbell hooks fault d u w none =
    finish_row doorbell hooks fault d u w (u.stored d (find u.key w.table))

-- From the acquisition of the transaction id on.
unfoldable pub write_row :
    Bool → TxHooks → Fault → Draw → Upsert → World → Outcome WriteError WriteResult × World
unfolding upsert_row failed_at
write_row doorbell hooks at_txid d u w = fail Stage.txid_acquire w
write_row doorbell hooks fault d u w =
    if hooks.after_txid_acquire d.txid
    then fail Stage.hook w
    else upsert_row doorbell hooks fault d u w (failed_at fault (u.statements (find u.key w.table)))

abbrev pub commits : Fault → Bool
commits commit_lost = false
commits commit_landed = false
commits _ = true

-- The commit of a suppressed write, which changes nothing.
unfoldable pub commit_noop : Fault → Resource → World → Outcome WriteError WriteResult × World
commit_noop fault r w =
    if commits fault
    then (
      ok (record { txid = 0; object_version = r.object_version; uid = r.uid; changed = false }),
      w,
    )
    else fail Stage.commit_suppressed w

abbrev pub content_equal : Upsert → Option Resource → Option Resource
content_equal u none = none
content_equal u (some r) = if u.is_content_equal r then some r else none

-- The hook after the suppression test, and the branch that the test chose.
unfoldable pub branch_row :
    Bool
    → TxHooks
    → Fault
    → Draw
    → Upsert
    → World
    → Option Resource
    → Outcome WriteError WriteResult × World
branch_row doorbell hooks fault d u w (some r) =
    if hooks.after_suppression_check true then fail Stage.hook w else commit_noop fault r w
branch_row doorbell hooks fault d u w none =
    if hooks.after_suppression_check false
    then fail Stage.hook w
    else write_row doorbell hooks fault d u w

-- `readExisting`, and the test on the row that it read.
unfoldable pub check_row :
    Bool → TxHooks → Fault → Draw → Upsert → World → Outcome WriteError WriteResult × World
check_row doorbell hooks fault d u w =
    branch_row doorbell hooks fault d u w (content_equal u (find u.key w.table))

abbrev pub reads : Fault → Bool
reads at_read = false
reads _ = true

unfoldable pub exec_write :
    Bool → TxHooks → Fault → Draw → Upsert → World → Outcome WriteError WriteResult × World
exec_write doorbell hooks at_begin d u w = fail Stage.begin w
exec_write doorbell hooks fault d u w =
    if u.force_write
    then branch_row doorbell hooks fault d u w none
    else if reads fault
    then check_row doorbell hooks fault d u w
    else fail Stage.read_existing w

abbrev pub write_params : WriteRequest → WriteParams
write_params q = record {
  status_only = false;
  key = q.key;
  expected_version = q.expected_version;
  force_write = q.force_write;
  spec = q.spec;
  status = q.status;
  metadata = q.metadata;
  deletion_timestamp = q.deletion_timestamp;
}

abbrev pub status_params : StatusWriteRequest → WriteParams
status_params q = record {
  status_only = true;
  key = q.key;
  expected_version = q.expected_version;
  force_write = q.force_write;
  spec = none;
  status = q.status;
  metadata = none;
  deletion_timestamp = none;
}

abbrev pub object_params : ObjectWriteRequest → WriteParams
object_params q = record {
  status_only = false;
  key = q.key;
  expected_version = q.expected_version;
  force_write = q.force_write;
  spec = q.spec;
  status = none;
  metadata = q.metadata;
  deletion_timestamp = q.deletion_timestamp;
}

-- The statements of a create: the INSERT meets the row that stands under the key once its columns are
-- not NULL.
unfoldable pub create_statements : WriteRequest → Option Resource → List Statement
create_statements q none = savepoint ∷ insert ∷ []
create_statements q (some r) =
    if is_some q.spec && is_some q.status && is_some q.metadata
    then savepoint ∷ insert ∷ rollback_savepoint ∷ revival ∷ []
    else savepoint ∷ insert ∷ []

-- The UPDATE of `writeObjectMultiStatement`, which does not name the status.
unfoldable pub update_object :
    Draw → ObjectWriteRequest → Option Resource → Outcome PgError Resource
unfolding at_version
update_object d q old = do
  r ← at_version q.expected_version old
  v ← bump r.object_version
  spec ← require q.spec
  metadata ← require q.metadata
  ok (record r {
    txid_stamp = d.txid;
    object_version = v;
    spec = spec;
    metadata = metadata;
    deletion_timestamp = q.deletion_timestamp;
    updated_at = d.now;
  })

module _ (round : Text → Text) where
  unfoldable pub write_upsert : WriteRequest → Upsert
  write_upsert q = record {
    key = q.key;
    force_write = q.force_write;
    is_content_equal = λ r.
        json_equal round (some r.spec) q.spec
        && json_equal round (some r.status) q.status
        && json_equal round (some r.metadata) q.metadata
        && time_equal r.deletion_timestamp q.deletion_timestamp q.deletion_nanos;
    statements = λ old.
        if int_eq q.expected_version (pos 0)
        then create_statements q old
        else Statement.update ∷ [];
    stored = λ d old.
        if int_eq q.expected_version (pos 0)
        then create d (write_params q) old
        else update d (write_params q) old;
  }

  unfoldable pub status_upsert : StatusWriteRequest → Upsert
  status_upsert q = record {
    key = q.key;
    force_write = q.force_write;
    is_content_equal = λ r. json_equal round (some r.status) q.status;
    statements = λ old. Statement.update ∷ [];
    stored = λ d old. update_status d (status_params q) old;
  }

  unfoldable pub object_upsert : ObjectWriteRequest → Upsert
  object_upsert q = record {
    key = q.key;
    force_write = q.force_write;
    is_content_equal = λ r.
        json_equal round (some r.spec) q.spec
        && json_equal round (some r.metadata) q.metadata
        && time_equal r.deletion_timestamp q.deletion_timestamp q.deletion_nanos;
    statements = λ old. Statement.update ∷ [];
    stored = λ d old. update_object d q old;
  }
