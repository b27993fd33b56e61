-- ===== src/Writer/Proc.antt =====
-- The stored procedure `pgctl_write` of internal/schema/migrations/001_initial.sql.
use postgres_controller_back.Base.{
  ℕ, ◌+◌, Bool, true, false, ◌&&◌, Option, none, some, ltb, if◌then◌else◌, Outcome, ok, err, ◌>>=◌,
  is_some,
}
use postgres_controller_back.Base.Int.{ℤ, pos, int_eq, max_int64}
use postgres_controller_back.Base.Text.{codes}
use postgres_controller_back.Json.{Json, empty_array, empty_object, json_eq, sql_eq, field}
use postgres_controller_back.Model.{Resource, time_eq}
use postgres_controller_back.Table.{Table, find, put}
use postgres_controller_back.Writer.Params.{
  WriteParams, PgError, conflict, already_exists, status_needs_version, not_null, out_of_range,
  Draw, Reply,
}

-- `p_status IS NULL OR status = p_status`
unfoldable pub null_or_eq : Json → Option Json → Bool
null_or_eq a none = true
null_or_eq a (some b) = json_eq a b

-- 1. Is the write a no-op on this row?
unfoldable pub suppresses : WriteParams → Resource → Bool
unfolding null_or_eq
suppresses p r =
    if p.status_only
    then sql_eq r.status p.status
    else sql_eq r.spec p.spec
      && null_or_eq r.status p.status
      && sql_eq r.metadata p.metadata
      && time_eq r.deletion_timestamp p.deletion_timestamp

abbrev pub keep_if : Bool → Resource → Option Resource
keep_if b r = if b then some r else none

unfoldable pub suppressed_by : WriteParams → Option Resource → Option Resource
suppressed_by p none = none
suppressed_by p (some r) = keep_if (suppresses p r) r

unfoldable pub suppression : WriteParams → Table → Option Resource
unfolding suppressed_by
suppression p t = if p.force_write then none else suppressed_by p (find p.key t)

-- A value for a NOT NULL column.
abbrev pub require : Option Json → Outcome PgError Json
require none = err not_null
require (some j) = ok j

-- COALESCE
abbrev pub coalesce : Option Json → Json → Json
coalesce none d = d
coalesce (some j) d = j

-- `object_version + 1` in bigint
abbrev pub bump : ℕ → Outcome PgError ℕ
bump v = if ltb v max_int64 then ok (v + 1) else err out_of_range

-- The row that `WHERE … AND object_version = p_expected_version` finds.
unfoldable pub at_version : ℤ → Option Resource → Outcome PgError Resource
at_version e none = err conflict
at_version e (some r) = if int_eq (pos r.object_version) e then ok r else err conflict

-- Branch A: WriteStatus.
unfoldable pub update_status : Draw → WriteParams → Option Resource → Outcome PgError Resource
unfolding at_version
update_status d p old = do
  r ← at_version p.expected_version old
  v ← bump r.object_version
  s ← require p.status
  ok (record r { txid_stamp = d.txid; object_version = v; status = s; updated_at = d.now })

-- The tombstone filter: a deletion timestamp, and no finalizer or an empty list of them.
unfoldable pub no_finalizers : Option Json → Bool
no_finalizers none = true
no_finalizers (some f) = json_eq f empty_array

unfoldable pub is_tombstone : Resource → Bool
unfolding no_finalizers
is_tombstone r =
    is_some r.deletion_timestamp && no_finalizers (field (codes "finalizers") r.metadata)

-- The UPDATE of the exception handler.
unfoldable pub revive :
    Draw → WriteParams → Json → Json → Option Resource → Outcome PgError Resource
revive d p spec metadata none = err already_exists
revive d p spec metadata (some r) =
    if is_tombstone r
    then ok (record r {
      uid = d.fresh_uid;
      txid_stamp = d.txid;
      object_version = 1;
      spec = spec;
      status = coalesce p.status empty_object;
      metadata = metadata;
      deletion_timestamp = none;
      created_at = d.now;
      updated_at = d.now;
    })
    else err already_exists

-- Branch B: Create. The NOT NULL columns are checked before the primary key.
unfoldable pub create : Draw → WriteParams → Option Resource → Outcome PgError Resource
unfolding revive
create d p old = do
  spec ← require p.spec
  status ← require p.status
  metadata ← require p.metadata
  elim old [
    | none ↦ ok (record {
      key = p.key;
      uid = d.fresh_uid;
      txid_stamp = d.txid;
      object_version = 1;
      spec = spec;
      status = status;
      metadata = metadata;
      deletion_timestamp = p.deletion_timestamp;
      created_at = d.now;
      updated_at = d.now;
    })
    | some r ↦ revive d p spec metadata (some r)
  ]

-- Branch C: Update.
unfoldable pub update : Draw → WriteParams → Option Resource → Outcome PgError Resource
unfolding at_version
update d p old = do
  r ← at_version p.expected_version old
  v ← bump r.object_version
  spec ← require p.spec
  metadata ← require p.metadata
  ok (record r {
    txid_stamp = d.txid;
    object_version = v;
    spec = spec;
    status = coalesce p.status r.status;
    metadata = metadata;
    deletion_timestamp = p.deletion_timestamp;
    updated_at = d.now;
  })

-- 2. The row that the upsert leaves, from the row that stands under the key.
unfoldable pub upsert : Draw → WriteParams → Option Resource → Outcome PgError Resource
unfolding update_status create update
upsert d p old =
    if p.status_only
    then (if int_eq p.expected_version (pos 0)
        then err status_needs_version
        else update_status d p old)
    else if int_eq p.expected_version (pos 0)
    then create d p old
    else update d p old

-- A suppressed call answers with the row as it is and the txid 0.
abbrev pub unchanged : Resource → Reply
unchanged r = record { uid = r.uid; version = r.object_version; txid = 0; changed = false }

abbrev pub written : Draw → Resource → Reply
written d r = record { uid = r.uid; version = r.object_version; txid = d.txid; changed = true }

unfoldable pub pgctl_write : Draw → WriteParams → Table → Outcome PgError (Reply × Table)
pgctl_write d p t = elim (suppression p t) [
  | some r ↦ ok (unchanged r, t)
  | none ↦ do r ← upsert d p (find p.key t); ok (written d r, put r t)
]
