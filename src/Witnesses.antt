-- ===== src/Witnesses.antt =====
-- The writer's theorems at concrete inputs.
pub mod Reading
pub mod Watching
pub mod Informing
pub mod Serving
pub mod Verifying
pub mod Living
pub mod Loading
pub mod Padding
use postgres_controller_back.Base.{
  ℕ, ◌≡◌, ◌≢◌, refl, Bool, true, false, Option, none, some, List, [], ◌∷◌, Outcome, ok, err, arith,
  subst,
}
use postgres_controller_back.Base.Int.{ℤ, pos, negsuc, int_eq}
use postgres_controller_back.Base.Text.{Text, codes}
use postgres_controller_back.Json.{Json, obj, bool, end, field, sql_eq, reencode}
use postgres_controller_back.Model.{Key, Resource, key_eq, WriteRequest}
use postgres_controller_back.Table.{Table, find, put}
use postgres_controller_back.Writer.Params.{
  WriteParams, PgError, conflict, already_exists, Draw, Reply,
}
use postgres_controller_back.Writer.Proc.{
  pgctl_write, suppression, is_tombstone, upsert, written, unchanged, suppresses,
}
use postgres_controller_back.Writer.Client.{
  AmbiguousCommit, World, Link, up, landed, err_ambiguous, call_stored_proc,
}
use postgres_controller_back.Writer.Multi.{status_params, object_params, no_fault}
use postgres_controller_back.Writer.Entry.{Writer, write}
use postgres_controller_back.Writer.Occ.{Advanced, pgctl_write-advances, second_writer_conflicts}
use postgres_controller_back.Writer.Retry.{retry, retry_suppressed}
use postgres_controller_back.Writer.Split.{
  StatusOnly, ObjectOnly, status_write_keeps_object, object_write_keeps_status,
}
use postgres_controller_back.Writer.Create.{
  IsCreate, IsFree, IsFresh, create_takes_free_key, create_refused,
}
use postgres_controller_back.Writer.Effects.{Accounted, write-Accounted}
use postgres_controller_back.Writer.Paths.{
  IsExact, RowIsExact, production, hooked, write_paths_agree,
}
use postgres_controller_back.Runtime.Errors.{ApiError, map_write_error, doubt_is_conflict}
use postgres_controller_back.Samples

pos_3 : pos 3 ≢ pos 0
pos_3 e = cc

abbrev flagged : Resource
flagged = record Samples.web {
  txid_stamp = 110;
  object_version = 4;
  spec = bool true;
  updated_at = 50;
}

abbrev after : Table
after = flagged ∷ Samples.job ∷ []

wrote :
    pgctl_write Samples.draw (Samples.set_flag true) Samples.rows
    ≡ ok (written Samples.draw flagged, after)
unfolding pgctl_write suppression upsert find put key_eq suppresses sql_eq int_eq
wrote = refl

pgctl_write-advances_example :
    Advanced Samples.draw (Samples.set_flag true) Samples.rows (written Samples.draw flagged) after
pgctl_write-advances_example =
    pgctl_write-advances Samples.draw (Samples.set_flag true) Samples.rows pos_3 wrote refl

not_suppressed : suppression (Samples.set_flag false) after ≡ none
unfolding suppression find key_eq suppresses sql_eq
not_suppressed = refl

second_writer_conflicts_example :
    pgctl_write Samples.next_draw (Samples.set_flag false) after ≡ err conflict
second_writer_conflicts_example =
    second_writer_conflicts Samples.draw Samples.next_draw (Samples.set_flag true)
      (Samples.set_flag false) Samples.rows refl refl pos_3 wrote refl not_suppressed

retry_suppressed_example :
    (r : Resource) × (find Samples.web_key after ≡ some r)
    × (4 ≡ r.object_version)
    × (pgctl_write Samples.next_draw (retry (Samples.set_flag true) (pos 4)) after
        ≡ ok (unchanged r, after))
retry_suppressed_example =
    retry_suppressed Samples.draw Samples.next_draw (Samples.set_flag true) (pos 4) Samples.rows
      (λ _. refl) wrote refl

abbrev with_status : Resource
with_status = record Samples.web {
  txid_stamp = 110;
  object_version = 4;
  status = bool true;
  updated_at = 50;
}

wrote_status :
    pgctl_write Samples.draw (status_params Samples.set_status) Samples.rows
    ≡ ok (written Samples.draw with_status, with_status ∷ Samples.job ∷ [])
unfolding pgctl_write suppression upsert find put key_eq suppresses sql_eq int_eq
wrote_status = refl

status_write_keeps_object_example :
    (x : Resource) × (r : Resource) × (find Samples.web_key Samples.rows ≡ some x)
    × (find Samples.web_key (with_status ∷ Samples.job ∷ []) ≡ some r)
    × StatusOnly x r (some (bool true))
status_write_keeps_object_example =
    status_write_keeps_object Samples.draw Samples.set_status Samples.rows pos_3 wrote_status refl

wrote_object :
    pgctl_write Samples.draw (object_params Samples.set_object) Samples.rows
    ≡ ok (written Samples.draw flagged, after)
unfolding pgctl_write suppression upsert find put key_eq suppresses sql_eq int_eq
wrote_object = refl

create_at-IsCreate : (k : Key) → IsCreate (Samples.create_at k)
create_at-IsCreate k = record {
  full = refl;
  version = refl;
  has_spec = (_, refl);
  has_status = (_, refl);
  has_metadata = (_, refl);
}

found_job : find Samples.job_key Samples.rows ≡ some Samples.job
unfolding find key_eq
found_job = refl

job_is_dead : is_tombstone Samples.job ≡ true
unfolding is_tombstone field
job_is_dead = refl

job-IsFree : IsFree (Samples.create_at Samples.job_key) Samples.rows
job-IsFree r e = cc (e, found_job, job_is_dead)

create_not_suppressed : suppression (Samples.create_at Samples.job_key) Samples.rows ≡ none
unfolding suppression find key_eq suppresses sql_eq
create_not_suppressed = refl

create_takes_free_key_example :
    (r : Resource) × (pgctl_write Samples.draw (Samples.create_at Samples.job_key) Samples.rows
      ≡ ok (written Samples.draw r, put r Samples.rows))
    × IsFresh Samples.draw (Samples.create_at Samples.job_key) (find Samples.job_key Samples.rows) r
create_takes_free_key_example =
    create_takes_free_key Samples.draw (Samples.create_at Samples.job_key) Samples.rows
      (create_at-IsCreate Samples.job_key) create_not_suppressed job-IsFree

web_not_suppressed : suppression (Samples.create_at Samples.web_key) Samples.rows ≡ none
unfolding suppression find key_eq suppresses sql_eq
web_not_suppressed = refl

found_web : find Samples.web_key Samples.rows ≡ some Samples.web
unfolding find key_eq
found_web = refl

web_is_live : is_tombstone Samples.web ≡ false
unfolding is_tombstone
web_is_live = refl

create_refused_example :
    pgctl_write Samples.draw (Samples.create_at Samples.web_key) Samples.rows ≡ err already_exists
create_refused_example =
    create_refused Samples.draw (Samples.create_at Samples.web_key) Samples.rows Samples.web
      (create_at-IsCreate Samples.web_key) web_not_suppressed found_web web_is_live

abbrev world : World
world = record { table = Samples.rows; rung = [] }

-- A writer with a doorbell, on a connection that fails after the statement took effect.
abbrev cut_off : Writer
cut_off = record { doorbell = true; hooks = none; link = landed; fault = no_fault }

write-Accounted_example :
    Accounted true
      (codes "v1/Pod")
      world
      (write (λ t. t) cut_off Samples.draw Samples.request world)
write-Accounted_example = write-Accounted (λ t. t) cut_off Samples.draw Samples.request world

bool-IsExact : (b : Bool) → IsExact (λ t. t) (some (bool b))
unfolding reencode
bool-IsExact b j e = cc

object-IsExact : IsExact (λ t. t) (some (obj end))
unfolding reencode
object-IsExact j e = cc

web-RowIsExact : RowIsExact (λ t. t) Samples.web
unfolding reencode
web-RowIsExact = (refl, refl, refl)

rows-RowIsExact :
    (r : Resource) → find Samples.web_key Samples.rows ≡ some r → RowIsExact (λ t. t) r
rows-RowIsExact r e =
    let f : Samples.web ≡ r = cc (e, found_web) in subst (RowIsExact (λ t. t)) f web-RowIsExact

write_paths_agree_example :
    write (λ t. t) (production true) Samples.draw Samples.request world
    ≡ write (λ t. t) (hooked true) Samples.draw Samples.request world
write_paths_agree_example =
    write_paths_agree (λ t. t) true Samples.draw world Samples.request (λ e. cc) (bool-IsExact true)
      object-IsExact object-IsExact refl rows-RowIsExact

abbrev doubt : AmbiguousCommit
doubt = record { key = Samples.web_key; txid = 0 }

in_doubt :
    (call_stored_proc true landed Samples.draw (Samples.set_flag true) world).0
    ≡ err (err_ambiguous doubt)
unfolding call_stored_proc
in_doubt = refl

doubt_is_conflict_example : map_write_error true (err_ambiguous doubt) after ≡ err ApiError.conflict
doubt_is_conflict_example =
    doubt_is_conflict true landed Samples.draw (Samples.set_flag true) world after in_doubt
      (omega arith, (omega arith, tt))
