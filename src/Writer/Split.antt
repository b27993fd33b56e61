-- ===== src/Writer/Split.antt =====
-- The split of spec and status: what the three writes share, and what each leaves alone.
use postgres_controller_back.Base.{◌≡◌, ◌≢◌, true, Option, some, arith, ok, inl, inr, ap}
use postgres_controller_back.Base.Int.{pos, int_eq_iff}
use postgres_controller_back.Json.{Json}
use postgres_controller_back.Model.{Resource, StatusWriteRequest, ObjectWriteRequest}
use postgres_controller_back.Table.{Table, find}
use postgres_controller_back.Writer.Params.{WriteParams, Draw, Reply}
use postgres_controller_back.Writer.Proc.{upsert, pgctl_write}
use postgres_controller_back.Writer.Upserts.{pgctl_write-ok}
use postgres_controller_back.Writer.Occ.{found_after, Advanced, pgctl_write-advances}
use postgres_controller_back.Writer.Multi.{status_params, object_params}

-- The parts of a row that a status write, and an object write, must not touch.
pub record StatusOnly (before after : Resource) (sent : Option Json) : Type 0 where
  pub status : some after.status ≡ sent
  pub spec : after.spec ≡ before.spec
  pub metadata : after.metadata ≡ before.metadata
  pub deletion : after.deletion_timestamp ≡ before.deletion_timestamp

pub record ObjectOnly (before after : Resource) (q : ObjectWriteRequest) : Type 0 where
  pub status : after.status ≡ before.status
  pub spec : some after.spec ≡ q.spec
  pub metadata : some after.metadata ≡ q.metadata
  pub deletion : after.deletion_timestamp ≡ q.deletion_timestamp

status_row :
    (d : Draw) (q : StatusWriteRequest) (x r : Resource)
    → upsert d (status_params q) (some x) ≡ ok r
    → StatusOnly x r q.status
unfolding upsert
status_row d q x r h = record {
  status = ground arith;
  spec = ground arith;
  metadata = ground arith;
  deletion = ground arith;
}

object_row :
    (d : Draw) (q : ObjectWriteRequest) (x r : Resource)
    → q.expected_version ≢ pos 0
    → upsert d (object_params q) (some x) ≡ ok r
    → ObjectOnly x r q
unfolding upsert
object_row d q x r n h = record {
  status = ground (arith, int_eq_iff q.expected_version (pos 0));
  spec = ground (arith, int_eq_iff q.expected_version (pos 0));
  metadata = ground (arith, int_eq_iff q.expected_version (pos 0));
  deletion = ground (arith, int_eq_iff q.expected_version (pos 0));
}

-- A changed call, as the two rows before and after and the upsert between them.
by_upsert :
    (d : Draw) (p : WriteParams) (t : Table) {reply : Reply} {t' : Table}
    → p.expected_version ≢ pos 0
    → pgctl_write d p t ≡ ok (reply, t')
    → reply.changed ≡ true
    → (x : Resource) × (r : Resource) × (find p.key t ≡ some x)
      × (find p.key t' ≡ some r)
      × (upsert d p (some x) ≡ ok r)
by_upsert d p t {reply} {t'} n h c = elim (pgctl_write-ok d p t reply t' h) [
  | inl s ↦ absurd (cc (s.replied, c))
  | inr u ↦
      let a : Advanced d p t reply t' = pgctl_write-advances d p t n h c in
      (a.before, u.row, a.was, found_after d p t u, cc (u.by, ap (upsert d p) a.was))
]

-- A status write that changed the table replaced the status, and left spec, metadata and deletion
-- timestamp as they were.
pub status_write_keeps_object :
    (d : Draw) (q : StatusWriteRequest) (t : Table) {reply : Reply} {t' : Table}
    → q.expected_version ≢ pos 0
    → pgctl_write d (status_params q) t ≡ ok (reply, t')
    → reply.changed ≡ true
    → (x : Resource) × (r : Resource) × (find q.key t ≡ some x)
      × (find q.key t' ≡ some r)
      × StatusOnly x r q.status
status_write_keeps_object d q t n h c =
    let (x, r, f, g, u) = by_upsert d (status_params q) t n h c in
    (x, r, f, g, status_row d q x r u)

-- An object write that changed the table stored its spec, metadata and deletion timestamp, and left
-- the status as it was.
pub object_write_keeps_status :
    (d : Draw) (q : ObjectWriteRequest) (t : Table) {reply : Reply} {t' : Table}
    → q.expected_version ≢ pos 0
    → pgctl_write d (object_params q) t ≡ ok (reply, t')
    → reply.changed ≡ true
    → (x : Resource) × (r : Resource) × (find q.key t ≡ some x)
      × (find q.key t' ≡ some r)
      × ObjectOnly x r q
object_write_keeps_status d q t n h c =
    let (x, r, f, g, u) = by_upsert d (object_params q) t n h c in
    (x, r, f, g, object_row d q x r n u)
