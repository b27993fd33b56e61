-- ===== src/Writer/Create.antt =====
-- Create over `pgctl_write`: the tombstone filter, and who may take a key.
use postgres_controller_back.Base.{
  ℕ, ◌≡◌, refl, true, false, Option, none, some, arith, Outcome, ok, err, ap, ◌∙◌,
}
use postgres_controller_back.Base.Int.{pos, int_eq_iff}
use postgres_controller_back.Json.{Json}
use postgres_controller_back.Model.{Resource}
use postgres_controller_back.Table.{Table, find, put}
use postgres_controller_back.Writer.Params.{WriteParams, PgError, already_exists, Draw}
use postgres_controller_back.Writer.Proc.{
  suppression, is_tombstone, create, upsert, pgctl_write, unchanged, written,
}
use postgres_controller_back.Writer.Retry.{suppressed_answer, equal-suppresses}

-- A create call with its documents.
pub record IsCreate (p : WriteParams) : Type 0 where
  pub full : p.status_only ≡ false
  pub version : p.expected_version ≡ pos 0
  pub has_spec : (s : Json) × (p.spec ≡ some s)
  pub has_status : (s : Json) × (p.status ≡ some s)
  pub has_metadata : (s : Json) × (p.metadata ≡ some s)

-- The key is free: it names no row, or a tombstone.
abbrev pub IsFree : WriteParams → Table → Type 0
IsFree p t = (r : Resource) → find p.key t ≡ some r → is_tombstone r ≡ true

-- The deletion timestamp of the call goes into a new row; a tombstone that is revived has none.
abbrev pub fresh_deletion : WriteParams → Option Resource → Option ℕ
fresh_deletion p none = p.deletion_timestamp
fresh_deletion p (some r) = none

-- A fresh object: version 1, a uid and times of its own, the documents of the call, and no deletion
-- timestamp left over from the row that stood there.
pub record IsFresh (d : Draw) (p : WriteParams) (old : Option Resource) (r : Resource)
    : Type 0 where
  pub version : r.object_version ≡ 1
  pub uid : r.uid ≡ d.fresh_uid
  pub stamp : r.txid_stamp ≡ d.txid
  pub created : r.created_at ≡ d.now
  pub updated : r.updated_at ≡ d.now
  pub deletion : r.deletion_timestamp ≡ fresh_deletion p old
  pub spec : some r.spec ≡ p.spec
  pub status : some r.status ≡ p.status
  pub metadata : some r.metadata ≡ p.metadata

module _ (d : Draw) (p : WriteParams) where
  create-IsFresh :
      (old : Option Resource) (r : Resource)
      → IsCreate p
      → create d p old ≡ ok r
      → IsFresh d p old r
  unfolding create
  create-IsFresh none r c h = record {
    version = ground arith;
    uid = ground arith;
    stamp = ground arith;
    created = ground arith;
    updated = ground arith;
    deletion = ground arith;
    spec = ground arith;
    status = ground arith;
    metadata = ground arith;
  }
  create-IsFresh (some x) r c h = record {
    version = ground arith;
    uid = ground arith;
    stamp = ground arith;
    created = ground arith;
    updated = ground arith;
    deletion = ground arith;
    spec = ground arith;
    status = ground (arith, c.has_status.1);
    metadata = ground arith;
  }

  create_free_total :
      (old : Option Resource) (o : Outcome PgError Resource)
      → create d p old ≡ o
      → IsCreate p
      → ((x : Resource) → old ≡ some x → is_tombstone x ≡ true)
      → (r : Resource) × (o ≡ ok r)
  unfolding create
  create_free_total old (ok r) e c f = (r, refl)
  create_free_total none (err x) e c f =
      absurd (ground (arith, c.has_spec.1, c.has_status.1, c.has_metadata.1))
  create_free_total (some y) (err x) e c f =
      absurd (ground (arith, c.has_spec.1, c.has_status.1, c.has_metadata.1, f y refl))

  create_taken :
      (x : Resource)
      → IsCreate p
      → is_tombstone x ≡ false
      → create d p (some x) ≡ err already_exists
  unfolding create
  create_taken x c f = ground (arith, c.has_spec.1, c.has_status.1, c.has_metadata.1)

  upsert-create : (old : Option Resource) → IsCreate p → upsert d p old ≡ create d p old
  unfolding upsert
  upsert-create old c = ground (arith, int_eq_iff p.expected_version (pos 0))

module _ (d : Draw) (p : WriteParams) (t : Table) where
  upserted_answer :
      (r : Resource)
      → suppression p t ≡ none
      → upsert d p (find p.key t) ≡ ok r
      → pgctl_write d p t ≡ ok (written d r, put r t)
  unfolding pgctl_write
  upserted_answer r s u = ground arith

  failed_answer :
      (e : PgError)
      → suppression p t ≡ none
      → upsert d p (find p.key t) ≡ err e
      → pgctl_write d p t ≡ err e
  unfolding pgctl_write
  failed_answer e s u = ground arith

  -- A create that is not a no-op takes a key that is absent or a tombstone, and leaves there a fresh
  -- object, with the documents of the call and the version 1; in place of a tombstone it has no deletion
  -- timestamp.
  pub create_takes_free_key :
      IsCreate p
      → suppression p t ≡ none
      → IsFree p t
      → (r : Resource) × (pgctl_write d p t ≡ ok (written d r, put r t))
        × IsFresh d p (find p.key t) r
  create_takes_free_key c s f =
      let old : Option Resource = find p.key t in
      let (r, e) = create_free_total d p old (create d p old) refl c f in
      (r, upserted_answer r s (upsert-create d p old c ∙ e), create-IsFresh d p old r c e)

  -- A create that is not a no-op is refused on a live object, and on a dying one that has finalizers.
  pub create_refused :
      (x : Resource)
      → IsCreate p
      → suppression p t ≡ none
      → find p.key t ≡ some x
      → is_tombstone x ≡ false
      → pgctl_write d p t ≡ err already_exists
  create_refused x c s f b =
      failed_answer already_exists s
        (upsert-create d p (find p.key t) c ∙ ap (create d p) f ∙ create_taken d p x c b)

  -- A create of what already stands there, live, with the same content, succeeds: the caller is told
  -- the version and uid of the object that another caller made.
  pub create_of_equal_succeeds :
      (x : Resource)
      → IsCreate p
      → p.force_write ≡ false
      → find p.key t ≡ some x
      → some x.spec ≡ p.spec
      → some x.status ≡ p.status
      → some x.metadata ≡ p.metadata
      → x.deletion_timestamp ≡ p.deletion_timestamp
      → pgctl_write d p t ≡ ok (unchanged x, t)
  create_of_equal_succeeds x c b f sp st m dt =
      suppressed_answer d p t x b f (equal-suppresses p x c.full sp st m dt)
