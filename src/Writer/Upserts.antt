-- ===== src/Writer/Upserts.antt =====
-- What a successful upsert of `pgctl_write` has done, branch by branch.
use postgres_controller_back.Base.{
  ◌+◌, ◌≤◌, ◌≡◌, ◌≢◌, refl, ◌⊎◌, inl, inr, Option, none, some, arith, Outcome, ok, err,
}
use postgres_controller_back.Base.Int.{pos, int_eq_iff}
use postgres_controller_back.Model.{Resource}
use postgres_controller_back.Table.{Table, find, put}
use postgres_controller_back.Writer.Params.{WriteParams, Draw, Reply}
use postgres_controller_back.Writer.Proc.{suppression, upsert, pgctl_write, unchanged, written}

-- The two ways in which a call succeeds.
pub record Suppressed (p : WriteParams) (t : Table) (reply : Reply) (t' : Table) : Type 0 where
  pub row : Resource
  pub by : suppression p t ≡ some row
  pub replied : reply ≡ unchanged row
  pub kept : t' ≡ t

pub record Upserted (d : Draw) (p : WriteParams) (t : Table) (reply : Reply) (t' : Table)
    : Type 0 where
  pub row : Resource
  pub unsuppressed : suppression p t ≡ none
  pub by : upsert d p (find p.key t) ≡ ok row
  pub replied : reply ≡ written d row
  pub stored : t' ≡ put row t

pub pgctl_write-ok :
    (d : Draw) (p : WriteParams) (t : Table) (reply : Reply) (t' : Table)
    → pgctl_write d p t ≡ ok (reply, t')
    → Suppressed p t reply t' ⊎ Upserted d p t reply t'
unfolding pgctl_write
pgctl_write-ok d p t reply t' h = go (suppression p t) refl (upsert d p (find p.key t)) refl
  where
    go :
        (s : Option Resource)
        → suppression p t ≡ s
        → (u : Outcome _ Resource) → upsert d p (find p.key t) ≡ u
        → Suppressed p t reply t' ⊎ Upserted d p t reply t'
    go (some r) e u f =
        inl (record { row = r; by = e; replied = ground arith; kept = ground arith })
    go none e (ok r) f = inr (record {
      row = r;
      unsuppressed = e;
      by = f;
      replied = ground arith;
      stored = ground arith;
    })
    go none e (err x) f = ground arith

-- The new row stands under the key of the call.
pub upsert-key :
    (d : Draw) (p : WriteParams) (old : Option Resource) {r : Resource}
    → ((x : Resource) → old ≡ some x → x.key ≡ p.key)
    → upsert d p old ≡ ok r
    → r.key ≡ p.key
unfolding upsert
upsert-key d p none k h = ground arith
upsert-key d p (some x) k h = ground (arith, k x refl)

-- Every upsert stamps the row with the transaction's id, and leaves a version of at least 1.
pub upsert-stamp :
    (d : Draw) (p : WriteParams) (old : Option Resource) {r : Resource}
    → upsert d p old ≡ ok r
    → (r.txid_stamp ≡ d.txid) × (1 ≤ r.object_version)
unfolding upsert
upsert-stamp d p none h = ground arith
upsert-stamp d p (some x) h = ground arith

-- An update was made to the row at the expected version, and counted it up by one.
pub record Counted (p : WriteParams) (old : Option Resource) (r : Resource) : Type 0 where
  pub before : Resource
  pub found : old ≡ some before
  pub expected : pos before.object_version ≡ p.expected_version
  pub version : r.object_version ≡ before.object_version + 1
  pub same_uid : r.uid ≡ before.uid
  pub same_creation : r.created_at ≡ before.created_at

pub upsert-Counted :
    (d : Draw) (p : WriteParams) (old : Option Resource) {r : Resource}
    → p.expected_version ≢ pos 0
    → upsert d p old ≡ ok r
    → Counted p old r
unfolding upsert
upsert-Counted d p none n h = absurd (ground (arith, int_eq_iff p.expected_version (pos 0)))
upsert-Counted d p (some x) n h = record {
  before = x;
  found = refl;
  expected = ground (
    arith,
    int_eq_iff p.expected_version (pos 0),
    int_eq_iff (pos x.object_version) p.expected_version,
  );
  version = ground (arith, int_eq_iff p.expected_version (pos 0));
  same_uid = ground (arith, int_eq_iff p.expected_version (pos 0));
  same_creation = ground (arith, int_eq_iff p.expected_version (pos 0));
}
