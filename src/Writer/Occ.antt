-- ===== src/Writer/Occ.antt =====
-- Optimistic concurrency of `pgctl_write`: no lost update, and what a call leaves alone.
use postgres_controller_back.Base.{
  ℕ, ◌+◌, ◌≤◌, ◌<◌, ◌≡◌, ◌≢◌, refl, All, inl, inr, true, Option, none, some, arith, ok, err, sym,
  ◌∙◌, ap,
}
use postgres_controller_back.Base.Int.{pos, int_eq_iff}
use postgres_controller_back.Model.{Key, Resource, key_eq_iff}
use postgres_controller_back.Table.{Table, find, key-find, find-put, IsKeyed, IsKeyed-put, All-put}
use postgres_controller_back.Writer.Params.{WriteParams, PgError, conflict, Draw, Reply}
use postgres_controller_back.Writer.Proc.{suppression, upsert, pgctl_write}
use postgres_controller_back.Writer.Upserts.{
  Upserted, pgctl_write-ok, upsert-key, upsert-stamp, Counted, upsert-Counted,
}

module _ (d : Draw) (p : WriteParams) (t : Table) where
  row_key : (r : Resource) → upsert d p (find p.key t) ≡ ok r → r.key ≡ p.key
  row_key r = upsert-key d p (find p.key t) (λ x. key-find p.key t)

  pub found_after :
      {reply : Reply} {t' : Table} (u : Upserted d p t reply t') → find p.key t' ≡ some u.row
  found_after u =
      rw u.stored
        (ground (arith, find-put p.key u.row t, key_eq_iff u.row.key p.key, row_key u.row u.by))

  -- A call, suppressed or not, leaves the rows of all other keys as they are.
  pub pgctl_write-frame :
      (k : Key) {reply : Reply} {t' : Table}
      → k ≢ p.key
      → pgctl_write d p t ≡ ok (reply, t')
      → find k t' ≡ find k t
  pgctl_write-frame k {reply} {t'} n h = elim (pgctl_write-ok d p t reply t' h) [
    | inl s ↦ ap (find k) s.kept
    | inr u ↦
        rw u.stored (ground (arith, find-put k u.row t, key_eq_iff u.row.key k, row_key u.row u.by))
  ]

  -- What a changed call with an expected version proves about the row before and after it.
  pub record Advanced (reply : Reply) (t' : Table) : Type 0 where
    pub before : Resource
    pub after : Resource
    pub was : find p.key t ≡ some before
    pub now : find p.key t' ≡ some after
    pub expected : pos before.object_version ≡ p.expected_version
    pub version : after.object_version ≡ before.object_version + 1
    pub replied : reply.version ≡ after.object_version
    pub stamp : after.txid_stamp ≡ d.txid
    pub same_uid : (after.uid ≡ before.uid) × (reply.uid ≡ before.uid)

  advanced :
      {reply : Reply} {t' : Table}
      → p.expected_version ≢ pos 0
      → Upserted d p t reply t'
      → Advanced reply t'
  advanced n u =
      let c : Counted p (find p.key t) u.row = upsert-Counted d p (find p.key t) n u.by in
      record {
        before = c.before;
        after = u.row;
        was = c.found;
        now = found_after u;
        expected = c.expected;
        version = c.version;
        replied = ap (λ (x : Reply). x.version) u.replied;
        stamp = (upsert-stamp d p (find p.key t) u.by).0;
        same_uid = (c.same_uid, ap (λ (x : Reply). x.uid) u.replied ∙ c.same_uid);
      }

  -- If a call with an expected version changes the table, the row was at that version, stands at the
  -- next one, keeps its uid, and carries the call's transaction id.
  pub pgctl_write-advances :
      {reply : Reply} {t' : Table}
      → p.expected_version ≢ pos 0
      → pgctl_write d p t ≡ ok (reply, t')
      → reply.changed ≡ true
      → Advanced reply t'
  pgctl_write-advances {reply} {t'} n h c = elim (pgctl_write-ok d p t reply t' h) [
    | inl s ↦ absurd (cc (s.replied, c))
    | inr u ↦ advanced n u
  ]

-- A row that is absent, or at another version than the expected one, fails the update.
stale_conflict :
    (d : Draw) (p : WriteParams) (old : Option Resource)
    → p.expected_version ≢ pos 0
    → ((x : Resource) → old ≡ some x → pos x.object_version ≢ p.expected_version)
    → upsert d p old ≡ err conflict
unfolding upsert
stale_conflict d p none n s = ground (arith, int_eq_iff p.expected_version (pos 0))
stale_conflict d p (some x) n s = ground (
  arith,
  s x refl,
  int_eq_iff p.expected_version (pos 0),
  int_eq_iff (pos x.object_version) p.expected_version,
)

unsuppressed :
    (d : Draw) (p : WriteParams) (t : Table) {e : PgError}
    → suppression p t ≡ none
    → upsert d p (find p.key t) ≡ err e
    → pgctl_write d p t ≡ err e
unfolding pgctl_write
unsuppressed d p t s u = ground arith

-- Of two writers that read the same version of an object, once one has changed it the other gets a
-- conflict, whichever of the three writes each makes, unless the other's write is a no-op by then.
pub second_writer_conflicts :
    (d d' : Draw) (p q : WriteParams) (t : Table) {reply : Reply} {t' : Table}
    → q.key ≡ p.key
    → q.expected_version ≡ p.expected_version
    → p.expected_version ≢ pos 0
    → pgctl_write d p t ≡ ok (reply, t')
    → reply.changed ≡ true
    → suppression q t' ≡ none
    → pgctl_write d' q t' ≡ err conflict
second_writer_conflicts d d' p q t {reply} {t'} k e n h c s =
    unsuppressed d' q t' s (stale_conflict d' q (find q.key t') (λ z. n (sym e ∙ z)) moved)
  where
    a : Advanced d p t reply t'
    a = pgctl_write-advances d p t n h c

    moved : (x : Resource) → find q.key t' ≡ some x → pos x.object_version ≢ q.expected_version
    moved x f z =
        ground (arith, k, e, z, f, a.now, a.expected, a.version, ap (λ (j : Key). find j t') k)

-- The table is sound below a transaction id: no key stands twice, and every row has a version of at
-- least 1 and a stamp below the id.
pub record IsSound (bound : ℕ) (t : Table) : Type 0 where
  pub keyed : IsKeyed t
  pub rows : All (λ r. (1 ≤ r.object_version) × (r.txid_stamp < bound)) t

-- Every call that succeeds keeps the table sound, if its transaction id is below the bound.
pub pgctl_write-IsSound :
    (bound : ℕ) (d : Draw) (p : WriteParams) (t : Table) {reply : Reply} {t' : Table}
    → d.txid < bound
    → IsSound bound t
    → pgctl_write d p t ≡ ok (reply, t')
    → IsSound bound t'
pgctl_write-IsSound bound d p t {reply} {t'} b s h = elim (pgctl_write-ok d p t reply t' h) [
  | inl e ↦ rw e.kept s
  | inr u ↦
      let (stamp, version) = upsert-stamp d p (find p.key t) u.by in
      rw u.stored (record {
        keyed = IsKeyed-put u.row t s.keyed;
        rows =
            All-put (λ r. (1 ≤ r.object_version) × (r.txid_stamp < bound)) u.row t
              (version, omega (arith, stamp)) s.rows;
      })
]
