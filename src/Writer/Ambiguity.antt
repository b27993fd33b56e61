-- ===== src/Writer/Ambiguity.antt =====
-- Commits in doubt: what `callStoredProc` reports when the connection fails, and what `ReadBack` can
-- tell afterwards.
use postgres_controller_back.Base.{
  ℕ, ◌≡◌, ◌<◌, refl, Bool, Option, none, some, arith, Outcome, ok, err, All,
}
use postgres_controller_back.Model.{Key, Resource}
use postgres_controller_back.Table.{Table, find, put, find-put_self, All-find}
use postgres_controller_back.Writer.Params.{WriteParams, PgError, Draw}
use postgres_controller_back.Writer.Client.{
  err_ambiguous, World, Link, up, refused, lost, landed, call_stored_proc, map_stored_proc_error,
  read_back, AmbiguousCommit,
}
use postgres_controller_back.Writer.Multi.{
  TxHooks, commit_lost, commit_landed, Upsert, exec_write, write_row, finish_row, branch_row,
  commit, check_row, commit_noop, map_upsert_error,
}

-- PostgreSQL gives no transaction the id 0.
abbrev pub IsStamped : Table → Type 0
IsStamped = All (λ r. 0 < r.txid_stamp)

read_back_zero : (k : Key) (t : Table) → IsStamped t → read_back k 0 t ≡ none
unfolding read_back
read_back_zero k t s = go (find k t) refl
  where
    go : (o : Option Resource) → find k t ≡ o → read_back k 0 t ≡ none
    go none e = ground arith
    go (some r) e = ground (arith, All-find (λ x. 0 < x.txid_stamp) k t s e)

zero_txid :
    (b : Bool) (l : Link) (d : Draw) (p : WriteParams) (w : World) {a : AmbiguousCommit}
    → (call_stored_proc b l d p w).0 ≡ err (err_ambiguous a)
    → a.txid ≡ 0
unfolding call_stored_proc
zero_txid b up d p w h = ground arith
zero_txid b refused d p w h = unfold map_stored_proc_error in cc
zero_txid b lost d p w h = ground arith
zero_txid b landed d p w h = ground arith

-- In production a commit in doubt is reported with the transaction id 0, which no row carries: the
-- read-back of it finds nothing in any table, whether or not the write took effect.
pub read_back_never_confirms :
    (doorbell : Bool) (link : Link) (d : Draw) (p : WriteParams) (w : World) (t : Table)
    {a : AmbiguousCommit}
    → (call_stored_proc doorbell link d p w).0 ≡ err (err_ambiguous a)
    → IsStamped t
    → read_back a.key a.txid t ≡ none
read_back_never_confirms doorbell link d p w t {a} h s =
    rw (zero_txid doorbell link d p w h) (read_back_zero a.key t s)

read_back_older :
    (k : Key) (xid : ℕ) (t : Table) → All (λ r. r.txid_stamp < xid) t → read_back k xid t ≡ none
unfolding read_back
read_back_older k xid t s = go (find k t) refl
  where
    go : (o : Option Resource) → find k t ≡ o → read_back k xid t ≡ none
    go none e = ground arith
    go (some r) e = ground (arith, All-find (λ x. x.txid_stamp < xid) k t s e)

read_back-put : (r : Resource) (t : Table) → read_back r.key r.txid_stamp (put r t) ≡ some r
unfolding read_back
read_back-put r t = ground (arith, find-put_self r t)

-- The multi-statement path reports the real id. Of a commit in doubt the read-back then finds the row
-- if the commit took effect, and nothing if it did not, since the id is above all stamps.
module _ (doorbell : Bool) (h : TxHooks) (d : Draw) (u : Upsert) (w : World) {a : AmbiguousCommit}
    {w' : World} where
  pub read_back_lost :
      exec_write doorbell h commit_lost d u w ≡ (err (err_ambiguous a), w')
      → All (λ r. r.txid_stamp < d.txid) w.table
      → read_back a.key a.txid w'.table ≡ none
  unfolding exec_write check_row branch_row write_row finish_row commit commit_noop map_upsert_error
  read_back_lost e s = ground (arith, read_back_older u.key d.txid w.table s)

  pub read_back_landed :
      ((old : Option Resource) (r : Resource)
        → u.stored d old ≡ ok r
        → (r.key ≡ u.key) × (r.txid_stamp ≡ d.txid))
      → exec_write doorbell h commit_landed d u w ≡ (err (err_ambiguous a), w')
      → (r : Resource) × (read_back a.key a.txid w'.table ≡ some r)
  unfolding exec_write check_row branch_row write_row finish_row commit commit_noop map_upsert_error
  read_back_landed s e = go (u.stored d (find u.key w.table)) refl
    where
      go :
          (o : Outcome PgError Resource)
          → u.stored d (find u.key w.table) ≡ o
          → (r : Resource) × (read_back a.key a.txid w'.table ≡ some r)
      go (ok r) f = (r, ground (arith, read_back-put r w.table, s (find u.key w.table) r f))
      go (err x) f = absurd (ground arith)
