-- ===== src/Delivery.antt =====
-- Writers, the compactor and one watcher over one database, in any order: the path that a change takes
-- from the stored procedure to the watcher's channel. A write is split in two steps, since other
-- transactions may run between them: `begin` draws its transaction id, and `write` makes its row
-- visible. The server's part is what its documentation says of pg_snapshot_xmin: all transactions below
-- it are finished, so it is at most every id in progress and the next id.
pub mod Invariant
pub mod Complete
pub mod Cache
use postgres_controller_back.Base.{
  ℕ, suc, ◌≡◌, ◌≢◌, ◌≤◌, ◌<◌, Option, List, [], ◌∷◌, ◌++◌, map, In, All, Outcome, ok,
}
use postgres_controller_back.Base.Int.{ℤ}
use postgres_controller_back.Base.Text.{Text}
use postgres_controller_back.Model.{Resource}
use postgres_controller_back.Table.{Table, find, put}
use postgres_controller_back.Writer.Params.{WriteParams, Draw}
use postgres_controller_back.Writer.Proc.{upsert}
use postgres_controller_back.Reader.Poll.{Event, WatcherConfig, poll_all}
use postgres_controller_back.Compaction.{Horizon, compact}

-- `compacted` and `delivered` record what was deleted by the compactor and sent by the watcher.
pub record System : Type 0 where
  pub table : Table
  pub horizon : Horizon
  pub next_xid : ℕ
  pub active : List ℕ
  pub hwm : ℕ
  pub delivered : List Event
  pub compacted : List Resource

-- The ids in progress without one that has finished.
pub data Finish (x : ℕ) : List ℕ → List ℕ → Type 0 where
  first : {xs : List ℕ} → Finish x (x ∷ xs) xs
  later : {y : ℕ} {xs ys : List ℕ} → Finish x xs ys → Finish x (y ∷ xs) (y ∷ ys)

module _ (hashtext : Text → ℤ) (c : WatcherConfig) where
  pub data Step (s : System) : System → Type 0 where
    begin : Step s (record s { next_xid = suc s.next_xid; active = s.next_xid ∷ s.active })
    write :
        {xs : List ℕ} {r : Resource} (d : Draw) (p : WriteParams)
        → Finish d.txid s.active xs
        → upsert d p (find p.key s.table) ≡ ok r
        → Step s (record s { table = put r s.table; active = xs })
    give_up : {xs : List ℕ} (x : ℕ) → Finish x s.active xs → Step s (record s { active = xs })
    compaction :
        (now retention : ℕ)
        → Step s (record s {
          table = (compact now retention s.table s.horizon).table;
          horizon = (compact now retention s.table s.horizon).horizon;
          compacted = s.compacted ++ (compact now retention s.table s.horizon).removed;
        })
    polls :
        {es : List Event} {hwm' : ℕ} (xmin : ℕ)
        → All (λ x. xmin ≤ x) s.active
        → xmin ≤ s.next_xid
        → poll_all hashtext c xmin (s.horizon c.gvk) s.hwm s.table ≡ ok (es, hwm')
        → Step s (record s { hwm = hwm'; delivered = s.delivered ++ es })

  pub data Reach (s : System) : System → Type 0 where
    here : Reach s s
    next : {t u : System} → Reach s t → Step t u → Reach s u
