-- ===== src/Runtime/Resume.antt =====
-- A watch that is opened again from the resource version of the last relayed event.
use postgres_controller_back.Base.{
  ℕ, ◌≡◌, ◌≢◌, ◌≤◌, ◌<◌, Option, List, [], ◌∷◌, In, here, there, arith, ok, ap,
}
use postgres_controller_back.Base.Int.{ℤ}
use postgres_controller_back.Base.Text.{Text}
use postgres_controller_back.Model.{Resource}
use postgres_controller_back.Table.{Table}
use postgres_controller_back.ResourceVersion.{Rv}
use postgres_controller_back.Reader.Poll.{
  Event, WatcherConfig, poll_all, poll_all-Polled, poll_all_sound, advance_bounds,
}
use postgres_controller_back.Runtime.Relay.{stamp_rv, last_rv}

le-stamp_rv :
    (rv : Rv) (e : Event)
    → (rv.watermark ≤ (stamp_rv rv e).watermark)
      × (e.resource.txid_stamp ≤ (stamp_rv rv e).watermark)
unfolding stamp_rv
le-stamp_rv rv e = ground arith

le-last_rv : (rv : Rv) (es : List Event) → rv.watermark ≤ (last_rv rv es).watermark
unfolding last_rv
le-last_rv rv [] = omega arith
le-last_rv rv (e ∷ es) = omega (arith, (le-stamp_rv rv e).0, le-last_rv (stamp_rv rv e) es)

In-le-last_rv :
    (rv : Rv) (es : List Event) {e : Event}
    → In e es
    → e.resource.txid_stamp ≤ (last_rv rv es).watermark
unfolding last_rv
In-le-last_rv rv [] i = elim i [ ]
In-le-last_rv rv (x ∷ es) (here p) = omega (
  arith,
  (le-stamp_rv rv x).1,
  le-last_rv (stamp_rv rv x) es,
  ap (λ (y : Event). y.resource.txid_stamp) p,
)
In-le-last_rv rv (x ∷ es) (there i) = In-le-last_rv (stamp_rv rv x) es i

-- The relayed resource version never falls, and reaches the stamp of every event that was sent. The
-- watcher's own mark stays below the transactions in progress, but this one need not: if a watch that
-- has relayed an event is opened again from it, then a row of a lower or equal stamp, committed later,
-- is in no event of a successful poll, nor does the mark ever come back to it.
pub resumed_watch_misses :
    (hashtext : Text → ℤ) (c : WatcherConfig) (rv : Rv) (relayed : List Event) {seen : Event}
    (xmin : ℕ) (compacted : Option ℕ) (t : Table) (r : Resource) {es : List Event} {hwm' : ℕ}
    → In seen relayed
    → r.txid_stamp ≤ seen.resource.txid_stamp
    → poll_all hashtext c xmin compacted (last_rv rv relayed).watermark t ≡ ok (es, hwm')
    → ((e : Event) → In e es → e.resource.txid_stamp ≢ r.txid_stamp) × (r.txid_stamp ≤ hwm')
resumed_watch_misses hashtext c rv relayed {seen} xmin compacted t r {es} {hwm'} i l p =
    let hwm : ℕ = (last_rv rv relayed).watermark in
    let passed : r.txid_stamp ≤ hwm = omega (arith, In-le-last_rv rv relayed i) in
    (
      λ e j q.
          let sound : hwm < e.resource.txid_stamp =
            (poll_all_sound hashtext c xmin compacted hwm t e p j).2 in
          omega (arith, sound, passed, q),
      omega (
        arith,
        passed,
        (advance_bounds xmin hwm).0,
        (poll_all-Polled hashtext c xmin compacted hwm t p).mark,
      ),
    )
