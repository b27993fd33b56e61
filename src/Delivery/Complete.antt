-- ===== src/Delivery/Complete.antt =====
-- No event is lost: what the watcher has delivered after a poll, whatever ran before it.
use postgres_controller_back.Base.{ℕ, ◌≡◌, ◌<◌, List, [], ◌++◌, In, All, ok, subst, arith}
use postgres_controller_back.Base.Int.{ℤ}
use postgres_controller_back.Base.Text.{Text}
use postgres_controller_back.Model.{Resource}
use postgres_controller_back.Reader.Poll.{Event, WatcherConfig, poll_all}
use postgres_controller_back.Delivery.{System, Reach, here, next}
use postgres_controller_back.Delivery.Invariant.{IsSafe, IsCaughtUp, Step-IsSafe, poll-IsCaughtUp}

-- A watcher that starts at a mark below every transaction in progress and every later one, as the
-- watermark of a list is.
pub record IsStart (s : System) : Type 0 where
  pub below_next : s.hwm < s.next_xid
  pub below_active : All (λ x. s.hwm < x) s.active
  pub fresh : (s.delivered ≡ []) × (s.compacted ≡ [])

not-In : (r : Resource) → In r [] → ⊥
not-In r i = elim i [ ]

none_compacted : (r : Resource) {xs : List Resource} → xs ≡ [] → In r xs → ⊥
none_compacted r e i = not-In r (subst (In r) e i)

module _ (hashtext : Text → ℤ) (c : WatcherConfig) where
  start-IsSafe : (s : System) → IsStart s → IsSafe hashtext c s.hwm s
  start-IsSafe s h = record {
    below_next = h.below_next;
    below_active = h.below_active;
    caught_up = λ r i w l. absurd (omega arith);
    kept_or_seen = λ r i w. absurd (none_compacted r (h.fresh.1) i);
  }

  pub Reach-IsSafe : {s t : System} → IsStart s → Reach hashtext c s t → IsSafe hashtext c s.hwm t
  Reach-IsSafe {s} h here = start-IsSafe s h
  Reach-IsSafe h (next r st) = Step-IsSafe hashtext c _ st (Reach-IsSafe h r)

  -- However writers, aborts, compactions and polls have interleaved since the watcher started: once a
  -- poll succeeds, every selected row stamped above the start that is in the table, or has been in it
  -- until the compactor deleted it, is among the delivered events.
  pub no_event_lost :
      {s t : System} {es : List Event} {hwm' : ℕ} (xmin : ℕ)
      → IsStart s
      → Reach hashtext c s t
      → poll_all hashtext c xmin (t.horizon c.gvk) t.hwm t.table ≡ ok (es, hwm')
      → IsCaughtUp hashtext c s.hwm (record t { hwm = hwm'; delivered = t.delivered ++ es })
  no_event_lost {s} {t} xmin h r p = poll-IsCaughtUp hashtext c s.hwm t xmin (Reach-IsSafe h r) p
