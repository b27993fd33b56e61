-- ===== src/Delivery/Cache/Follow.antt =====
-- The informer's store follows the table: the invariant over all steps, and what it gives after a poll.
use postgres_controller_back.Base.{
  ℕ, ◌≡◌, ◌<◌, refl, Bool, true, ◌&&◌, Option, none, some, List, ◌++◌, map, All, All-In, ◌⊎◌, inl,
  inr, ok, arith, subst, ap, sym, ◌∙◌, Bool-cases, keep, ltb,
}
use postgres_controller_back.Base.Int.{ℤ}
use postgres_controller_back.Base.Text.{Text}
use postgres_controller_back.Json.{Json}
use postgres_controller_back.Model.{Key, Resource}
use postgres_controller_back.Table.{Table, find, put, key-find, IsKeyed, IsKeyed-put}
use postgres_controller_back.Table.Keyed.{passing, find-keep, IsKeyed-keep}
use postgres_controller_back.Writer.Params.{WriteParams, Draw}
use postgres_controller_back.Writer.Proc.{upsert}
use postgres_controller_back.Writer.Upserts.{upsert-stamp}
use postgres_controller_back.Reader.Rows.Keyed.{find-order, IsKeyed-order}
use postgres_controller_back.Reader.Poll.{
  Event, to_event, WatcherConfig, selects, newer, poll_all, poll_all-Polled,
}
use postgres_controller_back.Compaction.{compact, Reaches}
use postgres_controller_back.Delivery.{
  System, Finish, Step, begin, write, give_up, compaction, polls, Reach, here, next,
}
use postgres_controller_back.Delivery.Invariant.{Finish-In, IsSafe, not_behind}
use postgres_controller_back.Delivery.Complete.{IsStart, Reach-IsSafe}
use postgres_controller_back.Delivery.Cache.{
  map-append_rows, key_selected, key-selects, Standing, synced, behind, cut, Standing-keep,
  Standing-write, after_compaction, Standing-compaction,
}
use postgres_controller_back.Runtime.Store.{
  Store, absorb_all, absorb_all-append, get-absorb_all, shown, latest,
}

module _ (hashtext : Text → ℤ) (c : WatcherConfig) (owners_ok : Json → Bool) (store : Store)
    (first : store.State) where
  -- The rows whose events were delivered; the store that took them stands in each watched key as
  -- `Standing` says.
  pub record IsFollowed (s : System) : Type 0 where
    pub log : List Resource
    pub logged : s.delivered ≡ map to_event log
    pub keyed : IsKeyed s.table
    pub standing :
        (k : Key)
        → key_selected hashtext c k ≡ true
        → Standing hashtext c owners_ok k s (store.get k (absorb_all store owners_ok log first))

  IsKeyed-newer : (hwm : ℕ) (t : Table) → IsKeyed t → IsKeyed (newer hashtext c hwm t)
  unfolding newer
  IsKeyed-newer hwm t h = IsKeyed-order (keep _ t) (IsKeyed-keep _ t h)

  find-newer :
      (k : Key) (hwm : ℕ) (t : Table)
      → IsKeyed t
      → find k (newer hashtext c hwm t)
        ≡ passing (λ r. selects hashtext c r && ltb hwm r.txid_stamp) (find k t)
  unfolding newer
  find-newer k hwm t h = find-order k (keep _ t) (IsKeyed-keep _ t h) ∙ find-keep _ k t h

  -- The rows of a poll bring a key up to date, if it was, or if its row is among them.
  settled :
      (q : Resource → Bool) (o held : Option Resource)
      → (held ≡ shown owners_ok o) ⊎ ((r : Resource) × (o ≡ some r) × (q r ≡ true))
      → latest owners_ok (passing q o) held ≡ shown owners_ok o
  settled q none held (inl e) = e
  settled q none held (inr (r, e, b)) = cc
  settled q (some x) held (inl e) = elim (Bool-cases (q x)) [ inl b ↦ rw b | inr b ↦ rw b e ]
  settled q (some x) held (inr (r, e, b)) = let b' : q x ≡ true = cc in rw b'

  module _ (s : System) {es : List Event} {hwm' : ℕ} (xmin : ℕ) (h : IsFollowed s)
      (p : poll_all hashtext c xmin (s.horizon c.gvk) s.hwm s.table ≡ ok (es, hwm')) where
    pub rows : List Resource
    rows = newer hashtext c s.hwm s.table

    polled_rows : es ≡ map to_event rows
    unfolding rows
    polled_rows = (poll_all-Polled hashtext c xmin (s.horizon c.gvk) s.hwm s.table p).events

    -- After a successful poll the store shows every watched row.
    pub poll-synced :
        (k : Key)
        → key_selected hashtext c k ≡ true
        → store.get k (absorb_all store owners_ok (h.log ++ rows) first)
          ≡ shown owners_ok (find k s.table)
    unfolding rows
    poll-synced k w =
        ap (store.get k) (absorb_all-append store owners_ok h.log rows first)
        ∙ get-absorb_all store owners_ok k rows held_state (IsKeyed-newer s.hwm s.table h.keyed)
        ∙ ap (λ (o : Option Resource). latest owners_ok o (store.get k held_state))
            (find-newer k s.hwm s.table h.keyed)
        ∙ settled (λ r. selects hashtext c r && ltb s.hwm r.txid_stamp) (find k s.table)
            (store.get k held_state) (ready (h.standing k w))
      where
        held_state : store.State
        held_state = absorb_all store owners_ok h.log first

        ready :
            Standing hashtext c owners_ok k s (store.get k held_state)
            → (store.get k held_state ≡ shown owners_ok (find k s.table))
              ⊎ ((r : Resource) × (find k s.table ≡ some r)
                  × ((selects hashtext c r && ltb s.hwm r.txid_stamp) ≡ true))
        ready (synced e) = inl e
        ready (behind r f l) =
            let b : selects hashtext c r ≡ true =
              key-selects hashtext c k r w (key-find k s.table f) in
            inr (r, f, ground (arith, b, l))
        ready (cut x f l g) = absurd (
            not_behind hashtext c s.hwm (s.horizon c.gvk) s.hwm x
              (poll_all-Polled hashtext c xmin (s.horizon c.gvk) s.hwm s.table p).within l g)

    pub poll-logged : s.delivered ++ es ≡ map to_event (h.log ++ rows)
    poll-logged =
        ap (λ ds. ds ++ es) h.logged
        ∙ ap (λ ds. map to_event h.log ++ ds) polled_rows
        ∙ sym (map-append_rows h.log rows)

    poll-IsFollowed : IsFollowed (record s { hwm = hwm'; delivered = s.delivered ++ es })
    poll-IsFollowed = record {
      log = h.log ++ rows;
      logged = poll-logged;
      keyed = h.keyed;
      standing = λ k w. synced (poll-synced k w);
    }

  write-IsFollowed :
      (s : System) {xs : List ℕ} {r : Resource} (d : Draw) (p : WriteParams)
      → Finish d.txid s.active xs
      → upsert d p (find p.key s.table) ≡ ok r
      → All (λ x. s.hwm < x) s.active
      → IsFollowed s
      → IsFollowed (record s { table = put r s.table; active = xs })
  write-IsFollowed s {xs} {r} d p f u a h = record {
    log = h.log;
    logged = h.logged;
    keyed = IsKeyed-put r s.table h.keyed;
    standing = λ k w. Standing-write hashtext c owners_ok k s xs r above (h.standing k w);
  }
    where
      above : s.hwm < r.txid_stamp
      above = omega (
        arith,
        All-In (λ x. s.hwm < x) s.active a (Finish-In f),
        (upsert-stamp d p (find p.key s.table) u).0,
      )

  compaction-IsFollowed :
      (s : System) (now retention : ℕ)
      → IsFollowed s
      → IsFollowed (after_compaction hashtext c owners_ok s now retention)
  unfolding after_compaction compact
  compaction-IsFollowed s now retention h = record {
    log = h.log;
    logged = h.logged;
    keyed = IsKeyed-keep _ s.table h.keyed;
    standing = λ k w.
        Standing-compaction hashtext c owners_ok s now retention k h.keyed w (h.standing k w);
  }

  unchanged-IsFollowed :
      (s t : System)
      → t.table ≡ s.table
      → t.hwm ≡ s.hwm
      → t.delivered ≡ s.delivered
      → t.horizon ≡ s.horizon
      → IsFollowed s
      → IsFollowed t
  unchanged-IsFollowed s t e m d g h = record {
    log = h.log;
    logged = d ∙ h.logged;
    keyed = rw e h.keyed;
    standing = λ k w.
        Standing-keep hashtext c owners_ok k s t (ap (find k) e) m
          (λ x y. subst (λ (f : Text → Option ℕ). Reaches (f c.gvk) x) (sym g) y) (h.standing k w);
  }

  Step-IsFollowed :
      {s t : System}
      → Step hashtext c s t
      → All (λ x. s.hwm < x) s.active
      → IsFollowed s
      → IsFollowed t
  Step-IsFollowed {s} begin a h = unchanged-IsFollowed s _ refl refl refl refl h
  Step-IsFollowed {s} (write d p f u) a h = write-IsFollowed s d p f u a h
  Step-IsFollowed {s} (give_up x f) a h = unchanged-IsFollowed s _ refl refl refl refl h
  Step-IsFollowed {s} (compaction now retention) a h =
      unfold after_compaction in compaction-IsFollowed s now retention h
  Step-IsFollowed {s} (polls xmin a n p) b h = poll-IsFollowed s xmin h p

  pub Reach-IsFollowed :
      {s t : System} → IsStart s → IsFollowed s → Reach hashtext c s t → IsFollowed t
  Reach-IsFollowed i h here = h
  Reach-IsFollowed i h (next r st) =
      Step-IsFollowed st (IsSafe.below_active (Reach-IsSafe hashtext c i r))
        (Reach-IsFollowed i h r)
