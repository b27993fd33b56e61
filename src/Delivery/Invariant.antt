-- ===== src/Delivery/Invariant.antt =====
-- What holds between the steps: the mark lies below every transaction in progress, and every row at or
-- below the mark has been delivered, the compacted ones included unless the horizon shows them.
use native.Mathlib.Decide.{dec_lt}
use postgres_controller_back.Base.{
  ℕ, suc, ◌≡◌, ◌≤◌, ◌<◌, refl, true, false, Option, none, some, List, [], ◌∷◌, ◌++◌, In, here,
  there, All, All-In, In-append_left, In-append_right, ◌⊎◌, inl, inr, ok, arith, subst, ap,
}
use postgres_controller_back.Base.Int.{ℤ}
use postgres_controller_back.Base.Text.{Text, text_eq_iff}
use postgres_controller_back.Model.{Resource}
use postgres_controller_back.Table.{find, put, In-put}
use postgres_controller_back.Writer.Params.{WriteParams, Draw}
use postgres_controller_back.Writer.Proc.{upsert}
use postgres_controller_back.Writer.Upserts.{upsert-stamp}
use postgres_controller_back.Reader.Poll.{
  Event, to_event, WatcherConfig, selects, poll_all, poll_all_complete, poll_all-Polled, advance,
  advance-lt, is_behind,
}
use postgres_controller_back.Compaction.{compact, Reaches, raise_keeps, raise_covers}
use postgres_controller_back.Reader.Rows.{keep-In}
use postgres_controller_back.Delivery.{
  System, Finish, first, later, Step, begin, write, give_up, compaction, polls,
}

pub Finish-In : {x : ℕ} {xs ys : List ℕ} → Finish x xs ys → In x xs
Finish-In first = here refl
Finish-In (later f) = there (Finish-In f)

Finish-All : (P : ℕ → Type 0) {x : ℕ} {xs ys : List ℕ} → Finish x xs ys → All P xs → All P ys
Finish-All P first (p, h) = h
Finish-All P (later f) (p, h) = (p, Finish-All P f h)

All-weaken : (m n : ℕ) (xs : List ℕ) → m ≤ n → All (λ x. n < x) xs → All (λ x. m < x) xs
All-weaken m n [] h a = tt
All-weaken m n (x ∷ xs) h (p, a) = (omega arith, All-weaken m n xs h a)

All-advance :
    (xmin hwm : ℕ) (xs : List ℕ)
    → All (λ x. hwm < x) xs
    → All (λ x. xmin ≤ x) xs
    → All (λ x. advance xmin hwm < x) xs
All-advance xmin hwm [] a b = tt
All-advance xmin hwm (x ∷ xs) (p, a) (q, b) =
    (advance-lt xmin hwm x p q, All-advance xmin hwm xs a b)

split_append : (r : Resource) (xs ys : List Resource) → In r (xs ++ ys) → In r xs ⊎ In r ys
split_append r [] ys i = inr i
split_append r (x ∷ xs) ys (here e) = inl (here e)
split_append r (x ∷ xs) ys (there i) = go (split_append r xs ys i)
  where
    go : In r xs ⊎ In r ys → In r (x ∷ xs) ⊎ In r ys
    go (inl j) = inl (there j)
    go (inr j) = inr j

module _ (hashtext : Text → ℤ) (c : WatcherConfig) (start : ℕ) where
  abbrev pub Wanted : Resource → Type 0
  Wanted r = (selects hashtext c r ≡ true) × (start < r.txid_stamp)

  pub record IsSafe (s : System) : Type 0 where
    pub below_next : s.hwm < s.next_xid
    pub below_active : All (λ x. s.hwm < x) s.active
    pub caught_up :
        (r : Resource)
        → In r s.table
        → Wanted r
        → r.txid_stamp ≤ s.hwm
        → In (to_event r) s.delivered
    pub kept_or_seen :
        (r : Resource)
        → In r s.compacted
        → Wanted r
        → In (to_event r) s.delivered
          ⊎ ((s.hwm < r.txid_stamp) × Reaches (s.horizon c.gvk) r.txid_stamp)

  write-IsSafe :
      (s : System) {xs : List ℕ} {r : Resource} (d : Draw) (p : WriteParams)
      → Finish d.txid s.active xs
      → upsert d p (find p.key s.table) ≡ ok r
      → IsSafe s
      → IsSafe (record s { table = put r s.table; active = xs })
  write-IsSafe s {r = r} d p f u h = record {
    below_next = h.below_next;
    below_active = Finish-All (λ x. s.hwm < x) f h.below_active;
    caught_up = λ x i w l. new_or_old x w l (In-put r x s.table i);
    kept_or_seen = h.kept_or_seen;
  }
    where
      above : s.hwm < r.txid_stamp
      above = omega (
        arith,
        All-In (λ x. s.hwm < x) s.active h.below_active (Finish-In f),
        (upsert-stamp d p (find p.key s.table) u).0,
      )

      new_or_old :
          (x : Resource)
          → Wanted x
          → x.txid_stamp ≤ s.hwm
          → (x ≡ r) ⊎ In x s.table
          → In (to_event x) s.delivered
      new_or_old x w l (inl e) =
          absurd (omega (arith, above, ap (λ (y : Resource). y.txid_stamp) e))
      new_or_old x w l (inr i) = h.caught_up x i w l

  gvk_of : (r : Resource) → selects hashtext c r ≡ true → r.gvk ≡ c.gvk
  unfolding selects
  gvk_of r s = (text_eq_iff r.gvk c.gvk).0 (ground arith)

  compaction-IsSafe :
      (s : System) (now retention : ℕ)
      → IsSafe s
      → IsSafe (record s {
        table = (compact now retention s.table s.horizon).table;
        horizon = (compact now retention s.table s.horizon).horizon;
        compacted = s.compacted ++ (compact now retention s.table s.horizon).removed;
      })
  unfolding compact
  compaction-IsSafe s now retention h = record {
    below_next = h.below_next;
    below_active = h.below_active;
    caught_up = λ r i w l. h.caught_up r (keep-In _ r s.table i).0 w l;
    kept_or_seen = λ r i w. old_or_new r w (split_append r s.compacted _ i);
  }
    where
      removed : List Resource
      removed = (compact now retention s.table s.horizon).removed

      kept :
          (r : Resource)
          → In (to_event r) s.delivered
            ⊎ ((s.hwm < r.txid_stamp) × Reaches (s.horizon c.gvk) r.txid_stamp)
          → In (to_event r) s.delivered
            ⊎ ((s.hwm < r.txid_stamp)
                × Reaches ((compact now retention s.table s.horizon).horizon c.gvk) r.txid_stamp)
      kept r (inl i) = inl i
      kept r (inr (l, x)) = inr (l, raise_keeps s.horizon removed c.gvk r.txid_stamp x)

      old_or_new :
          (r : Resource)
          → Wanted r
          → In r s.compacted ⊎ In r removed
          → In (to_event r) s.delivered
            ⊎ ((s.hwm < r.txid_stamp)
                × Reaches ((compact now retention s.table s.horizon).horizon c.gvk) r.txid_stamp)
      old_or_new r w (inl i) = kept r (h.kept_or_seen r i w)
      old_or_new r w (inr i) = elim (dec_lt s.hwm r.txid_stamp) [
        | yes l ↦ inr (
          l,
          subst (λ g. Reaches ((compact now retention s.table s.horizon).horizon g) r.txid_stamp)
              (gvk_of r w.0) (raise_covers s.horizon removed r i),
        )
        | no n ↦ inl (h.caught_up r (keep-In _ r s.table i).0 w (omega arith))
      ]

  -- After a successful poll every wanted row of the table, and every one that was compacted away, has
  -- been delivered.
  pub record IsCaughtUp (s : System) : Type 0 where
    pub present : (r : Resource) → In r s.table → Wanted r → In (to_event r) s.delivered
    pub past : (r : Resource) → In r s.compacted → Wanted r → In (to_event r) s.delivered

  pub not_behind : (o : Option ℕ) (hwm x : ℕ) → is_behind o hwm ≡ false → hwm < x → ¬ Reaches o x
  not_behind none hwm x b l r = r
  not_behind (some h) hwm x b l r = ground arith

  module _ (s : System) {es : List Event} {hwm' : ℕ} (xmin : ℕ) (h : IsSafe s)
      (p : poll_all hashtext c xmin (s.horizon c.gvk) s.hwm s.table ≡ ok (es, hwm')) where
    pub poll-IsCaughtUp : IsCaughtUp (record s { hwm = hwm'; delivered = s.delivered ++ es })
    poll-IsCaughtUp = record { present = now; past = before }
      where
        now : (r : Resource) → In r s.table → Wanted r → In (to_event r) (s.delivered ++ es)
        now r i w = elim (dec_lt s.hwm r.txid_stamp) [
          | yes l ↦
              In-append_right s.delivered
                (poll_all_complete hashtext c xmin (s.horizon c.gvk) s.hwm s.table r p i w.0 l)
          | no n ↦ In-append_left es (h.caught_up r i w (omega arith))
        ]

        seen :
            (r : Resource)
            → In (to_event r) s.delivered
              ⊎ ((s.hwm < r.txid_stamp) × Reaches (s.horizon c.gvk) r.txid_stamp)
            → In (to_event r) (s.delivered ++ es)
        seen r (inl i) = In-append_left es i
        seen r (inr (l, x)) = absurd (
            not_behind (s.horizon c.gvk) s.hwm r.txid_stamp
              (poll_all-Polled hashtext c xmin (s.horizon c.gvk) s.hwm s.table p).within l x)

        before : (r : Resource) → In r s.compacted → Wanted r → In (to_event r) (s.delivered ++ es)
        before r i w = seen r (h.kept_or_seen r i w)

    poll-IsSafe :
        All (λ x. xmin ≤ x) s.active
        → xmin ≤ s.next_xid
        → IsSafe (record s { hwm = hwm'; delivered = s.delivered ++ es })
    poll-IsSafe a n =
        let m : hwm' ≡ advance xmin s.hwm =
          (poll_all-Polled hashtext c xmin (s.horizon c.gvk) s.hwm s.table p).mark in
        record {
          below_next = rw m (advance-lt xmin s.hwm s.next_xid h.below_next n);
          below_active = rw m (All-advance xmin s.hwm s.active h.below_active a);
          caught_up = λ r i w l. poll-IsCaughtUp.present r i w;
          kept_or_seen = λ r i w. inl (poll-IsCaughtUp.past r i w);
        }

  begin-IsSafe :
      (s : System)
      → IsSafe s
      → IsSafe (record s { next_xid = suc s.next_xid; active = s.next_xid ∷ s.active })
  begin-IsSafe s h = record {
    below_next = omega (arith, h.below_next);
    below_active = (h.below_next, h.below_active);
    caught_up = h.caught_up;
    kept_or_seen = h.kept_or_seen;
  }

  pub Step-IsSafe : {s t : System} → Step hashtext c s t → IsSafe s → IsSafe t
  Step-IsSafe {s} begin h = begin-IsSafe s h
  Step-IsSafe {s} (write d p f u) h = write-IsSafe s d p f u h
  Step-IsSafe {s} (give_up x f) h = record {
    below_next = h.below_next;
    below_active = Finish-All (λ x. s.hwm < x) f h.below_active;
    caught_up = h.caught_up;
    kept_or_seen = h.kept_or_seen;
  }
  Step-IsSafe {s} (compaction now retention) h = compaction-IsSafe s now retention h
  Step-IsSafe {s} (polls xmin a n p) h = poll-IsSafe s xmin h p a n
