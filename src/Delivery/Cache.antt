-- ===== src/Delivery/Cache.antt =====
-- An informer over the database: its list, and then its watch, fill a store that shows the table.
pub mod Follow
pub mod Refine
use native.Mathlib.Decide.{dec_lt}
use postgres_controller_back.Base.{
  ℕ, suc, ◌≡◌, ◌≤◌, ◌<◌, refl, Bool, true, false, not, ◌&&◌, Option, none, some, List, [], ◌∷◌,
  ◌++◌, map, In, All, All-In, ◌⊎◌, inl, inr, Outcome, ok, arith, subst, ap, sym, ◌∙◌, Option-cases,
  Bool-cases, keep, ltb, if◌then◌else◌,
}
use postgres_controller_back.Base.Int.{ℤ}
use postgres_controller_back.Base.Text.{Text, text_eq, text_eq_iff}
use postgres_controller_back.Json.{Json}
use postgres_controller_back.Model.{Key, Resource, key_eq, key_eq_iff}
use postgres_controller_back.Table.{
  Table, find, put, find-put, find-In, key-find, IsKeyed, IsKeyed-put,
}
use postgres_controller_back.Table.Keyed.{passing, find-keep, IsKeyed-keep}
use postgres_controller_back.Writer.Params.{WriteParams, Draw}
use postgres_controller_back.Writer.Proc.{upsert, is_tombstone}
use postgres_controller_back.Writer.Upserts.{upsert-stamp}
use postgres_controller_back.Reader.Shard.{in_shard}
use postgres_controller_back.Reader.Rows.{order_by_stamp, In-keep}
use postgres_controller_back.Reader.Rows.Keyed.{find-order, IsKeyed-order}
use postgres_controller_back.Reader.Poll.{
  Event, to_event, WatcherConfig, selects, newer, poll_all, poll_all-Polled, is_behind,
}
use postgres_controller_back.Compaction.{
  compact, is_compactable, effective_retention, Reaches, raise_keeps, raise_covers,
}
use postgres_controller_back.Delivery.{
  System, Finish, Step, begin, write, give_up, compaction, polls,
}
use postgres_controller_back.Delivery.Invariant.{Finish-In, IsSafe, not_behind}
use postgres_controller_back.Runtime.Store.{
  Store, absorb_all, absorb_all-append, get-absorb_all, shown, latest,
}
use postgres_controller_back.Runtime.Convert.{is_fully_deleted}
use postgres_controller_back.Runtime.Convert.Tombstone.{is_tombstone-is_fully_deleted}

pub map-append_rows :
    (rs qs : List Resource) → map to_event (rs ++ qs) ≡ map to_event rs ++ map to_event qs
map-append_rows [] qs = refl
map-append_rows (r ∷ rs) qs = ap (λ es. to_event r ∷ es) (map-append_rows rs qs)

module _ (hashtext : Text → ℤ) (c : WatcherConfig) where
  -- The keys that the informer watches.
  abbrev pub key_selected : Key → Bool
  key_selected k = text_eq k.gvk c.gvk && in_shard hashtext c.shard k.namespace

  pub key-selects :
      (k : Key) (r : Resource) → key_selected k ≡ true → r.key ≡ k → selects hashtext c r ≡ true
  unfolding selects
  key-selects k r h e = subst (λ j. key_selected j ≡ true) (sym e) h

  key-gvk : (k : Key) → key_selected k ≡ true → k.gvk ≡ c.gvk
  key-gvk k h = (text_eq_iff k.gvk c.gvk).0 (ground arith)

  module _ (owners_ok : Json → Bool) where
    -- How a key stands: the store shows its row; or the row is above the mark, and will be polled; or
    -- it was compacted before it was polled, and the next poll will say so.
    pub data Standing (k : Key) (s : System) (held : Option Resource) : Type 0 where
      synced : held ≡ shown owners_ok (find k s.table) → Standing k s held
      behind : (r : Resource) → find k s.table ≡ some r → s.hwm < r.txid_stamp → Standing k s held
      cut :
          (x : ℕ)
          → find k s.table ≡ none
          → s.hwm < x
          → Reaches (s.horizon c.gvk) x
          → Standing k s held

    -- A step that leaves the key's row alone and lowers no horizon keeps the standing.
    pub Standing-keep :
        (k : Key) (s t : System) {held : Option Resource}
        → find k t.table ≡ find k s.table
        → t.hwm ≡ s.hwm
        → ((x : ℕ) → Reaches (s.horizon c.gvk) x → Reaches (t.horizon c.gvk) x)
        → Standing k s held
        → Standing k t held
    Standing-keep k s t e m f (synced h) = synced (h ∙ ap (shown owners_ok) (sym e))
    Standing-keep k s t e m f (behind r h l) = behind r (e ∙ h) (rw m l)
    Standing-keep k s t e m f (cut x h l g) = cut x (e ∙ h) (rw m l) (f x g)

    pub Standing-write :
        (k : Key) (s : System) (xs : List ℕ) (r : Resource) {held : Option Resource}
        → s.hwm < r.txid_stamp
        → Standing k s held
        → Standing k (record s { table = put r s.table; active = xs }) held
    Standing-write k s xs r above h = elim (Bool-cases (key_eq r.key k)) [
      | inl e ↦ behind r (find-put k r s.table ∙ rw e) above
      | inr e ↦
          Standing-keep k s (record s { table = put r s.table; active = xs })
            (find-put k r s.table ∙ rw e) refl (λ x g. g) h
    ]

    module _ (s : System) (now retention : ℕ) where
      pub after_compaction : System
      after_compaction = record s {
        table = (compact now retention s.table s.horizon).table;
        horizon = (compact now retention s.table s.horizon).horizon;
        compacted = s.compacted ++ (compact now retention s.table s.horizon).removed;
      }

      abbrev old : Resource → Bool
      old = is_compactable now (effective_retention retention)

      old-is_tombstone : (r : Resource) → old r ≡ true → is_tombstone r ≡ true
      unfolding is_compactable
      old-is_tombstone r h = ground arith

      horizon_keeps :
          (x : ℕ) → Reaches (s.horizon c.gvk) x → Reaches (after_compaction.horizon c.gvk) x
      unfolding after_compaction compact
      horizon_keeps x g = raise_keeps s.horizon (keep old s.table) c.gvk x g

      find-after :
          (k : Key)
          → IsKeyed s.table
          → find k after_compaction.table ≡ passing (λ r. not (old r)) (find k s.table)
      unfolding after_compaction compact
      find-after k h = find-keep (λ r. not (old r)) k s.table h

      removed-Reaches :
          (k : Key) (r : Resource)
          → key_selected k ≡ true
          → find k s.table ≡ some r
          → old r ≡ true
          → Reaches (after_compaction.horizon c.gvk) r.txid_stamp
      unfolding after_compaction compact
      removed-Reaches k r w f b =
          subst (λ g. Reaches (after_compaction.horizon g) r.txid_stamp)
            (ap (λ (j : Key). j.gvk) (key-find k s.table f) ∙ key-gvk k w)
            (raise_covers s.horizon (keep old s.table) r
              (In-keep old r s.table (find-In k s.table f) b))

      hwm-after : after_compaction.hwm ≡ s.hwm
      unfolding after_compaction
      hwm-after = refl

      Standing-removed :
          (k : Key) (r : Resource) {held : Option Resource}
          → key_selected k ≡ true
          → find k s.table ≡ some r
          → old r ≡ true
          → find k after_compaction.table ≡ none
          → Standing k s held
          → Standing k after_compaction held
      Standing-removed k r w f b g (synced h) = synced (
          h
          ∙ ap (shown owners_ok) f
          ∙ rw (is_tombstone-is_fully_deleted owners_ok r (old-is_tombstone r b))
              (sym (ap (shown owners_ok) g)))
      Standing-removed k r w f b g (behind r' f' l) =
          cut r.txid_stamp g
            (rw hwm-after (omega (arith, l, ap (λ (y : Resource). y.txid_stamp) same_row)))
            (removed-Reaches k r w f b)
        where
          same_row : r ≡ r'
          same_row = cc
      Standing-removed k r w f b g (cut x f' l u) = absurd (cc)

      pub Standing-compaction :
          (k : Key) {held : Option Resource}
          → IsKeyed s.table
          → key_selected k ≡ true
          → Standing k s held
          → Standing k after_compaction held
      Standing-compaction k {held} h w st = go (find k s.table) refl
        where
          go : (o : Option Resource) → find k s.table ≡ o → Standing k after_compaction held
          go none f =
              Standing-keep k s after_compaction (find-after k h ∙ rw f) hwm-after horizon_keeps st
          go (some r) f = elim (Bool-cases (old r)) [
            | inl b ↦ Standing-removed k r w f b (find-after k h ∙ rw f (rw b)) st
            | inr b ↦
                Standing-keep k s after_compaction (find-after k h ∙ rw f (rw b)) hwm-after
                  horizon_keeps st
          ]
