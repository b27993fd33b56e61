-- ===== src/Delivery/Cache/Refine.antt =====
-- The store of an informer refines the table: list first, then watch.
use postgres_controller_back.Base.{
  ℕ, ◌≡◌, refl, Bool, true, not, ◌&&◌, Option, none, some, List, [], ◌++◌, In, inl, inr, ok, arith,
  subst, ap, sym, ◌∙◌, Bool-cases,
}
use postgres_controller_back.Base.Int.{ℤ}
use postgres_controller_back.Base.Text.{Text, text_eq}
use postgres_controller_back.Json.{Json}
use postgres_controller_back.Model.{Key, Resource}
use postgres_controller_back.Table.{find, key-find, find-In, IsKeyed}
use postgres_controller_back.Table.Keyed.{passing}
use postgres_controller_back.ResourceVersion.{Rv}
use postgres_controller_back.Writer.Proc.{is_tombstone}
use postgres_controller_back.Reader.Shard.{in_shard}
use postgres_controller_back.Reader.List.{
  list, is_listed, is_listed-is_tombstone, informer_filter, find-list, IsKeyed-list,
}
use postgres_controller_back.Reader.Poll.{Event, WatcherConfig, poll_all}
use postgres_controller_back.Delivery.{System, Reach}
use postgres_controller_back.Delivery.Complete.{IsStart}
use postgres_controller_back.Delivery.Cache.{key_selected, synced}
use postgres_controller_back.Runtime.Store.{Store, absorb_all, shown, follow, follow-relay}
use postgres_controller_back.Runtime.Convert.{is_fully_deleted}
use postgres_controller_back.Runtime.Relay.{relay, stopped}
use postgres_controller_back.Delivery.Cache.Follow.{
  IsFollowed, poll-synced, poll-logged, Reach-IsFollowed,
}

-- The informer starts from the list of a database in which no key stands twice and Go and SQL agree on
-- the tombstones, at the list's watermark.
pub record Listed (hashtext : Text → ℤ) (c : WatcherConfig) (owners_ok : Json → Bool) (xmin : ℕ)
    (s : System) : Type 0 where
  pub start : IsStart s
  pub mark :
      s.hwm
      ≡ (list xmin c.gvk (informer_filter hashtext c.shard) s.table).resource_version.watermark
  pub keyed : IsKeyed s.table
  pub agreed : (r : Resource) → In r s.table → is_fully_deleted owners_ok r ≡ is_tombstone r

module _ (hashtext : Text → ℤ) (c : WatcherConfig) (owners_ok : Json → Bool)
    (convertible : Resource → Bool) (store : Store) where
  -- What the Reflector puts into the store first.
  abbrev pub first_store : ℕ → System → store.State
  first_store xmin s =
      store.replace (list xmin c.gvk (informer_filter hashtext c.shard) s.table).resources

  listed_shown :
      (k : Key) (o : Option Resource)
      → key_selected hashtext c k ≡ true
      → ((r : Resource)
          → o ≡ some r
          → (r.key ≡ k) × (is_fully_deleted owners_ok r ≡ is_tombstone r))
      → passing
          (λ r. in_shard hashtext c.shard r.namespace)
          (passing (λ r. text_eq r.gvk c.gvk && is_listed r) o)
        ≡ shown owners_ok o
  listed_shown k none w f = refl
  listed_shown k (some r) w f =
      let (e, a) = f r refl in
      let (g, n) = key_parts k r w e in
      let l : is_listed r ≡ not (is_fully_deleted owners_ok r) =
        is_listed-is_tombstone r ∙ ap not (sym a) in
      elim (Bool-cases (is_fully_deleted owners_ok r)) [
        | inl b ↦ rw (g, l, b)
        | inr b ↦ rw (g, l, b) (rw n)
      ]
    where
      key_parts :
          (k : Key) (r : Resource)
          → key_selected hashtext c k ≡ true
          → r.key ≡ k
          → (text_eq r.gvk c.gvk ≡ true) × (in_shard hashtext c.shard r.namespace ≡ true)
      key_parts k r w e =
          let w' : key_selected hashtext c r.key ≡ true =
            subst (λ j. key_selected hashtext c j ≡ true) (sym e) w in
          (ground arith, ground arith)

  start-IsFollowed :
      (xmin : ℕ) (s : System)
      → Listed hashtext c owners_ok xmin s
      → IsFollowed hashtext c owners_ok store (first_store xmin s) s
  unfolding absorb_all
  start-IsFollowed xmin s h = record {
    log = [];
    logged = h.start.fresh.0;
    keyed = h.keyed;
    standing = λ k w. synced (
        store.get-replace k _ (IsKeyed-list hashtext xmin c.gvk c.shard s.table h.keyed)
        ∙ find-list hashtext k xmin c.gvk c.shard s.table h.keyed
        ∙ listed_shown k (find k s.table) w
            (λ r f. (key-find k s.table f, h.agreed r (find-In k s.table f))));
  }

  -- The store of an informer refines the table. It is filled by the list and then takes what the relay
  -- makes of the watcher's events, while writers, aborts, compactions and polls interleave: after each
  -- successful poll it holds, under every key that the informer watches, the row that stands there, or
  -- nothing if there is none or a fully deleted one.
  pub store_refines_table :
      {s t : System} {es : List Event} {hwm' : ℕ} (start_xmin xmin : ℕ) (rv : Rv)
      → ((r : Resource) → convertible r ≡ true)
      → Listed hashtext c owners_ok start_xmin s
      → Reach hashtext c s t
      → poll_all hashtext c xmin (t.horizon c.gvk) t.hwm t.table ≡ ok (es, hwm')
      → (k : Key) → key_selected hashtext c k ≡ true
      → store.get k (
          follow store
            (relay owners_ok convertible rv (t.delivered ++ es) stopped)
            (first_store start_xmin s))
        ≡ shown owners_ok (find k t.table)
  store_refines_table {s} {t} {es} start_xmin xmin rv all h r p k w =
      let first : store.State = first_store start_xmin s in
      let f : IsFollowed hashtext c owners_ok store first t =
        Reach-IsFollowed hashtext c owners_ok store first h.start (start-IsFollowed start_xmin s h)
          r in
      ap (λ ds. store.get k (follow store (relay owners_ok convertible rv ds stopped) first))
        (poll-logged hashtext c owners_ok store first t xmin f p)
      ∙ ap (store.get k) (follow-relay store owners_ok convertible all rv _ first)
      ∙ poll-synced hashtext c owners_ok store first t xmin f p k w
