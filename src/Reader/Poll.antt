-- ===== src/Reader/Poll.antt =====
-- internal/reader/event.go, and `pollAll` and the transaction of `poll` of internal/reader/watcher.go. `xmin` is what
-- pg_snapshot_xmin reports for the snapshot of the poll, and `compacted` the GVK's compaction horizon.
use postgres_controller_back.Base.{
  ℕ, zero, suc, ◌≡◌, ◌<◌, ◌≤◌, refl, Bool, true, false, ◌&&◌, Option, none, some, List, [], ◌∷◌,
  map, ltb, ◌==◌, if◌then◌else◌, Outcome, ok, err, keep, In, here, there, arith, ap, sym, ◌∙◌,
}
use postgres_controller_back.Base.Int.{ℤ}
use postgres_controller_back.Base.Text.{Text, text_eq}
use postgres_controller_back.Model.{Resource}
use postgres_controller_back.Table.{Table}
use postgres_controller_back.Reader.Shard.{ShardSpec, in_shard}
use postgres_controller_back.Reader.Rows.{
  IsOrdered, order-IsOrdered, order_by_stamp, In-order, order-In, In-keep, keep-In,
}

pub data EventType : Type 0 where
  added modified deleted : EventType

pub record Event : Type 0 where
  pub type : EventType
  pub resource : Resource

abbrev pub deletion_type : Option ℕ → EventType → EventType
deletion_type none t = t
deletion_type (some _) t = deleted

unfoldable pub event_type : Resource → EventType
event_type r =
    deletion_type r.deletion_timestamp (if r.object_version == 1 then added else modified)

unfoldable pub to_event : Resource → Event
unfolding event_type
to_event r = record { type = event_type r; resource = r }

-- ErrGone, the statement at which the poll's transaction fails, and a context that ends while events
-- are sent.
pub data PollError : Type 0 where
  gone begin_failed query_failed commit_failed send_cancelled : PollError

pub record WatcherConfig : Type 0 where
  pub gvk : Text
  pub shard : Option ShardSpec

-- `compactedXid != nil && w.hwm < *compactedXid`
abbrev pub is_behind : Option ℕ → ℕ → Bool
is_behind none hwm = false
is_behind (some h) hwm = ltb hwm h

-- The high-water mark goes to xmin - 1, and never back.
unfoldable pub advance : ℕ → ℕ → ℕ
advance zero hwm = hwm
advance (suc x) hwm = if ltb hwm x then x else hwm

-- Where the transaction of a poll fails, if it does.
pub data PollFault : Type 0 where
  no_fault at_begin at_query at_commit : PollFault

module _ (hashtext : Text → ℤ) where
  -- The rows that the configuration selects.
  unfoldable pub selects : WatcherConfig → Resource → Bool
  selects c r = text_eq r.gvk c.gvk && in_shard hashtext c.shard r.namespace

  -- The poll's query.
  unfoldable pub newer : WatcherConfig → ℕ → Table → Table
  newer c hwm t = order_by_stamp (keep (λ r. selects c r && ltb hwm r.txid_stamp) t)

  -- The events, and the new high-water mark.
  unfoldable pub poll_all :
      WatcherConfig → ℕ → Option ℕ → ℕ → Table → Outcome PollError (List Event × ℕ)
  poll_all c xmin compacted hwm t =
      if is_behind compacted hwm
      then err gone
      else ok (map to_event (newer c hwm t), advance xmin hwm)

  -- The transaction of `poll`: its events beside the watcher's high-water mark, which has moved even
  -- where the commit then fails.
  unfoldable pub poll_tx :
      PollFault → WatcherConfig → ℕ → Option ℕ → ℕ → Table → Outcome PollError (List Event) × ℕ
  poll_tx at_begin c xmin compacted hwm t = (err begin_failed, hwm)
  poll_tx at_query c xmin compacted hwm t = (err query_failed, hwm)
  poll_tx at_commit c xmin compacted hwm t = elim (poll_all c xmin compacted hwm t) [
    | ok (es, hwm') ↦ (err commit_failed, hwm')
    | err e ↦ (err e, hwm)
  ]
  poll_tx no_fault c xmin compacted hwm t = elim (poll_all c xmin compacted hwm t) [
    | ok (es, hwm') ↦ (ok es, hwm')
    | err e ↦ (err e, hwm)
  ]

pub advance_bounds : (xmin hwm : ℕ) → (hwm ≤ advance xmin hwm) × (xmin ≤ suc (advance xmin hwm))
unfolding advance
advance_bounds zero hwm = (omega arith, omega arith)
advance_bounds (suc x) hwm = ground arith

pub advance-lt : (xmin hwm n : ℕ) → hwm < n → xmin ≤ n → advance xmin hwm < n
unfolding advance
advance-lt zero hwm n h k = h
advance-lt (suc x) hwm n h k = ground arith

In-map : (x : Resource) (t : Table) → In x t → In (to_event x) (map to_event t)
In-map x [] i = elim i [ ]
In-map x (y ∷ t) (here e) = here (ap to_event e)
In-map x (y ∷ t) (there i) = there (In-map x t i)

pub resource-to_event : (r : Resource) → (to_event r).resource ≡ r
unfolding to_event
resource-to_event r = refl

map-In : (e : Event) (t : Table) → In e (map to_event t) → In e.resource t
map-In e [] i = elim i [ ]
map-In e (y ∷ t) (here p) = here (sym (resource-to_event y) ∙ ap (λ (x : Event). x.resource) p)
map-In e (y ∷ t) (there i) = there (map-In e t i)

module _ (hashtext : Text → ℤ) (c : WatcherConfig) (xmin : ℕ) (compacted : Option ℕ) (hwm : ℕ)
    (t : Table) where
  -- What a successful poll has checked and done.
  pub record Polled (es : List Event) (hwm' : ℕ) : Type 0 where
    pub within : is_behind compacted hwm ≡ false
    pub events : es ≡ map to_event (newer hashtext c hwm t)
    pub mark : hwm' ≡ advance xmin hwm

  pub poll_all-Polled :
      {es : List Event} {hwm' : ℕ}
      → poll_all hashtext c xmin compacted hwm t ≡ ok (es, hwm')
      → Polled es hwm'
  unfolding poll_all
  poll_all-Polled h = record { within = ground arith; events = ground arith; mark = ground arith }

  -- A successful poll gives exactly the selected rows above the mark: each of them has its event.
  pub poll_all_complete :
      {es : List Event} {hwm' : ℕ} (r : Resource)
      → poll_all hashtext c xmin compacted hwm t ≡ ok (es, hwm')
      → In r t
      → selects hashtext c r ≡ true
      → hwm < r.txid_stamp
      → In (to_event r) es
  poll_all_complete r h i s l = rw (poll_all-Polled h).events (
      In-map r (newer hashtext c hwm t)
        (unfold newer in In-order r (keep _ t) (In-keep _ r t i (ground arith))))

  newer-In :
      (r : Resource)
      → In r (newer hashtext c hwm t)
      → In r t × (selects hashtext c r ≡ true) × (hwm < r.txid_stamp)
  unfolding newer
  newer-In r i =
      let (k, b) =
        keep-In (λ x. selects hashtext c x && ltb hwm x.txid_stamp) r t (order-In r (keep _ t) i) in
      (k, ground arith, ground arith)

  -- And each of its events is of a row in the table that is selected and above the mark.
  pub poll_all_sound :
      {es : List Event} {hwm' : ℕ} (e : Event)
      → poll_all hashtext c xmin compacted hwm t ≡ ok (es, hwm')
      → In e es
      → In e.resource t × (selects hashtext c e.resource ≡ true) × (hwm < e.resource.txid_stamp)
  poll_all_sound e h i =
      let j : In e (map to_event (newer hashtext c hwm t)) = rw (poll_all-Polled h).events at i in
      newer-In e.resource (map-In e (newer hashtext c hwm t) j)

  -- The events of a successful poll come in the order of their stamps.
  pub poll_all-IsOrdered :
      {es : List Event} {hwm' : ℕ}
      → poll_all hashtext c xmin compacted hwm t ≡ ok (es, hwm')
      → (rs : Table) × (es ≡ map to_event rs) × IsOrdered rs
  poll_all-IsOrdered h = (
    newer hashtext c hwm t,
    (poll_all-Polled h).events,
    unfold newer in order-IsOrdered (keep (λ r. selects hashtext c r && ltb hwm r.txid_stamp) t),
  )
