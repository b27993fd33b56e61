-- ===== src/Witnesses/Reading.antt =====
-- The theorems on watches, shards, compaction and texts at concrete inputs.
use postgres_controller_back.Base.{
  ℕ, zero, suc, ◌≡◌, ◌≢◌, ◌<◌, ◌≤◌, refl, true, none, some, [], ◌∷◌, ok, arith, In, here, ◌++◌,
}
use postgres_controller_back.Base.Int.{ℤ, pos, negsuc, int_eq}
use postgres_controller_back.Base.Text.{Text, codes, text_eq}
use postgres_controller_back.Json.{bool, null}
use postgres_controller_back.Model.{Resource, key_eq}
use postgres_controller_back.Table.{find, put}
use postgres_controller_back.Writer.Proc.{upsert, is_tombstone}
use postgres_controller_back.ResourceVersion.{to_text, parse}
use postgres_controller_back.ResourceVersion.RoundTrip.{parse-to_text}
use postgres_controller_back.Reader.Shard.{
  ShardSpec, validate, holders, owners, shards_partition, contains, in_shard,
}
use postgres_controller_back.Reader.Poll.{
  Event, to_event, selects, newer, advance, poll_all, WatcherConfig,
}
use postgres_controller_back.Reader.Rows.{order_by_stamp, insert_by_stamp}
use postgres_controller_back.Delivery.{System, Step, Reach, Finish}
use postgres_controller_back.Delivery.Invariant.{IsCaughtUp}
use postgres_controller_back.Delivery.Complete.{IsStart, no_event_lost}
use postgres_controller_back.Runtime.Relay.{last_rv}
use postgres_controller_back.Runtime.Resume.{resumed_watch_misses}
use postgres_controller_back.Runtime.Convert.{
  StoredMetadata, decode_metadata, extract_metadata, is_fully_deleted,
}
use postgres_controller_back.Runtime.Convert.Stored.{decode-extract, is_fully_deleted-is_tombstone}
use postgres_controller_back.ResourceVersion.{parse_tail, parse_watermark}
use postgres_controller_back.Strconv.{parse_uint, scan}
use postgres_controller_back.Samples

-- A hash and the configuration of a watcher for the tests.
abbrev pub hash : Text → ℤ
hash _ = negsuc 4

abbrev pub pods : WatcherConfig
pods = record { gvk = codes "v1/Pod"; shard = none }

abbrev event_of_job : Event
event_of_job = to_event Samples.job

-- The watch has relayed `job`, of stamp 101, when `web`, of stamp 100, is committed.
resumed :
    poll_all hash pods 105 none
      (last_rv (record { object_version = pos 0; watermark = 50 }) (event_of_job ∷ [])).watermark
      Samples.rows
    ≡ ok ([], 104)
unfolding last_rv poll_all newer selects in_shard text_eq order_by_stamp insert_by_stamp advance
    to_event
resumed = refl

resumed_watch_misses_example : ((e : Event) → In e [] → e.resource.txid_stamp ≢ 100) × (100 ≤ 104)
resumed_watch_misses_example =
    resumed_watch_misses hash pods (record { object_version = pos 0; watermark = 50 })
      (event_of_job ∷ []) 105 none Samples.rows Samples.web (here refl)
      (unfold to_event in omega arith) resumed

-- A system with `job`, whose watcher starts at the mark 109; then `web` is written anew at 110.
abbrev pub start : System
start = record {
  table = Samples.rows;
  horizon = λ _. none;
  next_xid = 110;
  active = [];
  hwm = 109;
  delivered = [];
  compacted = [];
}

abbrev pub flagged : Resource
flagged = record Samples.web {
  txid_stamp = 110;
  object_version = 4;
  spec = bool true;
  updated_at = 50;
}

abbrev pub drawn : System
drawn = record start { next_xid = 111; active = 110 ∷ [] }

abbrev pub flagged_system : System
flagged_system = record drawn { table = put flagged Samples.rows; active = [] }

pub start-IsStart : IsStart start
start-IsStart = record { below_next = omega arith; below_active = tt; fresh = (refl, refl) }

upserted :
    upsert Samples.draw (Samples.set_flag true) (find Samples.web_key Samples.rows) ≡ ok flagged
unfolding upsert find key_eq int_eq
upserted = refl

pub written_in : Reach hash pods start flagged_system
written_in =
    Reach.next (Reach.next Reach.here Step.begin)
      (Step.write Samples.draw (Samples.set_flag true) Finish.first upserted)

pub polled_after :
    poll_all hash pods 111 none 109 flagged_system.table ≡ ok (to_event flagged ∷ [], 110)
unfolding poll_all newer selects in_shard text_eq order_by_stamp insert_by_stamp advance put key_eq
polled_after = refl

no_event_lost_example :
    IsCaughtUp hash pods 109
      (record flagged_system { hwm = 110; delivered = [] ++ to_event flagged ∷ [] })
no_event_lost_example = no_event_lost hash pods 111 start-IsStart written_in polled_after

abbrev stored : StoredMetadata
stored = record {
  labels = (codes "app", codes "web") ∷ [];
  annotations = [];
  owner_references = null;
  finalizers = codes "keep" ∷ [];
  generation = pos 2;
}

decode-extract_example : decode_metadata (λ _. true) (extract_metadata stored) ≡ some stored
decode-extract_example = decode-extract (λ _. true) stored 2 refl refl (omega arith)

is_fully_deleted-is_tombstone_example :
    is_fully_deleted (λ _. true) (record Samples.job { metadata = extract_metadata stored })
    ≡ is_tombstone (record Samples.job { metadata = extract_metadata stored })
is_fully_deleted-is_tombstone_example =
    is_fully_deleted-is_tombstone (λ _. true)
      (record Samples.job { metadata = extract_metadata stored }) stored 2 refl refl refl
      (omega arith)

-- Two replicas, one for each residue of 2.
abbrev replica : ℤ → ShardSpec
replica r = record { modulus = pos 2; owned = r ∷ [] }

first_is_valid : validate (replica (pos 0)) ≡ none
unfolding validate int_eq
first_is_valid = refl

each_held : (r : ℕ) → r < 2 → holders (pos r) (replica (pos 0) ∷ replica (pos 1) ∷ []) ≡ 1
unfolding holders contains int_eq
each_held zero h = refl
each_held (suc zero) h = refl
each_held (suc (suc r)) h = absurd (omega arith)

shards_partition_example :
    owners hash (replica (pos 0) ∷ replica (pos 1) ∷ []) (codes "default") ≡ 1
shards_partition_example =
    shards_partition hash (replica (pos 0)) (replica (pos 1) ∷ []) (codes "default") first_is_valid
      (refl, tt) each_held

parse-to_text_example :
    parse (to_text (record { object_version = pos 12; watermark = 345 }))
    ≡ ok (record { object_version = pos 12; watermark = 345 })
parse-to_text_example = parse-to_text 12 345 (omega arith) (omega arith)

parsed : parse (codes "12345678") ≡ ok (record { object_version = pos 0; watermark = 12345678 })
unfolding parse parse_tail parse_watermark parse_uint scan
parsed = refl
