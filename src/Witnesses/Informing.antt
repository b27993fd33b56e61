-- ===== src/Witnesses/Informing.antt =====
-- The theorems on the informer's store and on the client at concrete inputs.
use postgres_controller_back.Base.{
  ◌≡◌, ◌≢◌, refl, true, false, Option, none, some, [], ◌∷◌, ◌++◌, All, All-In, if◌then◌else◌,
}
use postgres_controller_back.Base.Text.{codes, text_eq}
use postgres_controller_back.Base.Int.{pos}
use postgres_controller_back.Model.{Key, Resource, key_eq, key_eq_iff}
use postgres_controller_back.Table.{find, IsKeyed}
use postgres_controller_back.Json.{field}
use postgres_controller_back.Writer.Proc.{is_tombstone}
use postgres_controller_back.Reader.Poll.{to_event}
use postgres_controller_back.Reader.Shard.{in_shard}
use postgres_controller_back.Reader.List.{list, watermark}
use postgres_controller_back.Runtime.Convert.{is_fully_deleted, decode_metadata}
use postgres_controller_back.Runtime.Relay.{relay, stopped}
use postgres_controller_back.Runtime.Store.{Store, follow, shown}
use postgres_controller_back.Delivery.Cache.Refine.{Listed, first_store, store_refines_table}
use postgres_controller_back.Samples
use postgres_controller_back.Witnesses.Reading.{
  hash, pods, start, flagged, flagged_system, start-IsStart, written_in, polled_after,
}

-- A store as a function of the key.
abbrev map_store : Store
map_store = record {
  State = Key → Option Resource;
  get = λ k s. s k;
  replace = λ rs k. find k rs;
  update = λ r s k. if key_eq r.key k then some r else s k;
  delete = λ j s k. if key_eq j k then none else s k;
  get-replace = λ k rs h. refl;
  get-update = λ k r s. refl;
  get-delete = λ k j s. refl;
}

rows_agree : All (λ r. is_fully_deleted (λ _. true) r ≡ is_tombstone r) Samples.rows
unfolding is_fully_deleted is_tombstone decode_metadata field
rows_agree = (refl, (refl, tt))

keys_differ : key_eq Samples.job_key Samples.web_key ≡ false
unfolding key_eq
keys_differ = refl

job-ne-web : Samples.job_key ≢ Samples.web_key
job-ne-web e = cc (keys_differ, (key_eq_iff Samples.job_key Samples.web_key).1 e)

rows-IsKeyed : IsKeyed Samples.rows
rows-IsKeyed = ((job-ne-web, tt), (tt, tt))

start-Listed : Listed hash pods (λ _. true) 110 start
unfolding list watermark
start-Listed = record {
  start = start-IsStart;
  mark = refl;
  keyed = rows-IsKeyed;
  agreed = λ r i.
      All-In (λ x. is_fully_deleted (λ _. true) x ≡ is_tombstone x) Samples.rows rows_agree i;
}

web_watched : (text_eq (codes "v1/Pod") (codes "v1/Pod")) ≡ true
unfolding text_eq
web_watched = refl

store_refines_table_example :
    map_store.get Samples.web_key (
      follow map_store
        (relay
          (λ _. true)
          (λ _. true)
          (record { object_version = pos 0; watermark = 109 })
          ([] ++ to_event flagged ∷ [])
          stopped)
        (first_store hash pods (λ _. true) (λ _. true) map_store 110 start))
    ≡ shown (λ _. true) (find Samples.web_key flagged_system.table)
store_refines_table_example =
    store_refines_table hash pods (λ _. true) (λ _. true) map_store 110 111
      (record { object_version = pos 0; watermark = 109 }) (λ r. refl) start-Listed written_in
      polled_after Samples.web_key (unfold text_eq in_shard in refl)
