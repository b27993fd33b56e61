-- ===== src/Runtime/Informers.antt =====
-- The informers of pkg/pgruntime/pgcache.go: one for each GVK, made on demand under the cache's lock,
-- and started with the cache or, later, by themselves. `known` and `new_object` stand for the scheme.
-- The goroutines that are to call an informer's `Run` wait until the scheduler lets one go on.
pub mod Once
use postgres_controller_back.Base.{
  ℕ, ◌≡◌, ◌↔◌, refl, Bool, true, false, not, ◌&&◌, ◌||◌, Option, none, some, List, [], ◌∷◌, ◌++◌,
  map, if◌then◌else◌, Outcome, ok, err, ◌>>=◌, same, same_iff, ℕ_discrete, ◌≤◌,
}
use postgres_controller_back.Base.Int.{ℤ, pos}
use postgres_controller_back.Base.Text.{Text, text_eq}
use postgres_controller_back.Json.{Json}
use postgres_controller_back.Model.{Resource}
use postgres_controller_back.Table.{Table}
use postgres_controller_back.Strconv.{max_uint64}
use postgres_controller_back.ResourceVersion.{Rv, RvError, zero_rv, to_text, parse}
use postgres_controller_back.Reader.Shard.{ShardSpec}
use postgres_controller_back.Reader.List.{ListResult, list, informer_filter, watermark}
use postgres_controller_back.Reader.Poll.{WatcherConfig}
use postgres_controller_back.Runtime.Gvk.{Gvk, gvk_to_string, list_gvk}
use postgres_controller_back.Runtime.Objects.{Object}
use postgres_controller_back.Runtime.Listing.{
  ListError, not_in_scheme, Codec, ObjectList, take_items,
}

unfoldable pub Gvk-discrete : Discrete Gvk
unfolding ℕ_discrete
Gvk-discrete = hlevel ℕ_discrete

unfoldable pub gvk_eq : Gvk → Gvk → Bool
unfolding Gvk-discrete
gvk_eq a b = same Gvk-discrete a b

pub gvk_eq_iff : (a b : Gvk) → (gvk_eq a b ≡ true) ↔ (a ≡ b)
unfolding gvk_eq
gvk_eq_iff a b = same_iff Gvk-discrete a b

pub record Informer : Type 0 where
  pub gvk : Gvk
  pub shard : Option ShardSpec

-- `waiting` and `running` have a GVK for each call of its informer's `Run` that was spawned, or begun.
pub record Cache : Type 0 where
  pub shard : Option ShardSpec
  pub unsharded : List Gvk
  pub informers : List Informer
  pub started : Bool
  pub waiting : List Gvk
  pub running : List Gvk

unfoldable pub new_cache : Option ShardSpec → List Gvk → Cache
new_cache shard unsharded = record {
  shard = shard;
  unsharded = unsharded;
  informers = [];
  started = false;
  waiting = [];
  running = [];
}

unfoldable pub among : Gvk → List Gvk → Bool
among g [] = false
among g (x ∷ xs) = gvk_eq x g || among g xs

unfoldable pub find_informer : Gvk → List Informer → Option Informer
find_informer g [] = none
find_informer g (i ∷ is) = if gvk_eq i.gvk g then some i else find_informer g is

-- `gvkShard`
unfoldable pub shard_of : Gvk → Cache → Option ShardSpec
unfolding among
shard_of g c = if among g c.unsharded then none else c.shard

unfoldable pub add_informer : (Gvk → Bool) → Gvk → Cache → Option Informer × Cache
unfolding shard_of
add_informer known g c =
    let i : Informer = record { gvk = g; shard = shard_of g c } in
    if known g
    then (
      some i,
      record c {
        informers = c.informers ++ i ∷ [];
        waiting = if c.started then c.waiting ++ g ∷ [] else c.waiting;
      },
    )
    else (none, c)

abbrev pub or_add : (Gvk → Bool) → Gvk → Cache → Option Informer → Option Informer × Cache
or_add known g c none = add_informer known g c
or_add known g c (some i) = (some i, c)

unfoldable pub get_or_create_informer : (Gvk → Bool) → Gvk → Cache → Option Informer × Cache
unfolding find_informer add_informer
get_or_create_informer known g c = or_add known g c (find_informer g c.informers)

abbrev pub keys : Cache → List Gvk
keys c = map (λ i. i.gvk) c.informers

-- `Start`, up to the wait for the context's end.
unfoldable pub start : Cache → Cache
start c = record c { started = true; waiting = c.waiting ++ keys c }

-- What other goroutines may do to the cache, one step at a time. A manager starts its cache once.
pub data Step (known : Gvk → Bool) : Cache → Cache → Type 0 where
  asked : (g : Gvk) (c : Cache) → Step known c (get_or_create_informer known g c).1
  opened : (c : Cache) → c.started ≡ false → Step known c (start c)
  launched :
      (before after : List Gvk) (g : Gvk) (c : Cache)
      → c.waiting ≡ before ++ g ∷ after
      → Step known c (record c { waiting = before ++ after; running = c.running ++ g ∷ [] })

pub data Reach (known : Gvk → Bool) (c : Cache) : Cache → Type 0 where
  stay : Reach known c c
  next : {d e : Cache} → Reach known c d → Step known d e → Reach known c e

-- `WatchFuncWithContext`: the watcher's configuration and the mark that it starts from.
unfoldable pub informer_watch : Informer → Text → Outcome RvError (WatcherConfig × ℕ)
informer_watch i version = do
  rv ← (if text_eq version [] then ok zero_rv else parse version)
  ok (record { gvk = gvk_to_string i.gvk; shard = i.shard }, rv.watermark)

module _ (hashtext : Text → ℤ) (codec : Codec) (print : Json → Text) (owners_ok : Json → Bool)
    (inject : Json → Json → Option Json) (new_object : Gvk → Option Object)
    (known : Gvk → Bool) where
  unfoldable pub informer_items : Gvk → ListResult → Outcome ListError ObjectList
  informer_items g result =
      if known (list_gvk g)
      then (take_items codec print owners_ok inject new_object none result.resources >>= λ items.
          ok (record {
            items = items;
            resource_version = to_text result.resource_version;
            continue = [];
          }))
      else err not_in_scheme

  -- `ListWithContextFunc`
  unfoldable pub informer_list : Informer → ℕ → Table → Outcome ListError ObjectList
  unfolding informer_items
  informer_list i xmin t =
      informer_items i.gvk (list xmin (gvk_to_string i.gvk) (informer_filter hashtext i.shard) t)
