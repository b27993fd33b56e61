-- ===== src/LoadTest/Seeder.antt =====
-- loadtest/cmd/loadtest/seeder.go: the documents of a seeded object, padded to a size, and `Seed`, which
-- writes them. `marshal` is encoding/json, `random` the bytes of math/rand. The counters of the program
-- do not reach 2^63.
pub mod Documents
pub mod Catalog
pub mod ClusterSpec
pub mod ClusterStatus
pub mod Pools
pub mod Padding
pub mod Objects
pub mod Filled
use postgres_controller_back.Base.{
  ℕ, zero, suc, ◌+◌, ◌-◌, ◌*◌, ◌/◌, Bool, true, false, ◌&&◌, ◌||◌, some, none, List, [], ◌∷◌, ◌++◌,
  length, take, ltb, leb, ◌==◌, if◌then◌else◌, Outcome, ok, err, min, max,
}
use postgres_controller_back.Base.Int.{ℤ, pos, negsuc}
use postgres_controller_back.Base.Text.{Text, codes, text_eq}
use postgres_controller_back.Json.{
  Json, null, bool, num, str, arr, obj, Members, end, member, empty_object,
}
use postgres_controller_back.Base64.{encode}
use postgres_controller_back.Strconv.{format_uint}
use postgres_controller_back.Model.{Key, WriteRequest}
use postgres_controller_back.Writer.Client.{WriteError, World}
use postgres_controller_back.Writer.Entry.{write}
use postgres_controller_back.Writer.Plain.{plain_writer}
use postgres_controller_back.LoadTest.Config.{SeedGvk}
use postgres_controller_back.LoadTest.Traffic.{Attempt}
use postgres_controller_back.LoadTest.Seeder.Documents.{padded, number}
use postgres_controller_back.LoadTest.Seeder.ClusterSpec.{hosted_cluster_spec}
use postgres_controller_back.LoadTest.Seeder.ClusterStatus.{
  hosted_cluster_status, hosted_cluster_metadata,
}
use postgres_controller_back.LoadTest.Seeder.Pools.{
  node_pool_spec, node_pool_status, node_pool_metadata,
}

-- A Go int that counts: nothing below 0.
abbrev pub count_of : ℤ → ℕ
count_of (pos n) = n
count_of (negsuc n) = 0

-- jsonb's order of keys: shorter ones first, then by their bytes.
unfoldable pub bytes_before : Text → Text → Bool
bytes_before [] [] = false
bytes_before [] (y ∷ ys) = true
bytes_before (x ∷ xs) [] = false
bytes_before (x ∷ xs) (y ∷ ys) = let rest = bytes_before xs ys in if x == y then rest else ltb x y

unfoldable pub key_before : Text → Text → Bool
unfolding bytes_before
key_before a b = if length a == length b then bytes_before a b else ltb (length a) (length b)

-- `m[k] = v`
unfoldable pub set_member : Text → Json → Members → Members
unfolding key_before
set_member k v end = member k v end
set_member k v (member j u ms) =
    let rest = set_member k v ms in
    if text_eq j k
    then member k v ms
    else if key_before k j
    then member k v (member j u ms)
    else member j u rest

unfoldable pub set_field : Text → Json → Json → Json
unfolding set_member
set_field k v (obj ms) = obj (set_member k v ms)
set_field k v d = d

abbrev pub repeat : ℕ → ℕ → Text
repeat zero c = []
repeat (suc n) c = c ∷ repeat n c

-- `fmt.Sprintf("openshift.io/loadtest-padding-%04d", i)`
unfoldable pub padding_key : ℕ → Text
unfolding padded
padding_key i = codes "openshift.io/loadtest-padding-" ++ padded 4 i

-- The map `padding` with the i-th entry and those after it, from their lengths.
unfoldable pub padding_from : ℕ → List ℕ → Members
unfolding padding_key
padding_from i [] = end
padding_from i (n ∷ ns) = member (padding_key i) (str (repeat n b'x')) (padding_from (i + 1) ns)

-- `data["_padding"] = padding`; without an entry the data is as it was.
unfoldable pub with_padding : List ℕ → Json → Json
unfolding set_field padding_from
with_padding [] d = d
with_padding (n ∷ ns) d = set_field (codes "_padding") (obj (padding_from 0 (n ∷ ns))) d

module _ (marshal : Json → Text) where
  -- The length of the next entry: what is missing, from 10 to 200.
  unfoldable pub next_padding : ℕ → ℕ → ℕ → ℕ
  unfolding padding_key
  next_padding target size i = min (max (target - size - length (padding_key i) - 20) 10) 200

  -- The loop of `padToSize`, on fuel; `ns` are the lengths of the entries so far.
  unfoldable pub pad_on : ℕ → ℕ → Json → List ℕ → Json
  unfolding with_padding next_padding
  pad_on zero target d ns = with_padding ns d
  pad_on (suc fuel) target d ns =
      let size = length (marshal (with_padding ns d)) in
      let rest = pad_on fuel target d (ns ++ next_padding target size (length ns) ∷ []) in
      if ltb size target then rest else with_padding ns d

  -- One round for each byte of the target is enough.
  unfoldable pub pad_to_size : Json → ℤ → Json
  unfolding pad_on
  pad_to_size d target = pad_on (count_of target) (count_of target) d []

-- The columns of a document that is generated, each with bytes of its own.
pub data Document : Type 0 where
  of_spec of_status of_metadata : Document

-- The bytes that are drawn for a GVK, a document and an object, as many as are asked for.
abbrev pub Draws : Type 0
Draws = Text → Document → ℕ → ℕ → List ℕ

-- `generatePayload`, with the bytes that are drawn.
unfoldable pub generate_payload : (ℕ → List ℕ) → ℤ → ℕ → Json
generate_payload random (negsuc n) idx = empty_object
generate_payload random (pos zero) idx = empty_object
generate_payload random (pos (suc n)) idx =
    let data_len = suc n - 25 in
    obj (
      member (codes "idx") (number idx) (
        member (codes "data") (str (take data_len (encode (random (max (data_len * 3 / 4) 1)))))
          end))

abbrev pub gvk_hosted_cluster : Text
gvk_hosted_cluster = codes "hypershift.openshift.io/v1beta1/HostedCluster"

abbrev pub gvk_node_pool : Text
gvk_node_pool = codes "hypershift.openshift.io/v1beta1/HostedNodePool"

module _ (marshal : Json → Text) (random : Draws) where
  unfoldable pub generate_spec : Text → ℤ → ℕ → Json
  unfolding pad_to_size generate_payload hosted_cluster_spec node_pool_spec
  generate_spec gvk size idx =
      if text_eq gvk gvk_hosted_cluster
      then pad_to_size marshal (hosted_cluster_spec idx) size
      else if text_eq gvk gvk_node_pool
      then pad_to_size marshal (node_pool_spec idx) size
      else generate_payload (random gvk of_spec idx) size idx

  unfoldable pub generate_status : Text → ℤ → ℕ → Json
  unfolding pad_to_size generate_payload hosted_cluster_status node_pool_status
  generate_status gvk size idx =
      if text_eq gvk gvk_hosted_cluster
      then pad_to_size marshal (hosted_cluster_status idx) size
      else if text_eq gvk gvk_node_pool
      then pad_to_size marshal (node_pool_status idx) size
      else generate_payload (random gvk of_status idx) size idx

  unfoldable pub generate_metadata : Text → ℤ → ℕ → Json
  unfolding pad_to_size generate_payload hosted_cluster_metadata node_pool_metadata
  generate_metadata gvk size idx =
      if text_eq gvk gvk_hosted_cluster
      then pad_to_size marshal (hosted_cluster_metadata idx) size
      else if text_eq gvk gvk_node_pool
      then pad_to_size marshal (node_pool_metadata idx) size
      else generate_payload (random gvk of_metadata idx) size idx

  unfoldable pub seed_key : Text → ℕ → Key
  seed_key gvk i = record {
    gvk = gvk;
    namespace = codes "loadtest-seed";
    name = codes "seed-" ++ gvk ++ codes "-" ++ format_uint i;
  }

  unfoldable pub seed_request : SeedGvk → ℕ → WriteRequest
  unfolding generate_spec generate_status generate_metadata seed_key
  seed_request g i = record {
    key = seed_key g.gvk i;
    spec = some (generate_spec g.gvk g.spec_size_bytes i);
    status = some (generate_status g.gvk g.status_size_bytes i);
    metadata = some (generate_metadata g.gvk g.metadata_size_bytes i);
    deletion_timestamp = none;
    deletion_nanos = 0;
    expected_version = pos 0;
    force_write = false;
  }

-- The GVK and the number of the object whose write failed.
pub data SeedError : Type 0 where
  seed_write_failed : Text → ℕ → WriteError → SeedError

abbrev pub Seeded : Type 0
Seeded = Outcome SeedError (ℕ × World)

module _ (marshal : Json → Text) (random : Draws) (round : Text → Text) (server : ℕ → Attempt) where
  -- The inner loop: `n` objects from the i-th on. `total` counts all writes so far.
  unfoldable pub seed_objects : SeedGvk → ℕ → ℕ → ℕ → World → Seeded
  unfolding seed_request
  seed_objects g zero i total w = ok (total, w)
  seed_objects g (suc n) i total w =
      let a = server total in
      let (r, w') = write round (plain_writer a.link) a.draw (seed_request marshal random g i) w in
      elim r [
        | ok x ↦ seed_objects g n (i + 1) (total + 1) w'
        | err e ↦ err (seed_write_failed g.gvk i e)
      ]

  unfoldable pub seed_on : List SeedGvk → ℕ → World → Seeded
  unfolding seed_objects
  seed_on [] total w = ok (total, w)
  seed_on (g ∷ gs) total w = elim (seed_objects g (count_of g.objects) 0 total w) [
    | ok (total', w') ↦ seed_on gs total' w'
    | err e ↦ err e
  ]

  unfoldable pub seed : List SeedGvk → World → Seeded
  unfolding seed_on
  seed gvks w = seed_on gvks 0 w
