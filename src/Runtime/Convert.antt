-- ===== src/Runtime/Convert.antt =====
-- pkg/pgruntime/convert.go: the stored metadata, the tombstone test in Go, the resource versions of
-- objects, and GVKs as texts. Go also accepts other capitals in the member names, which the program
-- never writes. `owners_ok` says whether a document decodes as a list of owner references, a type of
-- the Kubernetes libraries; the list itself is kept as the document.
pub mod Lookups
pub mod Stored
pub mod Tombstone
use postgres_controller_back.Base.{
  ℕ, zero, suc, ◌≡◌, refl, Bool, true, false, not, ◌&&◌, Option, none, some, List, [], ◌∷◌, ◌++◌,
  ◌==◌, if◌then◌else◌, Outcome, ok, err, is_some, arith,
}
use postgres_controller_back.Base.Int.{ℤ, pos, int_eq}
use postgres_controller_back.Base.Text.{Text, codes, text_eq}
use postgres_controller_back.Json.{
  Json, null, bool, num, str, arr, obj, Items, nil, cons, Members, end, member, field, find_member,
  json_eq,
}
use postgres_controller_back.Model.{Resource}
use postgres_controller_back.Strconv.{NumError, format_int, parse_int}
use postgres_controller_back.ResourceVersion
use postgres_controller_back.ResourceVersion.{Rv, parse}
use postgres_controller_back.Writer.Proc.{is_tombstone, no_finalizers}

-- `owner_references` is `null` where there are none.
pub record StoredMetadata : Type 0 where
  pub labels : List (Text × Text)
  pub annotations : List (Text × Text)
  pub owner_references : Json
  pub finalizers : List Text
  pub generation : ℤ

abbrev pub no_metadata : StoredMetadata
no_metadata = record {
  labels = [];
  annotations = [];
  owner_references = null;
  finalizers = [];
  generation = pos 0;
}

-- json.Unmarshal into a string, []string, map[string]string and int64; a null leaves the zero value.
unfoldable pub decode_text : Json → Option Text
decode_text null = some []
decode_text (str t) = some t
decode_text (bool b) = none
decode_text (num t) = none
decode_text (arr xs) = none
decode_text (obj ms) = none

abbrev pub cons? {ℓ} : {A : Type ℓ} → Option A → Option (List A) → Option (List A)
cons? none o = none
cons? (some a) none = none
cons? (some a) (some l) = some (a ∷ l)

unfoldable pub decode_items : Items → Option (List Text)
unfolding decode_text
decode_items nil = some []
decode_items (cons x xs) = cons? (decode_text x) (decode_items xs)

unfoldable pub decode_list : Json → Option (List Text)
unfolding decode_items
decode_list null = some []
decode_list (arr xs) = decode_items xs
decode_list (bool b) = none
decode_list (num t) = none
decode_list (str t) = none
decode_list (obj ms) = none

abbrev pub pair? : Text → Option Text → Option (Text × Text)
pair? k none = none
pair? k (some v) = some (k, v)

unfoldable pub decode_members : Members → Option (List (Text × Text))
unfolding decode_text
decode_members end = some []
decode_members (member k v ms) = cons? (pair? k (decode_text v)) (decode_members ms)

unfoldable pub decode_map : Json → Option (List (Text × Text))
unfolding decode_members
decode_map null = some []
decode_map (obj ms) = decode_members ms
decode_map (bool b) = none
decode_map (num t) = none
decode_map (str t) = none
decode_map (arr xs) = none

abbrev pub int_of : Outcome NumError ℤ → Option ℤ
int_of (ok n) = some n
int_of (err e) = none

unfoldable pub decode_int : Json → Option ℤ
decode_int null = some (pos 0)
decode_int (num t) = int_of (parse_int t)
decode_int (bool b) = none
decode_int (str t) = none
decode_int (arr xs) = none
decode_int (obj ms) = none

-- An absent member leaves the zero value.
abbrev pub or_null : Option Json → Json
or_null none = null
or_null (some j) = j

abbrev pub bind {ℓ κ} : {A : Type ℓ} {B : Type κ} → Option A → (A → Option B) → Option B
bind none f = none
bind (some a) f = f a

module _ (owners_ok : Json → Bool) where
  abbrev decode_owners : Json → Option Json
  decode_owners j = if owners_ok j then some j else none

  -- json.Unmarshal into storedMetadata.
  unfoldable pub decode_metadata : Json → Option StoredMetadata
  unfolding decode_map decode_list decode_int
  decode_metadata null = some no_metadata
  decode_metadata (obj ms) = bind (decode_map (or_null (find_member (codes "labels") ms))) λ l.
      bind (decode_map (or_null (find_member (codes "annotations") ms))) λ a.
        bind (decode_owners (or_null (find_member (codes "ownerReferences") ms))) λ o.
          bind (decode_list (or_null (find_member (codes "finalizers") ms))) λ f.
            bind (decode_int (or_null (find_member (codes "generation") ms))) λ g. some (record {
              labels = l;
              annotations = a;
              owner_references = o;
              finalizers = f;
              generation = g;
            })
  decode_metadata (bool b) = none
  decode_metadata (num t) = none
  decode_metadata (str t) = none
  decode_metadata (arr xs) = none

  abbrev any_finalizer : Option StoredMetadata → Bool
  any_finalizer none = false
  any_finalizer (some sm) = elim sm.finalizers [ [] ↦ false | f ∷ fs ↦ true ]

  unfoldable pub has_finalizers : Resource → Bool
  has_finalizers r = any_finalizer (decode_metadata r.metadata)

  unfoldable pub is_fully_deleted : Resource → Bool
  unfolding has_finalizers
  is_fully_deleted r = is_some r.deletion_timestamp && not (has_finalizers r)

  -- The metadata that an object is given; a document that does not decode leaves it as it was.
  unfoldable pub populated_metadata : StoredMetadata → Json → StoredMetadata
  populated_metadata old j = elim (decode_metadata j) [ none ↦ old | some sm ↦ sm ]

  unfoldable pub current_generation : Json → ℤ
  current_generation j = elim (decode_metadata j) [ none ↦ pos 0 | some sm ↦ sm.generation ]

-- json.Marshal of storedMetadata, with `omitempty`, in the order that jsonb gives the members.
unfoldable pub encode_items : List Text → Items
encode_items [] = nil
encode_items (t ∷ ts) = cons (str t) (encode_items ts)

unfoldable pub encode_members : List (Text × Text) → Members
encode_members [] = end
encode_members ((k, v) ∷ l) = member k (str v) (encode_members l)

abbrev pub map_member : Text → List (Text × Text) → Members → Members
map_member k [] ms = ms
map_member k (p ∷ ps) ms = member k (obj (encode_members (p ∷ ps))) ms

abbrev pub finalizers_member : List Text → Members → Members
finalizers_member [] ms = ms
finalizers_member (f ∷ fs) ms = member (codes "finalizers") (arr (encode_items (f ∷ fs))) ms

abbrev pub generation_member : ℤ → Members → Members
generation_member g ms =
    if int_eq g (pos 0) then ms else member (codes "generation") (num (format_int g)) ms

abbrev pub owners_member : Json → Members → Members
owners_member null ms = ms
owners_member (bool b) ms = member (codes "ownerReferences") (bool b) ms
owners_member (num t) ms = member (codes "ownerReferences") (num t) ms
owners_member (str t) ms = member (codes "ownerReferences") (str t) ms
owners_member (arr xs) ms = member (codes "ownerReferences") (arr xs) ms
owners_member (obj xs) ms = member (codes "ownerReferences") (obj xs) ms

abbrev pub metadata_members : StoredMetadata → Members
metadata_members sm = map_member (codes "labels") sm.labels (
    finalizers_member sm.finalizers (
      generation_member sm.generation
        (map_member (codes "annotations") sm.annotations (owners_member sm.owner_references end))))

unfoldable pub extract_metadata : StoredMetadata → Json
unfolding encode_members encode_items
extract_metadata sm = obj (metadata_members sm)

-- `parseResourceVersion`; the error's text is not modelled.
unfoldable pub parse_resource_version : Text → Option ℤ
parse_resource_version [] = some (pos 0)
parse_resource_version (c ∷ s) = elim (parse_int (c ∷ s)) [
  | ok v ↦ some v
  | err e ↦ elim (parse (c ∷ s)) [
    | ok rv ↦ if int_eq rv.object_version (pos 0) then none else some rv.object_version
    | err x ↦ none
  ]
]
