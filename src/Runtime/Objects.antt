-- ===== src/Runtime/Objects.antt =====
-- The part of a Kubernetes object that the client reads and writes, and how it is read: Get and
-- `readCurrentResource` of pkg/pgruntime/pgclient.go, and `populateObject` of convert.go. The scheme is
-- given by `owners_ok` and by `inject`, which decodes a document over the value that a field has.
use postgres_controller_back.Base.{
  ℕ, Bool, false, not, Option, none, some, if◌then◌else◌, is_none, Outcome, ok, err, ◌||◌,
}
use postgres_controller_back.Base.Int.{pos}
use postgres_controller_back.Base.Text.{Text, codes}
use postgres_controller_back.Json.{Json, json_eq, empty_object, empty_array, field}
use postgres_controller_back.Model.{Key, Resource}
use postgres_controller_back.Table.{Table, find}
use postgres_controller_back.Strconv.{format_int}
use postgres_controller_back.Runtime.Convert.{StoredMetadata, is_fully_deleted, populated_metadata}
use postgres_controller_back.Runtime.Errors.{ApiError, not_found, not_decodable}

pub record Object : Type 0 where
  pub namespace : Text
  pub name : Text
  pub generate_name : Text
  pub uid : ℕ
  pub resource_version : Text
  pub creation_timestamp : ℕ
  pub deletion_timestamp : Option ℕ
  pub metadata : StoredMetadata
  pub spec : Json
  pub status : Json

abbrev pub key_of : Text → Object → Key
key_of gvk o = record { gvk = gvk; namespace = o.namespace; name = o.name }

-- `readCurrentResource`: a live row, or a dying one that has finalizers.
unfoldable pub is_current : Resource → Bool
is_current r = is_none r.deletion_timestamp || (elim (field (codes "finalizers") r.metadata) [
  | none ↦ false
  | some f ↦ not (json_eq f empty_array)
])

unfoldable pub current_of : Option Resource → Option Resource
unfolding is_current
current_of none = none
current_of (some r) = if is_current r then some r else none

unfoldable pub read_current_resource : Key → Table → Option Resource
unfolding current_of
read_current_resource k t = current_of (find k t)

module _ (owners_ok : Json → Bool) (inject : Json → Json → Option Json) where
  -- `injectSpecStatus` leaves a field alone where the document is `{}`.
  abbrev inject_field : Json → Json → Option Json
  inject_field old doc = if json_eq doc empty_object then some old else inject old doc

  abbrev with_fields : Object → Option Json → Option Json → Outcome ApiError Object
  with_fields o none s = err not_decodable
  with_fields o (some spec) none = err not_decodable
  with_fields o (some spec) (some status) = ok (record o { spec = spec; status = status })

  abbrev or_else : Option ℕ → Option ℕ → Option ℕ
  or_else none d = d
  or_else (some x) d = some x

  unfoldable pub populate_object : Object → Resource → Outcome ApiError Object
  populate_object o r =
      with_fields
        (record {
          namespace = r.namespace;
          name = r.name;
          generate_name = o.generate_name;
          uid = r.uid;
          resource_version = format_int (pos r.object_version);
          creation_timestamp = r.created_at;
          deletion_timestamp = or_else r.deletion_timestamp o.deletion_timestamp;
          metadata = populated_metadata owners_ok o.metadata r.metadata;
          spec = o.spec;
          status = o.status;
        })
        (inject_field o.spec r.spec) (inject_field o.status r.status)

  unfoldable pub get_row : Object → Option Resource → Outcome ApiError Object
  get_row o none = err not_found
  get_row o (some r) = if is_fully_deleted owners_ok r then err not_found else populate_object o r

  unfoldable pub get : Key → Object → Table → Outcome ApiError Object
  unfolding get_row
  get k o t = get_row o (find k t)
