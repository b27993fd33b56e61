-- ===== src/Runtime/Listing.antt =====
-- `List` of pkg/pgruntime/pgclient.go, which `List` of pgcache.go repeats: selectors, pages and continue
-- tokens, and the objects made of the rows. The scheme is given by `new_object`, the label selector by
-- its test, and encoding/json by `Codec`.
pub mod Outcomes
pub mod Pages
use postgres_controller_back.Base.{
  ℕ, suc, ◌+◌, ◌-◌, ◌^◌, ◌≡◌, ◌≢◌, ◌<◌, Bool, true, false, not, ◌&&◌, Option, none, some, List, [],
  ◌∷◌, ◌++◌, length, ltb, leb, ◌==◌, if◌then◌else◌, Outcome, ok, err, ◌>>=◌, map_err, All,
}
use postgres_controller_back.Base.Int.{ℤ, pos, negsuc, max_int64}
use postgres_controller_back.Base.Text.{Text, text_eq}
use postgres_controller_back.Base64
use postgres_controller_back.Base64.RoundTrip.{IsByte}
use postgres_controller_back.Json.{Json}
use postgres_controller_back.Model.{Resource}
use postgres_controller_back.Table.{Table}
use postgres_controller_back.ResourceVersion.{to_text}
use postgres_controller_back.Reader.List.{ListFilter, ListResult, list}
use postgres_controller_back.Runtime.Errors.{ApiError}
use postgres_controller_back.Runtime.Gvk.{Gvk, gvk_to_string, string_to_gvk, item_gvk_from_list_gvk}
use postgres_controller_back.Runtime.FieldSelector.{
  Requirement, SelectorError, Clause, name, namespace, build_field_selector_filter, all_hold,
}
use postgres_controller_back.Runtime.Objects.{Object, populate_object}

pub data ListError : Type 0 where
  no_list_kind invalid_continue bad_gvk not_in_scheme : ListError
  bad_selector : SelectorError → ListError
  bad_row : ApiError → ListError

-- `continueToken` as encoding/json writes and reads it: ASCII that is not empty, from which an offset
-- is read back.
pub record Codec : Type 0 where
  pub marshal : ℤ → Text
  pub unmarshal : Text → Option ℤ
  pub marshal_bytes : (n : ℕ) → All IsByte (marshal (pos n))
  pub marshal-ne-nil : (n : ℕ) → marshal (pos n) ≢ []
  pub unmarshal-marshal : (n : ℕ) → n < 2 ^ 63 → unmarshal (marshal (pos n)) ≡ some (pos n)

-- A field selector that is nil or empty has no requirement.
pub record ListOptions : Type 0 where
  pub namespace : Text
  pub field_selector : List Requirement
  pub label_selector : Option (List (Text × Text) → Bool)
  pub limit : ℤ
  pub continue : Text

pub record ObjectList : Type 0 where
  pub items : List Object
  pub resource_version : Text
  pub continue : Text

-- The namespace is $2, and the selector's values follow.
unfoldable pub list_clauses : ListOptions → Outcome SelectorError (List Clause)
list_clauses o =
    if text_eq o.namespace []
    then build_field_selector_filter o.field_selector 2
    else (build_field_selector_filter o.field_selector 3 >>= λ cs.
        ok (record { expr = namespace; negated = false; param = 2; value = o.namespace } ∷ cs))

abbrev pub non_negative : ℤ → ℕ
non_negative (pos n) = n
non_negative (negsuc n) = 0

-- `offset + limit` in int64, for a limit that is positive.
unfoldable pub next_offset : ℤ → ℕ → ℤ
next_offset (pos a) l = if leb (a + l) max_int64 then pos (a + l) else negsuc (2 ^ 64 - 1 - (a + l))
next_offset (negsuc a) l = if ltb a l then pos (l - 1 - a) else negsuc (a - l)

module _ (codec : Codec) where
  abbrev unmarshalled : Option Text → Option ℤ
  unmarshalled none = none
  unmarshalled (some s) = codec.unmarshal s

  unfoldable pub decode_continue : Text → Option ℤ
  decode_continue token =
      if text_eq token [] then some (pos 0) else unmarshalled (Base64.decode token)

  unfoldable pub encode_continue : ℤ → Text
  encode_continue offset = Base64.encode (codec.marshal offset)

  -- `offset, _ := decodeContinue(...)`, which is 0 with an error.
  abbrev pub offset_or_zero : Option ℤ → ℤ
  offset_or_zero none = pos 0
  offset_or_zero (some o) = o

  module _ (print : Json → Text) where
    abbrev pub page_filter : List Clause → ℕ → Option ℤ → Outcome ListError (Option ListFilter)
    page_filter cs limit none = err invalid_continue
    page_filter cs limit (some o) = ok (
        some (record { where_clauses = all_hold print cs; limit = limit; offset = non_negative o }))

    unfoldable pub filter_of : List Clause → ℤ → Text → Outcome ListError (Option ListFilter)
    unfolding decode_continue
    filter_of cs (pos (suc l)) token = page_filter cs (suc l) (decode_continue token)
    filter_of [] limit token = ok none
    filter_of (c ∷ cs) limit token =
        ok (some (record { where_clauses = all_hold print (c ∷ cs); limit = 0; offset = 0 }))

    unfoldable pub build_list_filter : ListOptions → Outcome ListError (Option ListFilter)
    unfolding list_clauses filter_of
    build_list_filter o = do
      cs ← map_err bad_selector (list_clauses o)
      filter_of cs o.limit o.continue

    module _ (owners_ok : Json → Bool) (inject : Json → Json → Option Json)
        (new_object : Gvk → Option Object) where
      abbrev populated : Resource → Option Object → Outcome ListError Object
      populated r none = err not_in_scheme
      populated r (some o) = map_err bad_row (populate_object owners_ok inject o r)

      abbrev object_of_kind : Resource → Option Gvk → Outcome ListError Object
      object_of_kind r none = err bad_gvk
      object_of_kind r (some g) = populated r (new_object g)

      unfoldable pub resource_to_object : Resource → Outcome ListError Object
      resource_to_object r = object_of_kind r (string_to_gvk r.key.gvk)

      abbrev pub matches : Option (List (Text × Text) → Bool) → Object → Bool
      matches none o = true
      matches (some p) o = p o.metadata.labels

      -- Every row is converted, also one that the label selector then leaves out.
      unfoldable pub take_items :
          Option (List (Text × Text) → Bool) → List Resource → Outcome ListError (List Object)
      unfolding resource_to_object
      take_items labels [] = ok []
      take_items labels (r ∷ rs) = do
        o ← resource_to_object r
        os ← take_items labels rs
        ok (if matches labels o then o ∷ os else os)

      unfoldable pub continue_after : ListOptions → List Resource → Text
      unfolding decode_continue encode_continue next_offset
      continue_after o rs = elim o.limit [
        | pos l ↦
            (if ltb 0 l && length rs == l
              then encode_continue (next_offset (offset_or_zero (decode_continue o.continue)) l)
              else [])
        | negsuc l ↦ []
      ]

      unfoldable pub list_rows : ListOptions → ListResult → Outcome ListError ObjectList
      unfolding take_items continue_after
      list_rows o result = do
        items ← take_items o.label_selector result.resources
        ok (record {
          items = items;
          resource_version = to_text result.resource_version;
          continue = continue_after o result.resources;
        })

      -- The kind of the list, as the scheme resolves it, or none.
      unfoldable pub client_list :
          Option Gvk → ListOptions → ℕ → Table → Outcome ListError ObjectList
      unfolding build_list_filter list_rows
      client_list none o xmin t = err no_list_kind
      client_list (some g) o xmin t = do
        f ← build_list_filter o
        list_rows o (list xmin (gvk_to_string (item_gvk_from_list_gvk g)) f t)
