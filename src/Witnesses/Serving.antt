-- ===== src/Witnesses/Serving.antt =====
-- The theorems on lists, informers and managers at concrete inputs.
use postgres_controller_back.Base.{
  ◌≡◌, refl, true, false, Option, none, some, [], ◌∷◌, All, arith, Outcome, ok, err,
}
use postgres_controller_back.Base.Int.{ℤ, pos}
use postgres_controller_back.Base.Text.{Text, codes, text_eq}
use postgres_controller_back.Base64.RoundTrip.{IsByte}
use postgres_controller_back.Json.{json_eq, null, obj, end}
use postgres_controller_back.Strconv.{NumError, format_int, format_uint, parse_int}
use postgres_controller_back.Strconv.RoundTrip.{
  IsDigit, format_uint-IsDigit, format_uint-ne-nil, parse_int-format_int,
}
use postgres_controller_back.Model.{Resource}
use postgres_controller_back.Table.{Table}
use postgres_controller_back.ResourceVersion.{to_text}
use postgres_controller_back.Reader.Rows.{order_by_stamp}
use postgres_controller_back.Reader.List.{list, filtered, informer_filter, is_listed, watermark}
use postgres_controller_back.Runtime.Gvk.{Gvk, gvk_to_string, string_to_gvk}
use postgres_controller_back.Strings.{cut, split}
use postgres_controller_back.Runtime.FieldSelector.{
  valid_path_segment, path, metadata, expr_text, field_path,
}
use postgres_controller_back.Runtime.FieldSelector.Safety.{IsColumnPath, field_text_safe}
use postgres_controller_back.Runtime.Objects.{Object, populate_object}
use postgres_controller_back.Runtime.Convert.{no_metadata, populated_metadata}
use postgres_controller_back.Runtime.Listing.{
  take_items, resource_to_object, ListError, ObjectList, Codec, ListOptions,
}
use postgres_controller_back.Runtime.Listing.Outcomes.{items_of}
use postgres_controller_back.Runtime.Listing.Pages.{gather, list_of, pages_complete}
use postgres_controller_back.Runtime.Informers.{
  informer_list, Informer, new_cache, get_or_create_informer, start, stay, next, asked, opened,
  informer_watch,
}
use postgres_controller_back.Runtime.Informers.Once.{
  IsOnce, informers_run-IsOnce, watch_starts_at_list,
}
use postgres_controller_back.Runtime.Manager.{Setup, Options, new_manager, new_client}
use postgres_controller_back.Runtime.Manager.Tidy.{IsTidy, setup-IsTidy}
use postgres_controller_back.Samples

abbrev deployments : Gvk
deployments = record { group = codes "apps"; version = codes "v1"; kind = codes "Deployment" }

abbrev app_label : Text
app_label = codes "metadata.labels.app"

app_label_path : field_path app_label ≡ ok (path metadata (codes "labels" ∷ []) (codes "app"))
unfolding field_path text_eq cut split valid_path_segment
app_label_path = refl

field_text_safe_example :
    IsColumnPath (expr_text (path metadata (codes "labels" ∷ []) (codes "app")))
field_text_safe_example = field_text_safe app_label app_label_path

digits_are_bytes : (s : Text) → All IsDigit s → All IsByte s
digits_are_bytes [] h = tt
digits_are_bytes (c ∷ s) (l, h) = (omega (arith, l.0, l.1), digits_are_bytes s h)

abbrev parsed : Outcome NumError ℤ → Option ℤ
parsed (ok n) = some n
parsed (err e) = none

-- Tokens that are the offset's digits alone.
abbrev plain_codec : Codec
plain_codec = record {
  marshal = format_int;
  unmarshal = λ s. parsed (parse_int s);
  marshal_bytes =
      λ n. unfold format_int in digits_are_bytes (format_uint n) (format_uint-IsDigit n);
  marshal-ne-nil = λ n. unfold format_int in format_uint-ne-nil n;
  unmarshal-marshal = λ n h. rw (parse_int-format_int n h) refl;
}

abbrev pods : Gvk
pods = record { group = codes "core"; version = codes "v1"; kind = codes "Pod" }

abbrev pod : Resource
pod = record Samples.web {
  key = record { gvk = codes "core/v1/Pod"; namespace = codes "default"; name = codes "web" };
}

-- Two objects.
abbrev served : Table
served =
    pod
    ∷ record pod {
      key = record { gvk = codes "core/v1/Pod"; namespace = codes "default"; name = codes "db" };
      txid_stamp = 104;
    }
    ∷ []

-- An object of the scheme, before a row is put into it.
abbrev blank : Object
blank = record {
  namespace = [];
  name = [];
  generate_name = [];
  uid = 0;
  resource_version = [];
  creation_timestamp = 0;
  deletion_timestamp = none;
  metadata = no_metadata;
  spec = null;
  status = null;
}

abbrev options : ListOptions
options = record {
  namespace = codes "default";
  field_selector = [];
  label_selector = none;
  limit = pos 0;
  continue = [];
}

abbrev all_pods : ListOptions → Outcome ListError ObjectList
all_pods =
    list_of plain_codec (λ j. []) (λ j. true) (λ old doc. some doc) (λ g. some blank) pods 110
      served

pages_complete_example :
    gather plain_codec
      (λ j. [])
      (λ j. true)
      (λ old doc. some doc)
      (λ g. some blank)
      pods
      110
      served
      3
      (record options { limit = pos 1 })
    ≡ some (items_of (all_pods options))
pages_complete_example =
    pages_complete plain_codec (λ j. []) (λ j. true) (λ old doc. some doc) (λ g. some blank) pods
      110 served options 0 3 (omega arith) (omega arith)

-- An informer asked for before the start, and another one after it.
informers_run-IsOnce_example :
    IsOnce
      (get_or_create_informer
        (λ g. true)
        deployments
        (start (get_or_create_informer (λ g. true) pods (new_cache none [])).1)).1
informers_run-IsOnce_example =
    informers_run-IsOnce (λ g. true) none []
      (next
        (next (next stay (asked pods (new_cache none []))) (
          opened (get_or_create_informer (λ g. true) pods (new_cache none [])).1
            (unfold new_cache get_or_create_informer in refl)))
        (asked deployments (start (get_or_create_informer (λ g. true) pods (new_cache none [])).1)))

-- A database on which the migration fails.
abbrev broken_setup : Setup
broken_setup = record {
  parse_dsn = λ d.
      some (record { max_conns = pos 4; min_conns = pos 0; runtime_params = []; tracer = none });
  opens = true;
  acquires = true;
  migrates = false;
}

abbrev manager_options : Options
manager_options = record {
  has_scheme = true;
  dsn = codes "postgres://db";
  shard = none;
  max_pool_conns = pos 10;
  min_pool_conns = pos 0;
  slow_query_threshold = pos 0;
  health_probe_bind_address = [];
}

setup-IsTidy_example :
    IsTidy (new_manager broken_setup manager_options)
    × IsTidy (new_client broken_setup manager_options)
setup-IsTidy_example = setup-IsTidy broken_setup manager_options

abbrev pod_informer : Informer
pod_informer = record { gvk = pods; shard = none }

abbrev listed_pods : ObjectList
listed_pods = record {
  items =
      record blank {
        namespace = codes "default";
        name = codes "web";
        uid = 7;
        resource_version = format_int (pos 3);
        creation_timestamp = 10;
        metadata = populated_metadata (λ j. true) no_metadata (obj end);
      }
      ∷ [];
  resource_version = to_text (record { object_version = pos 0; watermark = 109 });
  continue = [];
}

pods_listed :
    informer_list
      (λ n. pos 0)
      plain_codec
      (λ j. [])
      (λ j. true)
      (λ old doc. some doc)
      (λ g. some blank)
      (λ g. true)
      pod_informer
      110
      (pod ∷ [])
    ≡ ok listed_pods
unfolding informer_list list filtered informer_filter is_listed order_by_stamp take_items
    resource_to_object string_to_gvk cut populate_object json_eq watermark gvk_to_string text_eq
pods_listed = refl

watch_starts_at_list_example :
    informer_watch pod_informer listed_pods.resource_version
    ≡ ok (record { gvk = gvk_to_string pods; shard = none }, watermark 110)
watch_starts_at_list_example =
    watch_starts_at_list (λ n. pos 0) plain_codec (λ j. []) (λ j. true) (λ old doc. some doc)
      (λ g. some blank) (λ g. true) pod_informer 110 (pod ∷ []) (omega arith) pods_listed
