-- ===== src/Witnesses/Living.antt =====
-- The theorems on the client's calls at concrete inputs.
use postgres_controller_back.Base.{
  ◌≡◌, refl, true, false, none, some, [], arith, ok, err, if◌then◌else◌,
}
use postgres_controller_back.Base.Int.{pos, int_eq}
use postgres_controller_back.Base.Text.{codes, text_eq}
use postgres_controller_back.Json.{reencode, json_equal, bool, obj, end, field, json_eq, sql_eq}
use postgres_controller_back.Model.{Resource, key_eq, time_eq}
use postgres_controller_back.Table.{find, put}
use postgres_controller_back.Strconv.{format_int, parse_int}
use postgres_controller_back.Writer.Proc.{suppresses, pgctl_write, suppression, upsert}
use postgres_controller_back.Writer.Client.{World, up, call_stored_proc, report, ring}
use postgres_controller_back.Writer.Entry.{write_object, run, write}
use postgres_controller_back.Runtime.Convert.{
  decode_metadata, current_generation, no_metadata, extract_metadata, has_finalizers,
  parse_resource_version,
}
use postgres_controller_back.Runtime.Errors.{
  DeleteOptions, not_found, reject_unsupported_delete_opts,
}
use postgres_controller_back.Runtime.Objects.{
  Object, key_of, get, populate_object, read_current_resource,
}
use postgres_controller_back.Runtime.Client.{
  update, update_at, next_object, with_generation, create, delete, delete_at, delete_current,
  delete_write,
}
use postgres_controller_back.Runtime.Client.Revisions.{Updated, update_then_find}
use postgres_controller_back.Runtime.Client.Life.{Created, Dying, create_then_get, delete_then_get}
use postgres_controller_back.Samples

abbrev api : Object
api = record {
  namespace = codes "default";
  name = codes "api";
  generate_name = [];
  uid = 0;
  resource_version = [];
  creation_timestamp = 0;
  deletion_timestamp = none;
  metadata = no_metadata;
  spec = bool true;
  status = obj end;
}

abbrev before : World
before = record { table = Samples.rows; rung = [] }

abbrev api_row : Resource
api_row = record {
  key = key_of (codes "v1/Pod") api;
  uid = 8;
  txid_stamp = 110;
  object_version = 1;
  spec = bool true;
  status = obj end;
  metadata = extract_metadata (with_generation api (pos 1)).metadata;
  deletion_timestamp = none;
  created_at = 50;
  updated_at = 50;
}

abbrev api_made : Object
api_made = record (with_generation api (pos 1)) {
  uid = 8;
  resource_version = format_int (pos 1);
  creation_timestamp = 50;
}

abbrev after_create : World
after_create = record { table = put api_row Samples.rows; rung = [] }

api_created :
    create
      (λ t. t)
      (λ j. true)
      (λ old doc. some doc)
      (codes "v1/Pod")
      up
      Samples.draw
      true
      false
      api
      before
    ≡ (ok api_made, after_create)
unfolding create write run call_stored_proc pgctl_write suppression upsert report ring text_eq
    int_eq find key_eq
api_created = refl

create_then_get_example :
    Created
      (λ t. t)
      (λ j. true)
      (λ old doc. some doc)
      (codes "v1/Pod")
      api
      api
      api_made
      after_create.table
create_then_get_example =
    create_then_get (λ t. t) (λ j. true) (λ old doc. some doc) (codes "v1/Pod") Samples.draw true
      api api before api_created

abbrev web_object : Object
web_object = record api { name = codes "web" }

abbrev plain_delete : DeleteOptions
plain_delete = record {
  dry_run = false;
  propagation_policy = false;
  preconditions = false;
  grace_period_seconds = false;
}

abbrev web_dying : Resource
web_dying = record Samples.web {
  txid_stamp = 110;
  object_version = 4;
  deletion_timestamp = some 50;
  updated_at = 50;
}

abbrev after_delete : World
after_delete = record { table = put web_dying Samples.rows; rung = [] }

web_deleted :
    delete
      (λ t. t)
      (λ j. true)
      (λ old doc. some doc)
      (codes "v1/Pod")
      up
      Samples.draw
      true
      plain_delete
      web_object
      before
    ≡ (ok web_object, after_delete)
unfolding delete write run call_stored_proc pgctl_write suppression upsert report ring text_eq
    int_eq find key_eq reject_unsupported_delete_opts parse_resource_version read_current_resource
    json_eq field delete_at delete_current delete_write suppresses sql_eq time_eq
web_deleted = refl

web_current :
    read_current_resource (key_of (codes "v1/Pod") web_object) before.table ≡ some Samples.web
unfolding read_current_resource find key_eq field
web_current = refl

delete_then_get_example :
    (l : Dying
      (λ t. t)
      (λ j. true)
      (λ old doc. some doc)
      (codes "v1/Pod")
      Samples.draw
      true
      web_object
      Samples.web
      after_delete.table)
    × (get
          (λ j. true)
          (λ old doc. some doc)
          (key_of (codes "v1/Pod") web_object)
          api
          after_delete.table
        ≡ (if has_finalizers (λ j. true) Samples.web
            then populate_object (λ j. true) (λ old doc. some doc) api l.row
            else err not_found))
delete_then_get_example =
    delete_then_get (λ t. t) (λ j. true) (λ old doc. some doc) (codes "v1/Pod") Samples.draw true
      web_object Samples.web plain_delete api before (unfold parse_resource_version in refl)
      web_current (omega arith) web_deleted

-- A new spec for `web`, at version 3.
abbrev web_flagged : Object
web_flagged = record web_object { resource_version = codes "3"; spec = bool true }

abbrev web_made : Object
web_made = record (with_generation web_flagged (pos 1)) { resource_version = format_int (pos 4) }

abbrev web_row : Resource
web_row = record Samples.web {
  txid_stamp = 110;
  object_version = 4;
  spec = bool true;
  metadata = extract_metadata web_made.metadata;
  updated_at = 50;
}

abbrev after_update : World
after_update = record { table = put web_row Samples.rows; rung = [] }

web_updated :
    update
      (λ t. t)
      (λ j. true)
      (λ old doc. some doc)
      (codes "v1/Pod")
      up
      Samples.draw
      true
      false
      web_flagged
      before
    ≡ (ok web_made, after_update)
unfolding update update_at next_object json_equal write_object run call_stored_proc pgctl_write
    suppression suppresses upsert report ring text_eq int_eq find key_eq sql_eq time_eq json_eq
    parse_resource_version read_current_resource current_generation field parse_int reencode
    decode_metadata
web_updated = refl

update_then_find_example :
    Updated
      (λ t. t)
      (λ j. true)
      (λ old doc. some doc)
      (codes "v1/Pod")
      Samples.draw
      true
      web_flagged
      (pos 3)
      Samples.web
      web_made
      after_update.table
update_then_find_example =
    update_then_find (λ t. t) (λ j. true) (λ old doc. some doc) (codes "v1/Pod") Samples.draw true
      web_flagged (pos 3) Samples.web before (unfold parse_resource_version parse_int in refl)
      web_current web_updated
