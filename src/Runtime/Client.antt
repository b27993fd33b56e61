-- ===== src/Runtime/Client.antt =====
-- pkg/pgruntime/pgclient.go: Create, Update, Delete and the status update. The client's writers have no
-- hooks and no doorbell. `readable` says whether the read-back of a commit in doubt succeeds.
pub mod Answers
pub mod Life
pub mod Revisions
use postgres_controller_back.Base.{
  ℕ, zero, suc, ◌+◌, ◌==◌, Bool, false, not, ◌&&◌, Option, none, some, [], if◌then◌else◌, is_none,
  Outcome, ok, err, ◌||◌,
}
use postgres_controller_back.Base.Int.{ℤ, pos, negsuc, int_eq, max_int64}
use postgres_controller_back.Base.Text.{Text, codes, text_eq}
use postgres_controller_back.Json.{Json, json_eq, json_equal, empty_object, empty_array, field}
use postgres_controller_back.Model.{Key, Resource, WriteResult}
use postgres_controller_back.Table.{Table, find}
use postgres_controller_back.Strconv.{format_int}
use postgres_controller_back.Writer.Params.{Draw}
use postgres_controller_back.Writer.Client.{WriteError, World, Link}
use postgres_controller_back.Writer.Multi.{no_fault}
use postgres_controller_back.Writer.Entry.{Writer, write, write_status, write_object}
use postgres_controller_back.Runtime.Convert.{
  StoredMetadata, is_fully_deleted, populated_metadata, current_generation, extract_metadata,
  parse_resource_version,
}
use postgres_controller_back.Runtime.Errors.{
  ApiError, not_found, dry_run_not_supported, generate_name_not_supported, bad_resource_version,
  not_decodable, DeleteOptions, reject_unsupported_delete_opts, map_write_error,
}
use postgres_controller_back.Runtime.Objects.{
  Object, key_of, read_current_resource, populate_object,
}

-- The writer of one call.
abbrev pub client_writer : Link → Writer
client_writer link = record { doorbell = false; hooks = none; link = link; fault = no_fault }

abbrev pub with_generation : Object → ℤ → Object
with_generation o g = record o { metadata = record o.metadata { generation = g } }

-- `currentGen + 1` in int64, which wraps around.
abbrev pub next_generation : ℤ → ℤ
next_generation (pos n) = if n == max_int64 then negsuc max_int64 else pos (n + 1)
next_generation (negsuc zero) = pos 0
next_generation (negsuc (suc n)) = negsuc n

module _ (round : Text → Text) (owners_ok : Json → Bool) (inject : Json → Json → Option Json) where
  -- What a failed write comes to: an error, or the object as the row that had landed has it.
  unfoldable pub settle : Bool → WriteError → Object → World → Outcome ApiError Object × World
  settle readable e o w = elim (map_write_error readable e w.table) [
    | err x ↦ (err x, w)
    | ok r ↦ (populate_object owners_ok inject o r, w)
  ]

  abbrev pub conclude :
      Bool
      → Object
      → (WriteResult → Object)
      → Outcome WriteError WriteResult × World
      → Outcome ApiError Object × World
  conclude readable o done (ok r, w) = (ok (done r), w)
  conclude readable o done (err e, w) = settle readable e o w

  module _ (gvk : Text) (link : Link) (d : Draw) (readable : Bool) where
    unfoldable pub create : Bool → Object → World → Outcome ApiError Object × World
    create dry_run o w =
        if dry_run
        then (err dry_run_not_supported, w)
        else if text_eq o.name [] && not (text_eq o.generate_name [])
        then (err generate_name_not_supported, w)
        else let o' = with_generation o (pos 1) in
          conclude readable o'
            (λ r. record o' {
              uid = r.uid;
              resource_version = format_int (pos r.object_version);
              creation_timestamp = d.now;
            })
            (write round (client_writer link) d
              (record {
                key = key_of gvk o';
                spec = some o'.spec;
                status = some o'.status;
                metadata = some (extract_metadata o'.metadata);
                deletion_timestamp = none;
                deletion_nanos = 0;
                expected_version = pos 0;
                force_write = false;
              })
              w)

    -- The generation counts the changes of the spec.
    unfoldable pub next_object : Object → Resource → Object
    next_object o r =
        if json_equal round (some r.spec) (some o.spec)
        then o
        else with_generation o (next_generation (current_generation owners_ok r.metadata))

    unfoldable pub update_at :
        Object → ℤ → Option Resource → World → Outcome ApiError Object × World
    update_at o v none w = (err not_found, w)
    update_at o v (some r) w =
        let o' = next_object o r in
        conclude readable o'
          (λ x. record o' { resource_version = format_int (pos x.object_version) })
          (write_object round (client_writer link) d
            (record {
              key = key_of gvk o';
              spec = some o'.spec;
              metadata = some (extract_metadata o'.metadata);
              deletion_timestamp = r.deletion_timestamp;
              deletion_nanos = 0;
              expected_version = v;
              force_write = false;
            })
            w)

    abbrev pub update_parsed : Object → Option ℤ → World → Outcome ApiError Object × World
    update_parsed o none w = (err bad_resource_version, w)
    update_parsed o (some v) w = update_at o v (read_current_resource (key_of gvk o) w.table) w

    unfoldable pub update : Bool → Object → World → Outcome ApiError Object × World
    update dry_run o w =
        if dry_run
        then (err dry_run_not_supported, w)
        else update_parsed o (parse_resource_version o.resource_version) w

    -- `deletionTS`: the one that stands, or the time of the call.
    abbrev pub stamp_deletion : Option ℕ → Option ℕ
    stamp_deletion none = some d.now
    stamp_deletion (some t) = some t

    -- The nanoseconds of a time of the call.
    abbrev pub stamp_nanos : Option ℕ → ℕ
    stamp_nanos none = d.nanos
    stamp_nanos (some t) = 0

    -- Delete returns no object; the argument is given back.
    abbrev pub conclude_delete :
        Object → Outcome WriteError WriteResult × World → Outcome ApiError Object × World
    conclude_delete o (ok r, w) = (ok o, w)
    conclude_delete o (err e, w) = elim (map_write_error readable e w.table) [
      | err x ↦ (err x, w)
      | ok r ↦ (ok o, w)
    ]

    unfoldable pub delete_write :
        Object → Json → Json → Json → Option ℕ → ℤ → World → Outcome ApiError Object × World
    delete_write o spec status metadata old v w = conclude_delete o (
        write round (client_writer link) d
          (record {
            key = key_of gvk o;
            spec = some spec;
            status = some status;
            metadata = some metadata;
            deletion_timestamp = stamp_deletion old;
            deletion_nanos = stamp_nanos old;
            expected_version = v;
            force_write = false;
          })
          w)

    unfoldable pub delete_current :
        Object → Option Resource → World → Outcome ApiError Object × World
    delete_current o none w = (err not_found, w)
    delete_current o (some r) w =
        delete_write o r.spec r.status r.metadata r.deletion_timestamp (pos r.object_version) w

    -- Without a version the row is read first; with one, the caller's object is written.
    unfoldable pub delete_at : Object → ℤ → World → Outcome ApiError Object × World
    delete_at o v w =
        if int_eq v (pos 0)
        then delete_current o (read_current_resource (key_of gvk o) w.table) w
        else delete_write o o.spec o.status (extract_metadata o.metadata) none v w

    abbrev pub delete_parsed : Object → Option ℤ → World → Outcome ApiError Object × World
    delete_parsed o none w = (err bad_resource_version, w)
    delete_parsed o (some v) w = delete_at o v w

    abbrev pub delete_unless : Option ApiError → Object → World → Outcome ApiError Object × World
    delete_unless (some e) o w = (err e, w)
    delete_unless none o w = delete_parsed o (parse_resource_version o.resource_version) w

    unfoldable pub delete : DeleteOptions → Object → World → Outcome ApiError Object × World
    delete opts o w = delete_unless (reject_unsupported_delete_opts opts) o w

    unfoldable pub update_status : Bool → Object → World → Outcome ApiError Object × World
    update_status dry_run o w =
        if dry_run
        then (err dry_run_not_supported, w)
        else (elim (parse_resource_version o.resource_version) [
          | none ↦ (err bad_resource_version, w)
          | some v ↦
              conclude readable o
                (λ x. record o { resource_version = format_int (pos x.object_version) })
                (write_status round (client_writer link) d
                  (record {
                    key = key_of gvk o;
                    status = some o.status;
                    expected_version = v;
                    force_write = false;
                  })
                  w)
        ])
