-- ===== src/Runtime/Client/Life.antt =====
-- The life of an object over the client's calls: what a call reports is what the next one finds.
use postgres_controller_back.Base.{
  ℕ, ◌≡◌, ◌≢◌, ◌<◌, refl, Bool, true, false, not, ◌&&◌, Option, none, some, [], if◌then◌else◌,
  is_some, inl, inr, arith, ok, err, ap, ◌∙◌, Bool-cases,
}
use postgres_controller_back.Base.Int.{pos, int_eq, int_eq_iff}
use postgres_controller_back.Base.Text.{Text, text_eq}
use postgres_controller_back.Json.{Json, json_eq_iff}
use postgres_controller_back.Model.{Resource, WriteRequest, WriteResult}
use postgres_controller_back.Table.{Table, find}
use postgres_controller_back.Strconv.{format_int}
use postgres_controller_back.Writer.Params.{PgError, Draw}
use postgres_controller_back.Writer.Proc.{null_or_eq}
use postgres_controller_back.Writer.Landed.{pgctl_write-Landed}
use postgres_controller_back.Writer.Client.{World, up, map_stored_proc_error}
use postgres_controller_back.Writer.Multi.{write_params}
use postgres_controller_back.Writer.Entry.{run, write}
use postgres_controller_back.Runtime.Convert.{
  has_finalizers, is_fully_deleted, extract_metadata, parse_resource_version,
}
use postgres_controller_back.Runtime.Errors.{
  ApiError, not_found, DeleteOptions, reject_unsupported_delete_opts, generate_name_not_supported,
  map_write_error,
}
use postgres_controller_back.Runtime.Objects.{
  Object, key_of, read_current_resource, populate_object, get, get_row,
}
use postgres_controller_back.Runtime.Client.{
  with_generation, create, delete_write, stamp_deletion, stamp_nanos, conclude_delete,
  delete_current, delete_at, delete,
}
use postgres_controller_back.Runtime.Client.Answers.{
  Succeeded, given, refused-ne-given, required_same, call-Succeeded, conclude-Succeeded,
}

module _ (round : Text → Text) (owners_ok : Json → Bool) (inject : Json → Json → Option Json) where
  -- What stands under the key of an object that a client got out of a create.
  pub record Created (gvk : Text) (blank o x : Object) (t : Table) : Type 0 where
    pub row : Resource
    pub got :
        get owners_ok inject (key_of gvk o) blank t ≡ populate_object owners_ok inject blank row
    pub spec : row.spec ≡ o.spec
    pub status : row.status ≡ o.status
    pub metadata : row.metadata ≡ extract_metadata (with_generation o (pos 1)).metadata
    pub alive : row.deletion_timestamp ≡ none
    pub version : x.resource_version ≡ format_int (pos row.object_version)
    pub uid : x.uid ≡ row.uid

  module _ (gvk : Text) (d : Draw) (readable : Bool) (o : Object) where
    abbrev request : WriteRequest
    request = record {
      key = key_of gvk o;
      spec = some o.spec;
      status = some o.status;
      metadata = some (extract_metadata (with_generation o (pos 1)).metadata);
      deletion_timestamp = none;
      deletion_nanos = 0;
      expected_version = pos 0;
      force_write = false;
    }

    abbrev reported : WriteResult → Object
    reported r = record (with_generation o (pos 1)) {
      uid = r.uid;
      resource_version = format_int (pos r.object_version);
      creation_timestamp = d.now;
    }

    create-Succeeded :
        {x : Object} {w w' : World}
        → create round owners_ok inject gvk up d readable false o w ≡ (ok x, w')
        → Succeeded d (write_params request) x reported w w'
    unfolding create write run
    create-Succeeded {x} {w} {w'} h =
        elim (Bool-cases (text_eq o.name [] && not (text_eq o.generate_name []))) [
          | inl b ↦ absurd (refused-ne-given generate_name_not_supported w x w' (rw b at h))
          | inr b ↦
              conclude-Succeeded round owners_ok inject d (write_params request) readable
                (with_generation o (pos 1)) reported w (rw b at h)
        ]

    -- After a create whose reply arrives and which gives the client an object, also a suppressed one, Get
    -- populates its object from a live row: with the spec and the status of the call, its metadata at
    -- generation 1, and the version and the uid that the caller was told.
    pub create_then_get :
        (blank : Object) (w : World) {x : Object} {w' : World}
        → create round owners_ok inject gvk up d readable false o w ≡ (ok x, w')
        → Created gvk blank o x w'.table
    unfolding get get_row is_fully_deleted null_or_eq
    create_then_get blank w {x} {w'} h =
        let s = create-Succeeded {w = w} h in
        let l =
          pgctl_write-Landed d (write_params request) w.table s.reply w'.table refl (λ e. refl)
            s.called in
        record {
          row = l.row;
          got = rw (l.found, l.holds.deletion) refl;
          spec = required_same l.holds.spec;
          status = (json_eq_iff l.row.status o.status).0 l.holds.status;
          metadata = required_same l.holds.metadata;
          alive = l.holds.deletion;
          version =
              ap (λ (y : Object). y.resource_version) s.made
              ∙ ap (λ n. format_int (pos n)) (s.version ∙ l.version);
          uid = ap (λ (y : Object). y.uid) s.made ∙ s.uid ∙ l.uid;
        }

  module _ (gvk : Text) (d : Draw) (readable : Bool) (o : Object) (r : Resource) where
    abbrev deletion_time : Option ℕ
    deletion_time = stamp_deletion round owners_ok inject gvk up d readable r.deletion_timestamp

    -- What stands under the key of a row that a client deleted: the same content, with the deletion
    -- timestamp that stood, or else the time of the call.
    pub record Dying (t : Table) : Type 0 where
      pub row : Resource
      pub found : find (key_of gvk o) t ≡ some row
      pub spec : row.spec ≡ r.spec
      pub status : row.status ≡ r.status
      pub metadata : row.metadata ≡ r.metadata
      pub deletion : row.deletion_timestamp ≡ deletion_time

    abbrev deletion_request : WriteRequest
    deletion_request = record {
      key = key_of gvk o;
      spec = some r.spec;
      status = some r.status;
      metadata = some r.metadata;
      deletion_timestamp = deletion_time;
      deletion_nanos = stamp_nanos round owners_ok inject gvk up d readable r.deletion_timestamp;
      expected_version = pos r.object_version;
      force_write = false;
    }

    delete_row-Succeeded :
        (w : World) {x : Object} {w' : World}
        → delete_current round owners_ok inject gvk up d readable o (some r) w ≡ given x w'
        → Succeeded d (write_params deletion_request) x (λ y. o) w w'
    unfolding delete_current delete_write write run map_write_error map_stored_proc_error
    delete_row-Succeeded w h =
        call-Succeeded d (write_params deletion_request) w
          (conclude_delete round owners_ok inject gvk up d readable o) (λ y. o) (λ x v. refl) failed
          h
      where
        failed :
            (e : PgError) (x : Object) (w' : World)
            → conclude_delete round owners_ok inject gvk up d readable o
                (err (map_stored_proc_error e), w)
              ≢ given x w'
        failed PgError.conflict x w' g = refused-ne-given _ w x w' g
        failed PgError.already_exists x w' g = refused-ne-given _ w x w' g
        failed PgError.status_needs_version x w' g = refused-ne-given _ w x w' g
        failed PgError.not_null x w' g = refused-ne-given _ w x w' g
        failed PgError.out_of_range x w' g = refused-ne-given _ w x w' g
        failed PgError.server_error x w' g = refused-ne-given _ w x w' g

    deleted_row :
        (w : World) {x : Object} {w' : World}
        → 0 < r.object_version
        → delete_current round owners_ok inject gvk up d readable o (some r) w ≡ given x w'
        → Dying w'.table
    unfolding null_or_eq
    deleted_row w {x} {w'} n h =
        let s = delete_row-Succeeded w h in
        let l =
          pgctl_write-Landed d (write_params deletion_request) w.table s.reply w'.table refl
            (λ e. let z : r.object_version ≡ 0 = cc in absurd (omega arith)) s.called in
        record {
          row = l.row;
          found = l.found;
          spec = required_same l.holds.spec;
          status = (json_eq_iff l.row.status r.status).0 l.holds.status;
          metadata = required_same l.holds.metadata;
          deletion = l.holds.deletion;
        }

    deletion_time_some : is_some deletion_time ≡ true
    deletion_time_some = go r.deletion_timestamp
      where
        go :
            (t : Option ℕ)
            → is_some (stamp_deletion round owners_ok inject gvk up d readable t) ≡ true
        go none = refl
        go (some t) = refl

    same_finalizers :
        {t : Table} (l : Dying t) → has_finalizers owners_ok l.row ≡ has_finalizers owners_ok r
    unfolding has_finalizers
    same_finalizers l = rw l.metadata refl

    is_fully_deleted-Dying :
        {t : Table} (l : Dying t)
        → is_fully_deleted owners_ok l.row ≡ not (has_finalizers owners_ok r)
    unfolding is_fully_deleted
    is_fully_deleted-Dying l =
        let b : is_some l.row.deletion_timestamp ≡ true =
          ap is_some l.deletion ∙ deletion_time_some in
        ground (arith, b, same_finalizers l)

    get-Dying :
        (blank : Object) {t : Table} (l : Dying t)
        → get owners_ok inject (key_of gvk o) blank t ≡ (
            if has_finalizers owners_ok r
            then populate_object owners_ok inject blank l.row
            else err not_found)
    unfolding get get_row
    get-Dying blank l = elim (Bool-cases (has_finalizers owners_ok r)) [
      | inl b ↦ rw (l.found, is_fully_deleted-Dying l, b) refl
      | inr b ↦ rw (l.found, is_fully_deleted-Dying l, b) refl
    ]

    -- A delete that names no version and succeeds leaves the row as it was but for a deletion timestamp,
    -- which an earlier delete may have set; Get then populates an object from it if it has a finalizer, and
    -- answers not found if it has none. The delete's reply arrives, and the row was current, at version 1
    -- or later, as all rows are.
    pub delete_then_get :
        (opts : DeleteOptions) (blank : Object) (w : World) {x : Object} {w' : World}
        → parse_resource_version o.resource_version ≡ some (pos 0)
        → read_current_resource (key_of gvk o) w.table ≡ some r
        → 0 < r.object_version
        → delete round owners_ok inject gvk up d readable opts o w ≡ given x w'
        → (l : Dying w'.table) × (get owners_ok inject (key_of gvk o) blank w'.table ≡ (
            if has_finalizers owners_ok r
            then populate_object owners_ok inject blank l.row
            else err not_found))
    unfolding delete delete_at
    delete_then_get opts blank w {x} {w'} v c n h =
        let l : Dying w'.table =
          deleted_row w n (read (reject_unsupported_delete_opts opts) refl) in
        (l, get-Dying blank l)
      where
        read :
            (e : Option ApiError)
            → reject_unsupported_delete_opts opts ≡ e
            → delete_current round owners_ok inject gvk up d readable o (some r) w ≡ given x w'
        read (some e) q = absurd (refused-ne-given e w x w' (rw q at h))
        read none q =
            let z : int_eq (pos 0) (pos 0) ≡ true = (int_eq_iff (pos 0) (pos 0)).1 refl in
            rw (q, v, z, c) at h
