-- ===== src/Runtime/Client/Revisions.antt =====
-- What an update of the client leaves, and how it counts generations.
use postgres_controller_back.Base.{
  ◌≡◌, ◌≢◌, refl, Bool, false, Option, some, if◌then◌else◌, inl, inr, ap, sym, ◌∙◌, Bool-cases,
}
use postgres_controller_back.Base.Int.{ℤ, pos, int_eq, int_eq_iff}
use postgres_controller_back.Base.Text.{Text}
use postgres_controller_back.Json.{Json, json_equal}
use postgres_controller_back.Model.{Resource, ObjectWriteRequest, WriteResult}
use postgres_controller_back.Table.{Table, find}
use postgres_controller_back.Strconv.{format_int}
use postgres_controller_back.Writer.Params.{Draw}
use postgres_controller_back.Writer.Landed.{pgctl_write-Landed}
use postgres_controller_back.Writer.Client.{World, up, err_version_required}
use postgres_controller_back.Writer.Multi.{object_params}
use postgres_controller_back.Writer.Entry.{run, write_object}
use postgres_controller_back.Runtime.Convert.{
  extract_metadata, current_generation, parse_resource_version,
}
use postgres_controller_back.Runtime.Errors.{write_failed, map_write_error}
use postgres_controller_back.Runtime.Objects.{Object, key_of, read_current_resource}
use postgres_controller_back.Runtime.Client.{
  next_generation, next_object, settle, update_at, update,
}
use postgres_controller_back.Runtime.Client.Answers.{
  Succeeded, given, refused-ne-given, required_same, conclude-Succeeded,
}

module _ (round : Text → Text) (owners_ok : Json → Bool) (inject : Json → Json → Option Json)
    (gvk : Text) (d : Draw) (readable : Bool) (o : Object) (v : ℤ) (r : Resource) where
  -- What an update of a current row leaves: under the key, the spec of the call and the metadata of the
  -- object that the caller is left with, and the deletion timestamp that stood. The object's generation
  -- is the next one of the row where the spec is another, and else the one that the caller gave.
  pub record Updated (x : Object) (t : Table) : Type 0 where
    pub row : Resource
    pub found : find (key_of gvk o) t ≡ some row
    pub spec : row.spec ≡ o.spec
    pub metadata : row.metadata ≡ extract_metadata x.metadata
    pub deletion : row.deletion_timestamp ≡ r.deletion_timestamp
    pub version : x.resource_version ≡ format_int (pos row.object_version)
    pub generation : x.metadata.generation ≡ (
        if json_equal round (some r.spec) (some o.spec)
        then o.metadata.generation
        else next_generation (current_generation owners_ok r.metadata))

  abbrev next : Object
  next = next_object round owners_ok inject gvk up d readable o r

  abbrev request : ObjectWriteRequest
  request = record {
    key = key_of gvk next;
    spec = some next.spec;
    metadata = some (extract_metadata next.metadata);
    deletion_timestamp = r.deletion_timestamp;
    deletion_nanos = 0;
    expected_version = v;
    force_write = false;
  }

  abbrev reported : WriteResult → Object
  reported x = record next { resource_version = format_int (pos x.object_version) }

  update_at-Succeeded :
      (w : World) {x : Object} {w' : World}
      → update_at round owners_ok inject gvk up d readable o v (some r) w ≡ given x w'
      → (v ≢ pos 0) × Succeeded d (object_params request) x reported w w'
  unfolding update_at write_object run settle map_write_error
  update_at-Succeeded w {x} {w'} h = elim (Bool-cases (int_eq v (pos 0))) [
    | inl b ↦ absurd (refused-ne-given (write_failed err_version_required) w x w' (rw b at h))
    | inr b ↦ (
      λ e. cc (b, (int_eq_iff v (pos 0)).1 e),
      conclude-Succeeded round owners_ok inject d (object_params request) readable next reported w
          (rw b at h),
    )
  ]

  same_key : key_of gvk next ≡ key_of gvk o
  unfolding next_object
  same_key = elim (Bool-cases (json_equal round (some r.spec) (some o.spec))) [
    | inl b ↦ rw b refl
    | inr b ↦ rw b refl
  ]

  same_spec : next.spec ≡ o.spec
  unfolding next_object
  same_spec = elim (Bool-cases (json_equal round (some r.spec) (some o.spec))) [
    | inl b ↦ rw b refl
    | inr b ↦ rw b refl
  ]

  counted : next.metadata.generation ≡ (
      if json_equal round (some r.spec) (some o.spec)
      then o.metadata.generation
      else next_generation (current_generation owners_ok r.metadata))
  unfolding next_object
  counted = elim (Bool-cases (json_equal round (some r.spec) (some o.spec))) [
    | inl b ↦ rw b refl
    | inr b ↦ rw b refl
  ]

  update_at-Updated :
      (w : World) {x : Object} {w' : World}
      → update_at round owners_ok inject gvk up d readable o v (some r) w ≡ given x w'
      → Updated x w'.table
  update_at-Updated w {x} {w'} h =
      let (n, s) = update_at-Succeeded w h in
      let l =
        pgctl_write-Landed d (object_params request) w.table s.reply w'.table refl
          (λ e. absurd (n e)) s.called in
      let m : x.metadata ≡ next.metadata = ap (λ (y : Object). y.metadata) s.made in
      record {
        row = l.row;
        found = ap (λ k. find k w'.table) (sym same_key) ∙ l.found;
        spec = required_same l.holds.spec ∙ same_spec;
        metadata = required_same l.holds.metadata ∙ ap extract_metadata (sym m);
        deletion = l.holds.deletion;
        version =
            ap (λ (y : Object). y.resource_version) s.made
            ∙ ap (λ k. format_int (pos k)) (s.version ∙ l.version);
        generation = ap (λ k. k.generation) m ∙ counted;
      }

  -- After an update of a current row whose reply arrives and which gives the client an object, the row
  -- under the key has the spec of the call, the metadata of that object and the deletion timestamp that
  -- stood, and the object its version. The generation counts the changes of the spec; where the spec is
  -- the same, it is the caller's.
  pub update_then_find :
      (w : World) {x : Object} {w' : World}
      → parse_resource_version o.resource_version ≡ some v
      → read_current_resource (key_of gvk o) w.table ≡ some r
      → update round owners_ok inject gvk up d readable false o w ≡ given x w'
      → Updated x w'.table
  unfolding update
  update_then_find w p c h = update_at-Updated w (rw (p, c) at h)
