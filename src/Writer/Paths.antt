-- ===== src/Writer/Paths.antt =====
-- The two write paths of internal/writer/writer.go agree: the multi-statement transaction with hooks
-- that do nothing, and one call of the stored procedure.
use postgres_controller_back.Base.{
  ℕ, ◌≡◌, ◌≢◌, refl, Bool, false, Option, none, some, arith, Outcome, ok, err, inl, inr, ◌∙◌, sym,
  Bool-cases,
}
use postgres_controller_back.Base.Int.{pos, int_eq, int_eq_iff}
use postgres_controller_back.Base.Text.{Text}
use postgres_controller_back.Json.{Json, reencode, json_equal, sql_eq}
use postgres_controller_back.Model.{
  time_eq, time_equal, Resource, WriteRequest, StatusWriteRequest, ObjectWriteRequest,
}
use postgres_controller_back.Table.{find}
use postgres_controller_back.Writer.Params.{WriteParams, PgError, Draw}
use postgres_controller_back.Writer.Proc.{
  null_or_eq, suppresses, suppressed_by, suppression, upsert, update, pgctl_write,
}
use postgres_controller_back.Writer.Client.{World, up, call_stored_proc, map_stored_proc_error}
use postgres_controller_back.Writer.Multi.{
  failed_at, upsert_row, TxHooks, no_fault, Upsert, exec_write, check_row, branch_row, finish_row,
  write_row, map_upsert_error, commit, commit_noop, update_object, write_params, status_params,
  object_params, write_upsert, status_upsert, object_upsert,
}
use postgres_controller_back.Writer.Entry.{Writer, write, write_status, write_object, run}

abbrev pub quiet : TxHooks
quiet = record {
  after_suppression_check = λ _. false;
  after_txid_acquire = λ _. false;
  before_commit = false;
}

same_errors : (e : PgError) → map_upsert_error e ≡ map_stored_proc_error e
unfolding map_upsert_error map_stored_proc_error
same_errors PgError.conflict = refl
same_errors PgError.already_exists = refl
same_errors PgError.status_needs_version = refl
same_errors PgError.not_null = refl
same_errors PgError.out_of_range = refl
same_errors PgError.server_error = refl

-- The callbacks of the one path say what the procedure says of its parameters.
record Matches (d : Draw) (p : WriteParams) (u : Upsert) (w : World) : Type 0 where
  key : u.key ≡ p.key
  force : u.force_write ≡ p.force_write
  content : (r : Resource) → find p.key w.table ≡ some r → u.is_content_equal r ≡ suppresses p r
  stored : (old : Option Resource) → u.stored d old ≡ upsert d p old

module _ (doorbell : Bool) (d : Draw) (p : WriteParams) (u : Upsert) (w : World) where
  -- The two paths after the suppression test, on what the upsert gives.
  agree_upsert :
      Matches d p u w
      → (o : Outcome PgError Resource) → upsert d p (find p.key w.table) ≡ o
      → suppression p w.table ≡ none
      → call_stored_proc doorbell up d p w ≡ write_row doorbell quiet no_fault d u w
  unfolding call_stored_proc pgctl_write write_row upsert_row failed_at finish_row commit
      map_upsert_error
  agree_upsert m (ok r) e s = ground (arith, m.key, m.stored (find p.key w.table))
  agree_upsert m (err x) e s = ground (arith, m.key, m.stored (find p.key w.table), same_errors x)

  -- The multi-statement path takes the branch that the procedure's suppression test takes.
  exec_branch :
      Matches d p u w
      → (o : Option Resource) → find p.key w.table ≡ o
      → (s : Option Resource) → suppression p w.table ≡ s
      → exec_write doorbell quiet no_fault d u w ≡ elim s [
        | none ↦ write_row doorbell quiet no_fault d u w
        | some r ↦ commit_noop no_fault r w
      ]
  unfolding exec_write check_row branch_row suppression suppressed_by
  exec_branch m none e none f = ground (arith, m.key, m.force)
  exec_branch m none e (some x) f = absurd (ground arith)
  exec_branch m (some r) e none f = ground (arith, m.key, m.force, m.content r e)
  exec_branch m (some r) e (some x) f = ground (arith, m.key, m.force, m.content r e)

  agree_suppressed :
      (r : Resource)
      → suppression p w.table ≡ some r
      → call_stored_proc doorbell up d p w ≡ commit_noop no_fault r w
  unfolding call_stored_proc pgctl_write commit_noop
  agree_suppressed r s = ground arith

  agree_on :
      Matches d p u w
      → (s : Option Resource) → suppression p w.table ≡ s
      → call_stored_proc doorbell up d p w ≡ exec_write doorbell quiet no_fault d u w
  agree_on m none f =
      agree_upsert m (upsert d p (find p.key w.table)) refl f
      ∙ sym (exec_branch m (find p.key w.table) refl none f)
  agree_on m (some r) f =
      agree_suppressed r f ∙ sym (exec_branch m (find p.key w.table) refl (some r) f)

  agree :
      Matches d p u w
      → call_stored_proc doorbell up d p w ≡ exec_write doorbell quiet no_fault d u w
  agree m = agree_on m (suppression p w.table) refl

-- `reencode` keeps the document of a message: its numerals survive the trip through a float64.
abbrev pub IsExact : (Text → Text) → Option Json → Type 0
IsExact round o = (j : Json) → o ≡ some j → reencode round j ≡ j

abbrev pub RowIsExact : (Text → Text) → Resource → Type 0
RowIsExact round r =
    (reencode round r.spec ≡ r.spec)
    × (reencode round r.status ≡ r.status)
    × (reencode round r.metadata ≡ r.metadata)

whole_equal : (a b : Option ℕ) (nanos : ℕ) → nanos ≡ 0 → time_equal a b nanos ≡ time_eq a b
unfolding time_equal
whole_equal a b nanos z = ground arith

module _ (round : Text → Text) where
  exact_eq :
      (a : Json) (o : Option Json)
      → reencode round a ≡ a
      → IsExact round o
      → json_equal round (some a) o ≡ sql_eq a o
  unfolding json_equal sql_eq
  exact_eq a none e x = refl
  exact_eq a (some b) e x = rw (e, x b refl)

  exact_null_or_eq :
      (a : Json) (o : Option Json)
      → o ≢ none
      → reencode round a ≡ a
      → IsExact round o
      → json_equal round (some a) o ≡ null_or_eq a o
  unfolding json_equal null_or_eq
  exact_null_or_eq a none n e x = absurd (n refl)
  exact_null_or_eq a (some b) n e x = rw (e, x b refl)

  module _ (d : Draw) (w : World) where
    write-Matches :
        (q : WriteRequest)
        → q.status ≢ none
        → IsExact round q.spec
        → IsExact round q.status
        → IsExact round q.metadata
        → q.deletion_nanos ≡ 0
        → ((r : Resource) → find q.key w.table ≡ some r → RowIsExact round r)
        → Matches d (write_params q) (write_upsert round q) w
    unfolding write_upsert suppresses upsert
    write-Matches q n es et em z er = record {
      key = refl;
      force = refl;
      content = λ r f.
          let (a, b, c) = er r f in
          rw (
            exact_eq r.spec q.spec a es,
            exact_null_or_eq r.status q.status n b et,
            exact_eq r.metadata q.metadata c em,
            whole_equal r.deletion_timestamp q.deletion_timestamp q.deletion_nanos z,
          );
      stored = λ old. refl;
    }

    status-Matches :
        (q : StatusWriteRequest)
        → q.expected_version ≢ pos 0
        → IsExact round q.status
        → ((r : Resource) → find q.key w.table ≡ some r → RowIsExact round r)
        → Matches d (status_params q) (status_upsert round q) w
    unfolding status_upsert suppresses upsert
    status-Matches q n et er = record {
      key = refl;
      force = refl;
      content = λ r f. exact_eq r.status q.status (er r f).1 et;
      stored = λ old. ground (arith, int_eq_iff q.expected_version (pos 0));
    }

    object_stored :
        (q : ObjectWriteRequest) (old : Option Resource)
        → update_object d q old ≡ update d (object_params q) old
    unfolding update_object update
    object_stored q none = ground arith
    object_stored q (some r) = ground arith

    object-Matches :
        (q : ObjectWriteRequest)
        → q.expected_version ≢ pos 0
        → IsExact round q.spec
        → IsExact round q.metadata
        → q.deletion_nanos ≡ 0
        → ((r : Resource) → find q.key w.table ≡ some r → RowIsExact round r)
        → Matches d (object_params q) (object_upsert round q) w
    unfolding object_upsert suppresses null_or_eq upsert
    object-Matches q n es em z er = record {
      key = refl;
      force = refl;
      content = λ r f.
          let (a, b, c) = er r f in
          rw
            (
              exact_eq r.spec q.spec a es,
              exact_eq r.metadata q.metadata c em,
              whole_equal r.deletion_timestamp q.deletion_timestamp q.deletion_nanos z,
            )
            (ground arith);
      stored = λ old. ground (arith, object_stored q old, int_eq_iff q.expected_version (pos 0));
    }

-- A writer of production, and one with hooks that do nothing; the doorbell is the same.
abbrev pub production : Bool → Writer
production doorbell = record { doorbell = doorbell; hooks = none; link = up; fault = no_fault }

abbrev pub hooked : Bool → Writer
hooked doorbell = record { doorbell = doorbell; hooks = some quiet; link = up; fault = no_fault }

module _ (round : Text → Text) (doorbell : Bool) (d : Draw) (w : World) where
  -- `Write` does the same on both paths, results, errors, table and doorbells, if the request has a
  -- status, the documents compared hold only numerals that a float64 keeps, and the deletion timestamp of
  -- the request, if any, is of whole microseconds.
  pub write_paths_agree :
      (q : WriteRequest)
      → q.status ≢ none
      → IsExact round q.spec
      → IsExact round q.status
      → IsExact round q.metadata
      → q.deletion_nanos ≡ 0
      → ((r : Resource) → find q.key w.table ≡ some r → RowIsExact round r)
      → write round (production doorbell) d q w ≡ write round (hooked doorbell) d q w
  unfolding write run
  write_paths_agree q n es et em z er =
      agree doorbell d (write_params q) (write_upsert round q) w
        (write-Matches round d w q n es et em z er)

  -- So does `WriteStatus`, for every request.
  pub write_status_paths_agree :
      (q : StatusWriteRequest)
      → IsExact round q.status
      → ((r : Resource) → find q.key w.table ≡ some r → RowIsExact round r)
      → write_status round (production doorbell) d q w ≡ write_status round (hooked doorbell) d q w
  unfolding write_status run
  write_status_paths_agree q et er = elim (Bool-cases (int_eq q.expected_version (pos 0))) [
    | inl z ↦ rw z
    | inr z ↦ rw z (
        agree doorbell d (status_params q) (status_upsert round q) w
          (status-Matches round d w q (λ e. cc (z, (int_eq_iff _ _).1 e)) et er))
  ]

  -- And so does `WriteObject`.
  pub write_object_paths_agree :
      (q : ObjectWriteRequest)
      → IsExact round q.spec
      → IsExact round q.metadata
      → q.deletion_nanos ≡ 0
      → ((r : Resource) → find q.key w.table ≡ some r → RowIsExact round r)
      → write_object round (production doorbell) d q w ≡ write_object round (hooked doorbell) d q w
  unfolding write_object run
  write_object_paths_agree q es em t er = elim (Bool-cases (int_eq q.expected_version (pos 0))) [
    | inl z ↦ rw z
    | inr z ↦ rw z (
        agree doorbell d (object_params q) (object_upsert round q) w
          (object-Matches round d w q (λ e. cc (z, (int_eq_iff _ _).1 e)) es em t er))
  ]
