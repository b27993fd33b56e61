-- ===== src/Writer/Retry.antt =====
-- Suppression in `pgctl_write`: a write that was made is a no-op when it is made again.
use postgres_controller_back.Base.{
  ◌≡◌, refl, inl, inr, true, false, Option, none, some, arith, ok, ap, Bool-cases,
}
use postgres_controller_back.Base.Int.{ℤ, pos, int_eq, int_eq_iff}
use postgres_controller_back.Json.{Json, json_eq_refl, sql_eq, empty_object}
use postgres_controller_back.Model.{Resource, time_eq_iff}
use postgres_controller_back.Table.{Table, find}
use postgres_controller_back.Writer.Params.{WriteParams, Draw, Reply}
use postgres_controller_back.Writer.Proc.{
  null_or_eq, suppresses, suppression, update_status, create, update, upsert, require, coalesce,
  pgctl_write, unchanged,
}
use postgres_controller_back.Writer.Upserts.{pgctl_write-ok, Upserted}
use postgres_controller_back.Writer.Occ.{found_after}

sql_eq-require : (o : Option Json) {a : Json} → require o ≡ ok a → sql_eq a o ≡ true
unfolding sql_eq
sql_eq-require none h = cc
sql_eq-require (some b) {a} h = ground (arith, json_eq_refl a)

null_or_eq-coalesce : (o : Option Json) (d : Json) → null_or_eq (coalesce o d) o ≡ true
unfolding null_or_eq
null_or_eq-coalesce none d = refl
null_or_eq-coalesce (some b) d = json_eq_refl b

null_or_eq-require : (o : Option Json) {a : Json} → require o ≡ ok a → null_or_eq a o ≡ true
unfolding null_or_eq
null_or_eq-require none h = cc
null_or_eq-require (some b) {a} h = ground (arith, json_eq_refl a)

-- The content of a row that a full write or an object write has stored.
pub record Holds (p : WriteParams) (r : Resource) : Type 0 where
  pub spec : require p.spec ≡ ok r.spec
  pub metadata : require p.metadata ≡ ok r.metadata
  pub status : null_or_eq r.status p.status ≡ true
  pub deletion : r.deletion_timestamp ≡ p.deletion_timestamp

module _ (d : Draw) (p : WriteParams) where
  pub update-Holds : (old : Option Resource) {r : Resource} → update d p old ≡ ok r → Holds p r
  unfolding update
  update-Holds none h = ground arith
  update-Holds (some x) h = record {
    spec = ground arith;
    metadata = ground arith;
    status = ground (arith, null_or_eq-coalesce p.status x.status);
    deletion = ground arith;
  }

  pub create-Holds :
      (old : Option Resource) {r : Resource}
      → p.deletion_timestamp ≡ none
      → create d p old ≡ ok r
      → Holds p r
  unfolding create
  create-Holds none {r} n h = record {
    spec = ground arith;
    metadata = ground arith;
    status = ground (arith, null_or_eq-require p.status {a = r.status});
    deletion = ground arith;
  }
  create-Holds (some x) {r} n h = record {
    spec = ground arith;
    metadata = ground arith;
    status = ground (arith, null_or_eq-coalesce p.status empty_object);
    deletion = ground arith;
  }

  update_status-holds :
      (old : Option Resource) {r : Resource}
      → update_status d p old ≡ ok r
      → require p.status ≡ ok r.status
  unfolding update_status
  update_status-holds none h = ground arith
  update_status-holds (some x) h = ground arith

-- The same write made again, at any expected version and without force.
abbrev pub retry : WriteParams → ℤ → WriteParams
retry p e = record p { expected_version = e; force_write = false }

Holds-suppresses :
    (p : WriteParams) (e : ℤ) (r : Resource)
    → p.status_only ≡ false
    → Holds p r
    → suppresses (retry p e) r ≡ true
unfolding suppresses
Holds-suppresses p e r b h = ground (
  arith,
  sql_eq-require p.spec h.spec,
  sql_eq-require p.metadata h.metadata,
  h.status,
  (time_eq_iff r.deletion_timestamp p.deletion_timestamp).1 h.deletion,
)

module _ (d : Draw) (p : WriteParams) where
  upsert-suppresses :
      (e : ℤ) (old : Option Resource) {r : Resource}
      → (p.expected_version ≡ pos 0 → p.deletion_timestamp ≡ none)
      → upsert d p old ≡ ok r
      → suppresses (retry p e) r ≡ true
  upsert-suppresses e old {r} n h = elim (Bool-cases p.status_only) [
    | inl b ↦
        unfold upsert suppresses in
        ground (arith, update_status-holds d p old {r = r}, sql_eq-require p.status {a = r.status})
    | inr b ↦ elim (Bool-cases (int_eq p.expected_version (pos 0))) [
      | inl z ↦
          Holds-suppresses p e r b
            (create-Holds d p old (n ((int_eq_iff _ _).0 z)) (unfold upsert in ground arith))
      | inr z ↦ Holds-suppresses p e r b (update-Holds d p old (unfold upsert in ground arith))
    ]
  ]

suppression-some :
    (p : WriteParams) (t : Table) (r : Resource)
    → p.force_write ≡ false
    → find p.key t ≡ some r
    → suppresses p r ≡ true
    → suppression p t ≡ some r
unfolding suppression
suppression-some p t r b f s = ground arith

pub suppressed_answer :
    (d : Draw) (p : WriteParams) (t : Table) (r : Resource)
    → p.force_write ≡ false
    → find p.key t ≡ some r
    → suppresses p r ≡ true
    → pgctl_write d p t ≡ ok (unchanged r, t)
unfolding pgctl_write
suppressed_answer d p t r b f s = ground (arith, suppression-some p t r b f s)

-- A call that changed the table, made again at any expected version, is suppressed: it answers with
-- the row as the first call left it, and changes nothing. A create must not carry a deletion timestamp.
pub retry_suppressed :
    (d d' : Draw) (p : WriteParams) (e : ℤ) (t : Table) {reply : Reply} {t' : Table}
    → (p.expected_version ≡ pos 0 → p.deletion_timestamp ≡ none)
    → pgctl_write d p t ≡ ok (reply, t')
    → reply.changed ≡ true
    → (r : Resource) × (find p.key t' ≡ some r)
      × (reply.version ≡ r.object_version)
      × (pgctl_write d' (retry p e) t' ≡ ok (unchanged r, t'))
retry_suppressed d d' p e t {reply} {t'} n h c = elim (pgctl_write-ok d p t reply t' h) [
  | inl s ↦ absurd (cc (s.replied, c))
  | inr u ↦ again u
]
  where
    again :
        Upserted d p t reply t'
        → (r : Resource) × (find p.key t' ≡ some r)
          × (reply.version ≡ r.object_version)
          × (pgctl_write d' (retry p e) t' ≡ ok (unchanged r, t'))
    again u =
        let f : find p.key t' ≡ some u.row = found_after d p t u in
        let s : suppresses (retry p e) u.row ≡ true =
          upsert-suppresses d p e (find p.key t) n u.by in
        (
          u.row,
          f,
          ap (λ (x : Reply). x.version) u.replied,
          suppressed_answer d' (retry p e) t' u.row refl f s,
        )

pub equal-suppresses :
    (p : WriteParams) (x : Resource)
    → p.status_only ≡ false
    → some x.spec ≡ p.spec
    → some x.status ≡ p.status
    → some x.metadata ≡ p.metadata
    → x.deletion_timestamp ≡ p.deletion_timestamp
    → suppresses p x ≡ true
unfolding suppresses sql_eq null_or_eq
equal-suppresses p x b sp st m dt = ground (
  arith,
  json_eq_refl x.spec,
  json_eq_refl x.status,
  json_eq_refl x.metadata,
  (time_eq_iff x.deletion_timestamp p.deletion_timestamp).1 dt,
)
