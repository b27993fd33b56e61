-- ===== src/LoadTest/Seeder/Objects.antt =====
-- A write of the seeder, and what it leaves in the table.
use postgres_controller_back.Base.{
  ℕ, ◌≡◌, refl, sym, ◌∙◌, subst, false, none, some, Outcome, ok, err, arith, Bool-cases, inl, inr,
}
use postgres_controller_back.Base.Text.{Text}
use postgres_controller_back.Json.{Json, json_eq_iff}
use postgres_controller_back.Model.{Key, Resource, WriteResult, key_eq, key_eq_iff}
use postgres_controller_back.Table.{Table, find}
use postgres_controller_back.Writer.Params.{WriteParams, Draw, Reply, PgError}
use postgres_controller_back.Writer.Proc.{is_tombstone, null_or_eq, pgctl_write}
use postgres_controller_back.Writer.Upserts.{pgctl_write-ok}
use postgres_controller_back.Writer.Occ.{pgctl_write-frame}
use postgres_controller_back.Writer.Create.{IsCreate, create_refused}
use postgres_controller_back.Writer.Landed.{pgctl_write-Landed}
use postgres_controller_back.Writer.Client.{World}
use postgres_controller_back.Writer.Entry.{write}
use postgres_controller_back.Writer.Multi.{write_params}
use postgres_controller_back.Writer.Plain.{plain_writer, plain_write-ok}
use postgres_controller_back.LoadTest.Config.{SeedGvk}
use postgres_controller_back.LoadTest.Traffic.{Attempt}
use postgres_controller_back.LoadTest.Seeder.{
  Draws, generate_spec, generate_status, generate_metadata, seed_key, seed_request,
}

alive-is_tombstone : (r : Resource) → r.deletion_timestamp ≡ none → is_tombstone r ≡ false
unfolding is_tombstone
alive-is_tombstone r h = ground arith

-- A create that succeeds leaves every live row as it was, also one under its own key.
pub create_keeps_live :
    (d : Draw) (p : WriteParams) (t : Table) {reply : Reply} {t' : Table} (k : Key) (r : Resource)
    → IsCreate p
    → pgctl_write d p t ≡ ok (reply, t')
    → find k t ≡ some r
    → r.deletion_timestamp ≡ none
    → find k t' ≡ some r
create_keeps_live d p t {reply} {t'} k r c h f a = elim (Bool-cases (key_eq k p.key)) [
  | inr n ↦ pgctl_write-frame d p t k (λ e. absurd (ground (arith, (key_eq_iff k p.key).1 e))) h ∙ f
  | inl e ↦ elim (pgctl_write-ok d p t reply t' h) [
    | inl s ↦ rw s.kept f
    | inr u ↦
        let g : find p.key t ≡ some r =
          subst (λ j. find j t ≡ some r) ((key_eq_iff k p.key).0 e) f in
        absurd
          (ok-ne-err (sym h ∙ create_refused d p t r c u.unsuppressed g (alive-is_tombstone r a)))
  ]
]
  where
    ok-ne-err : {A : Type 0} {E : Type 0} {x : A} {e : E} → ok x ≡ err e → ⊥
    ok-ne-err q = cc

ok-inj : {A : Type 0} {x y : A} → ◌≡◌ {A = Outcome PgError A} (ok x) (ok y) → x ≡ y
ok-inj q = cc

-- The row of a seeded object: live, with the documents of the configuration.
pub record IsSeeded (marshal : Json → Text) (random : Draws) (g : SeedGvk) (i : ℕ) (r : Resource)
    : Type 0 where
  pub alive : r.deletion_timestamp ≡ none
  pub spec : r.spec ≡ generate_spec marshal random g.gvk g.spec_size_bytes i
  pub status : r.status ≡ generate_status marshal random g.gvk g.status_size_bytes i
  pub metadata : r.metadata ≡ generate_metadata marshal random g.gvk g.metadata_size_bytes i

module _ (marshal : Json → Text) (random : Draws) where
  -- The table holds the object.
  abbrev pub Stands : SeedGvk → ℕ → World → Type 0
  Stands g i w =
      (r : Resource) × (find (seed_key marshal random g.gvk i) w.table ≡ some r)
      × IsSeeded marshal random g i r

  seed_request-IsCreate :
      (g : SeedGvk) (i : ℕ) → IsCreate (write_params (seed_request marshal random g i))
  unfolding seed_request
  seed_request-IsCreate g i = record {
    full = refl;
    version = refl;
    has_spec = (_, refl);
    has_status = (_, refl);
    has_metadata = (_, refl);
  }

module _ (marshal : Json → Text) (random : Draws) (round : Text → Text) where
  -- A write of the seeder keeps what stands, and its own object stands after it.
  pub write-Stands :
      (g h : SeedGvk) (i j : ℕ) (a : Attempt) (w w' : World) {x : WriteResult}
      → write round (plain_writer a.link) a.draw (seed_request marshal random h j) w ≡ (ok x, w')
      → Stands marshal random g i w
      → Stands marshal random g i w'
  write-Stands g h i j a w w' e (r, f, s) =
      let (reply, k) =
        plain_write-ok round a.link a.draw (seed_request marshal random h j) w w' e in
      (
        r,
        create_keeps_live a.draw (write_params (seed_request marshal random h j)) w.table
            (seed_key marshal random g.gvk i) r (seed_request-IsCreate marshal random h j) k f
            s.alive,
        s,
      )

  pub write-own :
      (g : SeedGvk) (i : ℕ) (a : Attempt) (w w' : World) {x : WriteResult}
      → write round (plain_writer a.link) a.draw (seed_request marshal random g i) w ≡ (ok x, w')
      → Stands marshal random g i w'
  unfolding seed_request null_or_eq
  write-own g i a w w' e =
      let q = seed_request marshal random g i in
      let (reply, k) = plain_write-ok round a.link a.draw q w w' e in
      let l =
        pgctl_write-Landed a.draw (write_params q) w.table reply w'.table refl (λ _. refl) k in
      (
        l.row,
        l.found,
        record {
          alive = l.holds.deletion;
          spec = ok-inj (sym l.holds.spec);
          status = (json_eq_iff _ _).0 l.holds.status;
          metadata = ok-inj (sym l.holds.metadata);
        },
      )
