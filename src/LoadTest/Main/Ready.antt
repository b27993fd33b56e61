-- ===== src/LoadTest/Main/Ready.antt =====
-- What stands in the database when the phases start.
use postgres_controller_back.Base.{
  ℕ, ◌<◌, ◌≡◌, refl, Bool, true, false, ◌&&◌, not, List, [], ◌∷◌, Outcome, ok, err, ◌>>=◌, map_err,
  In,
}
use postgres_controller_back.Base.Int.{is_positive}
use postgres_controller_back.Base.Text.{Text}
use postgres_controller_back.Json.{Json}
use postgres_controller_back.Writer.Client.{World}
use postgres_controller_back.LoadTest.Config.{Config, SeedGvk, compute_total_objects}
use postgres_controller_back.LoadTest.Traffic.{Attempt, is_empty}
use postgres_controller_back.LoadTest.Seeder.{Draws, count_of, seed, SeedError}
use postgres_controller_back.LoadTest.Seeder.Objects.{Stands}
use postgres_controller_back.LoadTest.Seeder.Filled.{seed_fills}
use postgres_controller_back.LoadTest.Main.{
  Surroundings, seed_failed, seed_fresh, require_that, truncate_failed,
}

In-is_empty : {g : SeedGvk} (gs : List SeedGvk) → In g gs → is_empty gs ≡ false
In-is_empty [] i = elim i [ ]
In-is_empty (h ∷ gs) i = refl

module _ {F : Type 0} (marshal : Json → Text) (random : Draws) (round : Text → Text)
    (server : ℕ → Attempt) where
  -- If the program comes to its phases with a configuration that has objects to seed, in all and of the
  -- GVK in question, then each of its objects stands in the table.
  pub seed_fresh-Stands :
      (s : Surroundings F) (c : Config F) (w w' : World) (g : SeedGvk) (i : ℕ)
      → seed_fresh marshal random round server s c w ≡ ok w'
      → is_positive (compute_total_objects c) ≡ true
      → In g c.seed.gvks
      → i < count_of g.objects
      → Stands marshal random g i w'
  unfolding seed_fresh
  seed_fresh-Stands s c w w' g i e p m l =
      let k : (not (is_empty c.seed.gvks) && is_positive (compute_total_objects c)) ≡ true =
        rw (In-is_empty c.seed.gvks m, p) refl in
      truncated s.truncates (rw k at e)
    where
      seeded :
          (x : Outcome SeedError (ℕ × World))
          → seed marshal random round server c.seed.gvks (record w { table = [] }) ≡ x
          → (map_err seed_failed x >>= λ y. ok y.1) ≡ ok w'
          → Stands marshal random g i w'
      seeded (ok (total, v)) f k =
          let q : v ≡ w' = cc in
          rw (← q) (
            seed_fills marshal random round server c.seed.gvks (record w { table = [] }) total v g i
              f m l)
      seeded (err x) f k = cc

      truncated :
          (b : Bool)
          → (require_that b truncate_failed (record w { table = [] }) >>= λ v.
              map_err seed_failed (seed marshal random round server c.seed.gvks v) >>= λ y. ok y.1)
            ≡ ok w'
          → Stands marshal random g i w'
      truncated true h =
          seeded (seed marshal random round server c.seed.gvks (record w { table = [] })) refl h
      truncated false h = cc
