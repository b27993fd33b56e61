-- ===== src/LoadTest/Seeder/Filled.antt =====
-- After a seeding without an error every configured object stands in the table.
use postgres_controller_back.Base.{
  ℕ, zero, suc, ◌+◌, ◌≡◌, ◌≤◌, ◌<◌, refl, subst, List, [], ◌∷◌, Outcome, ok, err, arith, ◌⊎◌, inl,
  inr, In, here, there,
}
use postgres_controller_back.Base.Text.{Text}
use postgres_controller_back.Json.{Json}
use postgres_controller_back.Model.{WriteResult}
use postgres_controller_back.Writer.Client.{World, WriteError}
use postgres_controller_back.Writer.Entry.{write}
use postgres_controller_back.Writer.Plain.{plain_writer}
use postgres_controller_back.LoadTest.Config.{SeedGvk}
use postgres_controller_back.LoadTest.Traffic.{Attempt}
use postgres_controller_back.LoadTest.Seeder.{
  Draws, count_of, seed_request, seed_objects, seed_on, seed, Seeded, seed_write_failed,
}
use postgres_controller_back.LoadTest.Seeder.Objects.{Stands, write-Stands, write-own}

module _ (marshal : Json → Text) (random : Draws) (round : Text → Text) (server : ℕ → Attempt) where
  -- What the loop does after a write.
  abbrev written : SeedGvk → ℕ → ℕ → ℕ → Outcome WriteError WriteResult × World → Seeded
  written g n i total (r, w') = elim r [
    | ok x ↦ seed_objects marshal random round server g n (i + 1) (total + 1) w'
    | err e ↦ err (seed_write_failed g.gvk i e)
  ]

  -- What the loop over the GVKs does after one of them.
  abbrev next : List SeedGvk → Seeded → Seeded
  next gs (ok (total, w)) = seed_on marshal random round server gs total w
  next gs (err e) = err e

  seed_objects-keeps :
      (g h : SeedGvk) (i n j total : ℕ) (w : World) {total' : ℕ} {w' : World}
      → seed_objects marshal random round server h n j total w ≡ ok (total', w')
      → Stands marshal random g i w
      → Stands marshal random g i w'
  unfolding seed_objects
  seed_objects-keeps g h i zero j total w {w' = w'} e s = let q : w ≡ w' = cc in rw (← q) s
  seed_objects-keeps g h i (suc n) j total w {total'} {w'} e s =
      go
        (write round (plain_writer (server total).link) (server total).draw
          (seed_request marshal random h j) w)
        refl e (λ v k. seed_objects-keeps g h i n (j + 1) (total + 1) v k)
    where
      go :
          (y : Outcome WriteError WriteResult × World)
          → write round
              (plain_writer (server total).link)
              (server total).draw
              (seed_request marshal random h j)
              w
            ≡ y
          → written h n j total y ≡ ok (total', w')
          → ((v : World)
              → seed_objects marshal random round server h n (j + 1) (total + 1) v ≡ ok (total', w')
              → Stands marshal random g i v
              → Stands marshal random g i w')
          → Stands marshal random g i w'
      go (ok x, v) f k rec =
          rec v k (write-Stands marshal random round g h i j (server total) w v f s)
      go (err x, v) f k rec = cc

  seed_objects-fills :
      (g : SeedGvk) (i n j total : ℕ) (w : World) {total' : ℕ} {w' : World}
      → seed_objects marshal random round server g n j total w ≡ ok (total', w')
      → j ≤ i
      → i < j + n
      → Stands marshal random g i w'
  unfolding seed_objects
  seed_objects-fills g i zero j total w e l u = absurd (omega (arith, l, u))
  seed_objects-fills g i (suc n) j total w {total'} {w'} e l u =
      go
        (write round (plain_writer (server total).link) (server total).draw
          (seed_request marshal random g j) w)
        refl e (λ v k b. seed_objects-fills g i n (j + 1) (total + 1) v k b (omega (arith, u)))
    where
      here_or_later :
          (v : World) {x : WriteResult}
          → write round
              (plain_writer (server total).link)
              (server total).draw
              (seed_request marshal random g j)
              w
            ≡ (ok x, v)
          → seed_objects marshal random round server g n (j + 1) (total + 1) v ≡ ok (total', w')
          → (j + 1 ≤ i → Stands marshal random g i w')
          → (i ≡ j) ⊎ (j + 1 ≤ i)
          → Stands marshal random g i w'
      here_or_later v f k rec (inl p) =
          seed_objects-keeps g g i n (j + 1) (total + 1) v k
            (rw p (write-own marshal random round g j (server total) w v f))
      here_or_later v f k rec (inr b) = rec b

      go :
          (y : Outcome WriteError WriteResult × World)
          → write round
              (plain_writer (server total).link)
              (server total).draw
              (seed_request marshal random g j)
              w
            ≡ y
          → written g n j total y ≡ ok (total', w')
          → ((v : World)
              → seed_objects marshal random round server g n (j + 1) (total + 1) v ≡ ok (total', w')
              → j + 1 ≤ i
              → Stands marshal random g i w')
          → Stands marshal random g i w'
      go (ok x, v) f k rec = here_or_later v f k (rec v k) (omega (arith, l))
      go (err x, v) f k rec = cc

  seed_on-keeps :
      (g : SeedGvk) (i : ℕ) (gs : List SeedGvk) (total : ℕ) (w : World) {total' : ℕ} {w' : World}
      → seed_on marshal random round server gs total w ≡ ok (total', w')
      → Stands marshal random g i w
      → Stands marshal random g i w'
  unfolding seed_on
  seed_on-keeps g i [] total w {w' = w'} e s = let q : w ≡ w' = cc in rw (← q) s
  seed_on-keeps g i (h ∷ gs) total w {total'} {w'} e s =
      go (seed_objects marshal random round server h (count_of h.objects) 0 total w) refl e
        (λ n v k. seed_on-keeps g i gs n v k)
    where
      go :
          (y : Seeded)
          → seed_objects marshal random round server h (count_of h.objects) 0 total w ≡ y
          → next gs y ≡ ok (total', w')
          → ((n : ℕ) (v : World)
              → seed_on marshal random round server gs n v ≡ ok (total', w')
              → Stands marshal random g i v
              → Stands marshal random g i w')
          → Stands marshal random g i w'
      go (ok (n, v)) f k rec =
          rec n v k (seed_objects-keeps g h i (count_of h.objects) 0 total w f s)
      go (err x) f k rec = cc

  seed_on-fills :
      (g : SeedGvk) (i : ℕ) (gs : List SeedGvk) (total : ℕ) (w : World) {total' : ℕ} {w' : World}
      → seed_on marshal random round server gs total w ≡ ok (total', w')
      → In g gs
      → i < count_of g.objects
      → Stands marshal random g i w'
  unfolding seed_on
  seed_on-fills g i [] total w e m l = elim m [ ]
  seed_on-fills g i (h ∷ gs) total w {total'} {w'} e m l =
      go (seed_objects marshal random round server h (count_of h.objects) 0 total w) refl e
        (λ n v k b. seed_on-fills g i gs n v k b l) m
    where
      go :
          (y : Seeded)
          → seed_objects marshal random round server h (count_of h.objects) 0 total w ≡ y
          → next gs y ≡ ok (total', w')
          → ((n : ℕ) (v : World)
              → seed_on marshal random round server gs n v ≡ ok (total', w')
              → In g gs
              → Stands marshal random g i w')
          → In g (h ∷ gs)
          → Stands marshal random g i w'
      go (ok (n, v)) f k rec (there b) = rec n v k b
      go (ok (n, v)) f k rec (here p) = seed_on-keeps g i gs n v k (
          seed_objects-fills g i (count_of g.objects) 0 total w
            (subst
              (λ x.
                seed_objects marshal random round server x (count_of x.objects) 0 total w
                ≡ ok (n, v))
              p f)
            (omega arith) (omega (arith, l)))
      go (err x) f k rec b = cc

-- After a seeding that returns no error, whatever stood in the table before, each object of each
-- configured GVK stands there live, with the spec, status and metadata that are generated for it.
pub seed_fills :
    (marshal : Json → Text) (random : Draws) (round : Text → Text) (server : ℕ → Attempt)
    (gs : List SeedGvk) (w : World) (total : ℕ) (w' : World) (g : SeedGvk) (i : ℕ)
    → seed marshal random round server gs w ≡ ok (total, w')
    → In g gs
    → i < count_of g.objects
    → Stands marshal random g i w'
unfolding seed
seed_fills marshal random round server gs w total w' g i e m l =
    seed_on-fills marshal random round server g i gs 0 w e m l
