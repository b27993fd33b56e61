-- ===== src/LoadTest/Ceiling/Sweeps.antt =====
-- What a sweep returns.
use postgres_controller_back.Base.{
  ℕ, ◌≡◌, refl, sym, ap, ◌∙◌, Bool, true, ◌&&◌, Option, none, some, List, [], ◌∷◌, ◌++◌, map,
  append-nil, if◌then◌else◌, ok, ◌>>=◌, arith,
}
use postgres_controller_back.Base.Text.{codes}
use postgres_controller_back.LoadTest.Floats.{Floats, mean}
use postgres_controller_back.LoadTest.Report.{PhaseResult, SweepEntry, blank_result}
use postgres_controller_back.LoadTest.Ceiling.{
  Runs, Sweep, note_run, note_runs, note_entry, sweep_entry, sweep_on, run_sweep,
}

-- The results of a count of workers, of which there is one at least, and each passed or not.
pub record Count (F : Type 0) : Type 0 where
  pub workers : ℕ
  pub first : PhaseResult F
  pub others : List (PhaseResult F)

abbrev pub results : {F : Type 0} → Count F → List (PhaseResult F)
results c = c.first ∷ c.others

abbrev pub as_runs : {F : Type 0} → Count F → ℕ × List (Option (PhaseResult F))
as_runs c = (c.workers, map some (results c))

module _ {F : Type 0} where
  abbrev pub all_pass : List (PhaseResult F) → Bool
  all_pass [] = true
  all_pass (r ∷ rs) = r.passed && all_pass rs

  abbrev pub counts_pass : List (Count F) → Bool
  counts_pass [] = true
  counts_pass (c ∷ cs) = all_pass (results c) && counts_pass cs

  module _ (fl : Floats F) where
    -- Runs without an error end, with a best result and the verdict on all of them.
    note_runs-ok :
        (rs : List (PhaseResult F)) (s : Runs F) (b : PhaseResult F)
        → s.best_result ≡ some b
        → (s' : Runs F) × (b' : PhaseResult F) × (note_runs fl (map some rs) s ≡ ok s')
          × (s'.best_result ≡ some b')
          × (s'.all_passed ≡ (s.all_passed && all_pass rs))
    unfolding note_runs note_run
    note_runs-ok [] s b h = (s, b, refl, h, ground arith)
    note_runs-ok (r ∷ rs) s b h =
        let (s', b', e, f, g) = note_runs-ok rs (note_run fl r s) _ refl in
        (s', b', e, f, g ∙ ground arith)

    abbrev fresh : Sweep F → Runs F
    fresh w = record {
      rps_values = [];
      best_result = none;
      total_errors = 0;
      total_duration = w.total_duration;
      all_passed = w.all_passed;
    }

    -- The sweep with an entry more.
    entered : ℕ → ℕ → Sweep F → Runs F → PhaseResult F → Sweep F
    unfolding mean
    entered runs workers w s best = record {
      entries = w.entries ++ sweep_entry fl workers runs s best ∷ [];
      best_rps =
          if fl.below w.best_rps (mean fl s.rps_values) then mean fl s.rps_values else w.best_rps;
      all_passed = s.all_passed;
      total_duration = s.total_duration;
    }

    note_entry-ok :
        (runs workers : ℕ) (w : Sweep F) (s : Runs F) (b : PhaseResult F)
        → s.best_result ≡ some b
        → note_entry fl workers runs w s ≡ ok (entered runs workers w s b)
    unfolding note_entry entered
    note_entry-ok runs workers w s b h = rw h refl

    workers_append :
        (xs : List (SweepEntry F)) (y : SweepEntry F) (ns : List ℕ)
        → map (λ (x : SweepEntry F). x.workers) (xs ++ y ∷ []) ++ ns
          ≡ map (λ (x : SweepEntry F). x.workers) xs ++ y.workers ∷ ns
    workers_append [] y ns = refl
    workers_append (x ∷ xs) y ns = ap (λ ms. x.workers ∷ ms) (workers_append xs y ns)

    sweep_on-ok :
        (runs : ℕ) (cs : List (Count F)) (w : Sweep F)
        → (w' : Sweep F) × (sweep_on fl runs (map as_runs cs) w ≡ ok w')
          × (w'.all_passed ≡ (w.all_passed && counts_pass cs))
          × (map (λ (x : SweepEntry F). x.workers) w'.entries
              ≡ map (λ (x : SweepEntry F). x.workers) w.entries
                ++ map (λ (c : Count F). c.workers) cs)
    unfolding sweep_on entered
    sweep_on-ok runs [] w = (w, refl, ground arith, sym (append-nil _))
    sweep_on-ok runs (c ∷ cs) w =
        let (s, b, e, f, g) =
          note_runs-ok c.others (note_run fl c.first (fresh w)) _ (unfold note_run in refl) in
        let (w', h, p, q) = sweep_on-ok runs cs (entered runs c.workers w s b) in
        (
          w',
          rw (e, note_entry-ok runs c.workers w s b f) h,
          p ∙ (rw g (unfold note_run in ground arith)),
          q ∙ workers_append w.entries (sweep_entry fl c.workers runs s b) _,
        )

    abbrev empty_sweep : Sweep F
    empty_sweep = record {
      entries = [];
      best_rps = fl.nought;
      all_passed = true;
      total_duration = 0;
    }

    abbrev concluded : Sweep F → PhaseResult F
    concluded w = record (blank_result fl (codes "phase1_ceiling") w.all_passed) {
      duration = w.total_duration;
      rps = w.best_rps;
      sweep = w.entries;
    }

    -- With one run at least for each count of workers, and no error in them, a sweep returns a result: it
    -- passes exactly if every run has, and has one entry for each count, in their order.
    pub sweep_verdict :
        (runs : ℕ) (cs : List (Count F))
        → (r : PhaseResult F) × (run_sweep fl runs (map as_runs cs) ≡ ok r)
          × (r.passed ≡ counts_pass cs)
          × (map (λ (x : SweepEntry F). x.workers) r.sweep ≡ map (λ (c : Count F). c.workers) cs)
    unfolding run_sweep
    sweep_verdict runs cs =
        let (w, e, p, q) = sweep_on-ok runs cs empty_sweep in
        (concluded w, ap (λ o. o >>= λ v. ok (concluded v)) e, p, q)
