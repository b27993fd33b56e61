-- ===== src/LoadTest/Config/Usable.antt =====
-- What the load test may rely on in a configuration that was loaded.
use postgres_controller_back.Base.{
  ℕ, zero, suc, ◌≡◌, refl, true, false, Option, none, some, ok, err, if◌then◌else◌,
}
use postgres_controller_back.Base.Int.{ℤ, pos, negsuc, is_positive, is_negative}
use postgres_controller_back.Base.Text.{Text}
use postgres_controller_back.LoadTest.Config.{
  Config, read_failed, parse_failed, or_default, validate_phase0, validate_phase1, validate,
  load_config,
}

-- The intervals of the checkpoints and of the watchers are positive, each loop of the baseline makes a
-- round, and each count of workers a run, after a warm-up that is not negative. The intervals of the
-- verifier are taken as they are.
pub record IsUsable {F : Type 0} (c : Config F) : Type 0 where
  pub checkpoint_interval : is_positive c.checkpoint_interval ≡ true
  pub baseline_poll_interval : is_positive c.cluster.baseline_poll_interval ≡ true
  pub debounce_floor : is_positive c.cluster.debounce_floor ≡ true
  pub ping_iterations : is_positive c.phases.phase0_baseline.ping_iterations ≡ true
  pub write_iterations : is_positive c.phases.phase0_baseline.write_iterations ≡ true
  pub stored_proc_writes : is_positive c.phases.phase0_baseline.stored_proc_writes ≡ true
  pub sync_commit_compare : is_positive c.phases.phase0_baseline.sync_commit_compare ≡ true
  pub runs : is_positive c.phases.phase1_ceiling.runs ≡ true
  pub warm_up : is_negative c.phases.phase1_ceiling.warm_up ≡ false

is_positive-or_default : (d : ℕ) (x : ℤ) → is_positive (or_default (suc d) x) ≡ true
unfolding is_positive or_default
is_positive-or_default d (pos zero) = refl
is_positive-or_default d (pos (suc n)) = refl
is_positive-or_default d (negsuc n) = refl

is_negative-clamp : (x : ℤ) → is_negative (if is_negative x then pos 0 else x) ≡ false
unfolding is_negative
is_negative-clamp (pos n) = refl
is_negative-clamp (negsuc n) = refl

module _ {F : Type 0} where
  validate-IsUsable : (c : Config F) → IsUsable (validate c)
  unfolding validate validate_phase0 validate_phase1
  validate-IsUsable c = record {
    checkpoint_interval = is_positive-or_default _ c.checkpoint_interval;
    baseline_poll_interval = is_positive-or_default _ c.cluster.baseline_poll_interval;
    debounce_floor = is_positive-or_default _ c.cluster.debounce_floor;
    ping_iterations = is_positive-or_default _ c.phases.phase0_baseline.ping_iterations;
    write_iterations = is_positive-or_default _ c.phases.phase0_baseline.write_iterations;
    stored_proc_writes = is_positive-or_default _ c.phases.phase0_baseline.stored_proc_writes;
    sync_commit_compare = is_positive-or_default _ c.phases.phase0_baseline.sync_commit_compare;
    runs = is_positive-or_default _ c.phases.phase1_ceiling.runs;
    warm_up = is_negative-clamp c.phases.phase1_ceiling.warm_up;
  }

  -- Whatever the file says, a configuration that is loaded has a positive checkpoint interval, baseline
  -- poll interval and debounce floor, positive numbers of rounds of the baseline phase and of runs of the
  -- ceiling phase, and no negative warm-up.
  pub load_config-IsUsable :
      (read : Text → Option Text) (unmarshal : Text → Option (Config F)) (path : Text)
      (c : Config F)
      → load_config read unmarshal path ≡ ok c
      → IsUsable c
  unfolding load_config
  load_config-IsUsable read unmarshal path c h = loaded (read path) h
    where
      parsed :
          (x : Option (Config F))
          → (elim x [ none ↦ err parse_failed | some b ↦ ok (validate b) ]) ≡ ok c
          → IsUsable c
      parsed none e = cc
      parsed (some b) e = let q : validate b ≡ c = cc in rw (← q) (validate-IsUsable b)

      loaded :
          (x : Option Text)
          → (elim x [
            | none ↦ err read_failed
            | some t ↦ elim (unmarshal t) [ none ↦ err parse_failed | some b ↦ ok (validate b) ]
          ])
            ≡ ok c
          → IsUsable c
      loaded none e = cc
      loaded (some t) e = parsed (unmarshal t) e
