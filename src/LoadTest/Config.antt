-- ===== src/LoadTest/Config.antt =====
-- loadtest/cmd/loadtest/config.go: the specification of a load test. Durations are in nanoseconds; the
-- YAML decoder and the file are given to `load_config`.
pub mod Usable
use postgres_controller_back.Base.{
  ℕ, ◌*◌, ◌/◌, Bool, Option, none, some, List, [], ◌∷◌, Outcome, ok, err, if◌then◌else◌,
}
use postgres_controller_back.Base.Int.{ℤ, pos, ◌+ℤ◌, is_positive, is_negative}
use postgres_controller_back.Base.Text.{Text, codes}

pub record SeedGvk : Type 0 where
  pub gvk : Text
  pub spec_size_bytes : ℤ
  pub status_size_bytes : ℤ
  pub metadata_size_bytes : ℤ
  pub objects : ℤ

pub record MetadataConfig : Type 0 where
  pub name : Text
  pub description : Text

pub record RdsConfig : Type 0 where
  pub instance_class : Text
  pub engine_version : Text

pub record ClusterConfig : Type 0 where
  pub baseline_poll_interval : ℤ
  pub debounce_floor : ℤ

pub record SeedConfig : Type 0 where
  pub gvks : List SeedGvk

pub record Phase0Config : Type 0 where
  pub enabled : Bool
  pub ping_iterations : ℤ
  pub write_iterations : ℤ
  pub stored_proc_writes : ℤ
  pub sync_commit_compare : ℤ

pub record Phase1Config (F : Type 0) : Type 0 where
  pub enabled : Bool
  pub workers : ℤ
  pub duration : ℤ
  pub warm_up : ℤ
  pub runs : ℤ
  pub target_rps : F
  pub target_p99_ms : ℤ
  pub worker_sweep : List ℕ

pub record Phase2Config (F : Type 0) : Type 0 where
  pub enabled : Bool
  pub duration : ℤ
  pub target_rps : F
  pub burst_rps : F
  pub target_cpu_pct : ℤ
  pub target_p50_ms : ℤ

pub record Phase2bConfig : Type 0 where
  pub enabled : Bool

pub record Phase3Config (F : Type 0) : Type 0 where
  pub enabled : Bool
  pub kill_fraction : F

pub record Phase5Config : Type 0 where
  pub enabled : Bool
  pub num_watchers : ℤ
  pub write_rate : ℤ
  pub write_count : ℤ
  pub doorbell_delivery_p99_ms : ℤ
  pub notify_loss_drill : Bool

pub record VerifierConfig : Type 0 where
  pub enabled : Bool
  pub poll_interval : ℤ
  pub canary_interval : ℤ

pub record PhasesConfig (F : Type 0) : Type 0 where
  pub phase0_baseline : Phase0Config
  pub phase1_ceiling : Phase1Config F
  pub phase2_steady : Phase2Config F
  pub phase2b_skew : Phase2bConfig
  pub phase3_avalanche : Phase3Config F
  pub phase5_poll : Phase5Config

pub record Config (F : Type 0) : Type 0 where
  pub metadata : MetadataConfig
  pub rds : RdsConfig
  pub cluster : ClusterConfig
  pub seed : SeedConfig
  pub phases : PhasesConfig F
  pub verifier : VerifierConfig
  pub checkpoint_interval : ℤ

-- `if x <= 0 { x = d }`
unfoldable pub or_default : ℕ → ℤ → ℤ
unfolding is_positive
or_default d x = if is_positive x then x else pos d

abbrev second : ℕ
second = 1_000_000_000

unfoldable pub validate_phase0 : Phase0Config → Phase0Config
unfolding or_default
validate_phase0 p = record p {
  ping_iterations = or_default 1000 p.ping_iterations;
  write_iterations = or_default 500 p.write_iterations;
  stored_proc_writes = or_default 500 p.stored_proc_writes;
  sync_commit_compare = or_default 200 p.sync_commit_compare;
}

unfoldable pub sum_objects : List SeedGvk → ℤ
sum_objects [] = pos 0
sum_objects (g ∷ gs) = g.objects +ℤ sum_objects gs

pub data ConfigError : Type 0 where
  read_failed parse_failed : ConfigError

module _ {F : Type 0} where
  unfoldable pub validate_phase1 : Phase1Config F → Phase1Config F
  unfolding or_default is_negative
  validate_phase1 p = record p {
    warm_up = if is_negative p.warm_up then pos 0 else p.warm_up;
    runs = or_default 1 p.runs;
  }

  -- The defaults; nothing is refused.
  unfoldable pub validate : Config F → Config F
  unfolding or_default validate_phase0 validate_phase1
  validate c = record c {
    cluster = record {
      baseline_poll_interval = or_default (5 * second) c.cluster.baseline_poll_interval;
      debounce_floor = or_default (second / 10) c.cluster.debounce_floor;
    };
    checkpoint_interval = or_default (300 * second) c.checkpoint_interval;
    phases = record c.phases {
      phase0_baseline = validate_phase0 c.phases.phase0_baseline;
      phase1_ceiling = validate_phase1 c.phases.phase1_ceiling;
    };
  }

  unfoldable pub compute_total_objects : Config F → ℤ
  unfolding sum_objects
  compute_total_objects c = sum_objects c.seed.gvks

  -- The first configured GVK, or a default.
  unfoldable pub first_gvk : Config F → Text
  first_gvk c = elim c.seed.gvks [ [] ↦ codes "apps/v1/Deployment" | g ∷ _ ↦ g.gvk ]

  unfoldable pub load_config :
      (Text → Option Text) → (Text → Option (Config F)) → Text → Outcome ConfigError (Config F)
  unfolding validate
  load_config read unmarshal path = elim (read path) [
    | none ↦ err read_failed
    | some data_read ↦ elim (unmarshal data_read) [
      | none ↦ err parse_failed
      | some c ↦ ok (validate c)
    ]
  ]
