-- ===== src/Witnesses/Loading.antt =====
-- The theorems on the load test at concrete inputs. A float is a natural number here.
use postgres_controller_back.Base.{
  ℕ, ◌+◌, ◌-◌, ◌*◌, ◌/◌, ◌≡◌, refl, true, false, none, some, List, [], ◌∷◌, ltb, if◌then◌else◌, All,
  arith, ok, err, here,
}
use postgres_controller_back.Base.Int.{pos, int_eq, is_positive, ◌+ℤ◌}
use postgres_controller_back.Base.Text.{codes, text_eq}
use postgres_controller_back.Json.{empty_object}
use postgres_controller_back.Table.{find, put}
use postgres_controller_back.Writer.Client.{World, up, call_stored_proc}
use postgres_controller_back.Writer.Entry.{write, run}
use postgres_controller_back.Writer.Proc.{suppression, upsert, pgctl_write}
use postgres_controller_back.Strconv.{format_uint}
use postgres_controller_back.LoadTest.Floats.{Floats}
use postgres_controller_back.LoadTest.Config.{
  Config, SeedGvk, compute_total_objects, load_config, validate,
}
use postgres_controller_back.LoadTest.Report.{blank_result}
use postgres_controller_back.LoadTest.Suite.{Phase, conclude}
use postgres_controller_back.LoadTest.Suite.Verdict.{suite_verdict, ran, results, all_of, IsHonest}
use postgres_controller_back.LoadTest.Steady.{Tick}
use postgres_controller_back.LoadTest.Steady.Bursts.{IsSteady, pace_all-IsSteady}
use postgres_controller_back.LoadTest.Seeder.{seed, seed_on, seed_objects}
use postgres_controller_back.LoadTest.Seeder.Objects.{Stands}
use postgres_controller_back.LoadTest.Traffic.{Attempt}
use postgres_controller_back.LoadTest.Main.{Surroundings, seed_fresh}
use postgres_controller_back.LoadTest.Main.Ready.{seed_fresh-Stands}
use postgres_controller_back.LoadTest.Baseline.Arms.{Trial}
use postgres_controller_back.Samples
use postgres_controller_back.Witnesses.Padding.{rough}
use postgres_controller_back.LoadTest.Config.Usable.{IsUsable, load_config-IsUsable}

abbrev whole : Floats ℕ
whole = record {
  nought = 0;
  of_int = λ n. n;
  seconds = λ n. n / 1_000_000_000;
  plus = λ a b. a + b;
  minus = λ a b. a - b;
  times = λ a b. a * b;
  over = λ a b. a / b;
  square_root = λ a. a;
  below = ltb;
  ceil = λ a. a;
}

-- One phase passes, one returns an error and one is switched off.
abbrev phases : List (Phase ℕ)
phases =
    record {
      name = codes "phase1_ceiling";
      enabled = true;
      started = 1;
      idle_ticks = [];
      ticks = 3 ∷ [];
      late_ticks = [];
      noted = 5;
      run = ok (blank_result whole (codes "phase1_ceiling") true);
    }
    ∷ record {
      name = codes "phase2_steady";
      enabled = true;
      started = 6;
      idle_ticks = 6 ∷ [];
      ticks = [];
      late_ticks = [];
      noted = 9;
      run = err (codes "connection refused");
    }
    ∷ record {
      name = codes "phase5_poll";
      enabled = false;
      started = 9;
      idle_ticks = [];
      ticks = [];
      late_ticks = [];
      noted = 9;
      run = err [];
    }
    ∷ []

-- A configuration that seeds one object of one GVK.
abbrev pods : SeedGvk
pods = record {
  gvk = codes "v1/Pod";
  spec_size_bytes = pos 0;
  status_size_bytes = pos 0;
  metadata_size_bytes = pos 0;
  objects = pos 1;
}

abbrev config : Config ℕ
config = record {
  metadata = record { name = codes "smoke"; description = [] };
  rds = record { instance_class = []; engine_version = [] };
  cluster = record { baseline_poll_interval = pos 5; debounce_floor = pos 1 };
  seed = record { gvks = pods ∷ [] };
  phases = record {
    phase0_baseline = record {
      enabled = false;
      ping_iterations = pos 1;
      write_iterations = pos 1;
      stored_proc_writes = pos 1;
      sync_commit_compare = pos 1;
    };
    phase1_ceiling = record {
      enabled = true;
      workers = pos 2;
      duration = pos 10;
      warm_up = pos 0;
      runs = pos 1;
      target_rps = 0;
      target_p99_ms = pos 0;
      worker_sweep = [];
    };
    phase2_steady = record {
      enabled = true;
      duration = pos 10;
      target_rps = 5;
      burst_rps = 9;
      target_cpu_pct = pos 0;
      target_p50_ms = pos 0;
    };
    phase2b_skew = record { enabled = false };
    phase3_avalanche = record { enabled = false; kill_fraction = 0 };
    phase5_poll = record {
      enabled = false;
      num_watchers = pos 1;
      write_rate = pos 1;
      write_count = pos 1;
      doorbell_delivery_p99_ms = pos 0;
      notify_loss_drill = false;
    };
  };
  verifier = record { enabled = false; poll_interval = pos 0; canary_interval = pos 0 };
  checkpoint_interval = pos 300;
}

-- The file is read as empty, and its document is `config`.
config_loads :
    load_config (λ t. some []) (λ t. some config) (codes "spec.yaml") ≡ ok (validate config)
unfolding load_config
config_loads = refl

load_config-IsUsable_example : IsUsable (validate config)
load_config-IsUsable_example =
    load_config-IsUsable (λ t. some []) (λ t. some config) (codes "spec.yaml") (validate config)
      config_loads

suite_verdict_example :
    ((conclude whole 0 9 config (ran whole phases config [] 0)).0.phases ≡ results whole phases)
    × ((conclude whole 0 9 config (ran whole phases config [] 0)).0.all_passed
        ≡ all_of (results whole phases))
    × ((conclude whole 0 9 config (ran whole phases config [] 0)).1
        ≡ (if all_of (results whole phases) then 0 else 1))
    × All (IsHonest (results whole phases)) (ran whole phases config [] 0).checkpoints
suite_verdict_example = suite_verdict whole phases config [] 0 0 9

-- A tick before five minutes have passed, one that starts a burst, and one that ends it.
abbrev tick_at : ℕ → Tick
tick_at t = record { loop_now = t; now = t; taken = 0; ctx_done = false }

abbrev ticks : List Tick
ticks = tick_at 1_000_000_000 ∷ tick_at 301_000_000_000 ∷ tick_at 312_000_000_000 ∷ []

pace_all-IsSteady_example : IsSteady whole 5 9 600_000_000_000 ticks
pace_all-IsSteady_example = pace_all-IsSteady whole 5 9 600_000_000_000 ticks

abbrev trials : List Trial
trials =
    record { draw = Samples.draw; latency = 3 }
    ∷ record { draw = Samples.next_draw; latency = 4 }
    ∷ []

abbrev full : World
full = record { table = Samples.rows; rung = [] }

abbrev server : ℕ → Attempt
server n = record { draw = Samples.draw; link = up; latency = 1 }

abbrev surroundings : Surroundings ℕ
surroundings = record {
  env_dsn = [];
  read = λ t. none;
  unmarshal = λ t. none;
  connects = true;
  embedded = λ t. none;
  exec = λ t w. none;
  truncates = true;
  directory = λ t. t;
}

-- The table after the seeding.
abbrev seeded : World
seeded = record {
  table =
      record {
        key = record {
          gvk = codes "v1/Pod";
          namespace = codes "loadtest-seed";
          name = codes "seed-v1/Pod-0";
        };
        uid = 8;
        txid_stamp = 110;
        object_version = 1;
        spec = empty_object;
        status = empty_object;
        metadata = empty_object;
        deletion_timestamp = none;
        created_at = 50;
        updated_at = 50;
      }
      ∷ [];
  rung = [];
}

seeded_lem : seed_fresh rough (λ g c i n. []) (λ t. t) server surroundings config full ≡ ok seeded
unfolding seed_fresh seed compute_total_objects is_positive ◌+ℤ◌ seed_on seed_objects write run
    call_stored_proc pgctl_write suppression find upsert int_eq put format_uint text_eq
seeded_lem = refl

pods_counted : is_positive (compute_total_objects config) ≡ true
unfolding is_positive ◌+ℤ◌ compute_total_objects
pods_counted = refl

seed_fresh-Stands_example : Stands rough (λ g c i n. []) pods 0 seeded
seed_fresh-Stands_example =
    seed_fresh-Stands rough (λ g c i n. []) (λ t. t) server surroundings config full seeded pods 0
      seeded_lem pods_counted (here refl) (omega arith)
