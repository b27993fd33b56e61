-- ===== src/LoadTest/Main.antt =====
-- `main` of loadtest/cmd/loadtest/main.go up to the phases: flags, configuration, migration and seed. The
-- environment, the file, the decoder and the server are given by `Surroundings`.
pub mod Ready
use postgres_controller_back.Base.{
  ℕ, Bool, true, false, ◌&&◌, not, Option, none, some, List, [], ◌∷◌, ◌++◌, if◌then◌else◌, Outcome,
  ok, err, map_err, ◌>>=◌,
}
use postgres_controller_back.Base.Int.{ℤ, is_positive}
use postgres_controller_back.Base.Text.{Text, codes, text_eq}
use postgres_controller_back.Json.{Json}
use postgres_controller_back.Schema.{MigrateError, migrate}
use postgres_controller_back.Writer.Client.{World}
use postgres_controller_back.LoadTest.Config.{
  Config, ConfigError, load_config, compute_total_objects,
}
use postgres_controller_back.LoadTest.Traffic.{Attempt, is_empty}
use postgres_controller_back.LoadTest.Seeder.{Draws, SeedError, seed}

pub record Flags : Type 0 where
  pub spec : Text
  pub dsn : Text
  pub report : Text

-- Where `log.Fatal` ends the program.
pub data Fatal : Type 0 where
  dsn_required spec_required connect_failed truncate_failed : Fatal
  bad_config : ConfigError → Fatal
  migration_failed : MigrateError → Fatal
  seed_failed : SeedError → Fatal

pub record Surroundings (F : Type 0) : Type 0 where
  pub env_dsn : Text
  pub read : Text → Option Text
  pub unmarshal : Text → Option (Config F)
  pub connects : Bool
  pub embedded : Text → Option Text
  pub exec : Text → World → Option World
  pub truncates : Bool
  pub directory : Text → Text

-- The flag, or else the environment.
unfoldable pub connection_string : Text → Text → Text
connection_string flag env = if text_eq flag [] then env else flag

-- `filepath.Join` of the report's directory, or the default.
unfoldable pub checkpoint_path : (Text → Text) → Text → Text
checkpoint_path directory report =
    if text_eq report []
    then codes "/results/checkpoint.json"
    else directory report ++ codes "/checkpoint.json"

abbrev pub require_that : {A : Type 0} → Bool → Fatal → A → Outcome Fatal A
require_that b e a = if b then ok a else err e

module _ {F : Type 0} (marshal : Json → Text) (random : Draws) (round : Text → Text)
    (server : ℕ → Attempt) where
  -- A configuration with objects to seed empties both tables first; the horizons are no part of `World`.
  unfoldable pub seed_fresh : Surroundings F → Config F → World → Outcome Fatal World
  unfolding compute_total_objects seed
  seed_fresh s c w =
      if not (is_empty c.seed.gvks) && is_positive (compute_total_objects c)
      then (do
        w' ← require_that s.truncates truncate_failed (record w { table = [] })
        (total, w'') ← map_err seed_failed (seed marshal random round server c.seed.gvks w')
        ok w'')
      else ok w

  -- What `main` has when it comes to its phases: the configuration, the database and the checkpoints' path.
  unfoldable pub prepare : Surroundings F → Flags → World → Outcome Fatal (Config F × World × Text)
  unfolding connection_string checkpoint_path load_config migrate seed_fresh
  prepare s f w = do
    dsn ← require_that (not (text_eq (connection_string f.dsn s.env_dsn) [])) dsn_required f.dsn
    spec ← require_that (not (text_eq f.spec [])) spec_required f.spec
    c ← map_err bad_config (load_config s.read s.unmarshal spec)
    w1 ← require_that s.connects connect_failed w
    w2 ← map_err migration_failed (migrate s.embedded s.exec w1)
    w3 ← seed_fresh s c w2
    ok (c, w3, checkpoint_path s.directory f.report)
