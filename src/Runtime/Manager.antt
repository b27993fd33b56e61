-- ===== src/Runtime/Manager.antt =====
-- pkg/pgruntime/pgmanager.go: how a manager or a client is set up, the runnables, and the health checks.
-- pgxpool and the database are given by `Setup`.
pub mod Tidy
pub mod Serving
use postgres_controller_back.Base.{
  ℕ, zero, suc, ◌+◌, ◌-◌, Bool, true, false, not, Option, none, some, List, [], ◌∷◌, ◌++◌,
  if◌then◌else◌, Outcome, ok, err,
}
use postgres_controller_back.Base.Int.{ℤ, pos, negsuc}
use postgres_controller_back.Base.Text.{Text, codes, text_eq}
use postgres_controller_back.Reader.Shard.{ShardSpec, ShardError, validate}
use postgres_controller_back.Runtime.Gvk.{Gvk}
use postgres_controller_back.Runtime.Informers.{Cache, new_cache, start}

pub record ShardConfig : Type 0 where
  pub modulus : ℤ
  pub owned : List ℤ
  pub unsharded_gvks : List Gvk

-- A logger is left out, and of the scheme whether there is one.
pub record Options : Type 0 where
  pub has_scheme : Bool
  pub dsn : Text
  pub shard : Option ShardConfig
  pub max_pool_conns : ℤ
  pub min_pool_conns : ℤ
  pub slow_query_threshold : ℤ
  pub health_probe_bind_address : Text

pub data ManagerError : Type 0 where
  scheme_required dsn_required pool_failed acquire_failed migration_failed : ManagerError
  bad_shard : ShardError → ManagerError
  cache_sync_failed : ManagerError

pub record PoolConfig : Type 0 where
  pub max_conns : ℤ
  pub min_conns : ℤ
  pub runtime_params : List (Text × Text)
  pub tracer : Option ℤ

pub record Pool : Type 0 where
  pub config : PoolConfig
  pub acquired : ℕ
  pub closed : Bool

-- What a DSN is parsed to, and whether opening the pool, taking a connection and the migration succeed.
pub record Setup : Type 0 where
  pub parse_dsn : Text → Option PoolConfig
  pub opens : Bool
  pub acquires : Bool
  pub migrates : Bool

pub record Client : Type 0 where
  pub pool : Pool

pub record Manager : Type 0 where
  pub client : Client
  pub cache : Cache
  pub probe_address : Text
  pub runnables : List ℕ
  pub launched : List ℕ
  pub healthz_checks : List (Text × Bool)
  pub readyz_checks : List (Text × Bool)

abbrev pub positive_or : ℤ → ℤ → ℤ
positive_or d (pos zero) = d
positive_or d (pos (suc n)) = pos (suc n)
positive_or d (negsuc n) = d

unfoldable pub set_param : Text → Text → List (Text × Text) → List (Text × Text)
set_param k v [] = (k, v) ∷ []
set_param k v ((j, w) ∷ ps) =
    let rest = set_param k v ps in if text_eq j k then (k, v) ∷ ps else (j, w) ∷ rest

unfoldable pub tracer_for : ℤ → Option ℤ → Option ℤ
tracer_for (pos zero) old = old
tracer_for (pos (suc n)) old = some (pos (suc n))
tracer_for (negsuc n) old = old

unfoldable pub configure_pool : Options → PoolConfig → PoolConfig
unfolding set_param tracer_for
configure_pool o c = record {
  max_conns = positive_or c.max_conns o.max_pool_conns;
  min_conns = positive_or c.min_conns o.min_pool_conns;
  runtime_params = set_param (codes "statement_timeout") (codes "30000") c.runtime_params;
  tracer = tracer_for o.slow_query_threshold c.tracer;
}

abbrev pub opened : Options → Bool → Option PoolConfig → Option Pool
opened o opens none = none
opened o opens (some c) =
    if opens
    then some (record { config = configure_pool o c; acquired = 0; closed = false })
    else none

unfoldable pub create_pool : Setup → Options → Option Pool
unfolding configure_pool
create_pool s o = opened o s.opens (s.parse_dsn o.dsn)

abbrev pub acquire : Pool → Pool
acquire p = record p { acquired = p.acquired + 1 }

abbrev pub release : Pool → Pool
release p = record p { acquired = p.acquired - 1 }

abbrev pub close : Pool → Pool
close p = record p { closed = true }

abbrev pub migrated : Setup → Option Pool → Outcome ManagerError Pool × Option Pool
migrated s none = (err pool_failed, none)
migrated s (some p) =
    if not s.acquires
    then (err acquire_failed, some (close p))
    else if not s.migrates
    then (err migration_failed, some (close (release (acquire p))))
    else (ok (release (acquire p)), some (release (acquire p)))

-- The pool and the migration, with what becomes of the pool.
unfoldable pub connect : Setup → Options → Outcome ManagerError Pool × Option Pool
unfolding create_pool
connect s o = migrated s (create_pool s o)

abbrev pub spec_of : ShardConfig → ShardSpec
spec_of c = record { modulus = c.modulus; owned = c.owned }

unfoldable pub shard_problem : Option ShardConfig → Option ShardError
shard_problem none = none
shard_problem (some c) = validate (spec_of c)

unfoldable pub cache_for : Option ShardConfig → Cache
unfolding new_cache
cache_for none = new_cache none []
cache_for (some c) = new_cache (some (spec_of c)) c.unsharded_gvks

abbrev pub required : Options → Option ManagerError
required o =
    if not o.has_scheme
    then some scheme_required
    else if text_eq o.dsn []
    then some dsn_required
    else none

abbrev pub manager_on : Options → Pool → Manager
manager_on o p = record {
  client = record { pool = p };
  cache = cache_for o.shard;
  probe_address = o.health_probe_bind_address;
  runnables = [];
  launched = [];
  healthz_checks = [];
  readyz_checks = [];
}

abbrev pub with_pool :
    {A : Type 0}
    → (Pool → A)
    → Outcome ManagerError Pool × Option Pool
    → Outcome ManagerError A × Option Pool
with_pool f (err e, q) = (err e, q)
with_pool f (ok p, q) = (ok (f p), q)

abbrev pub new_manager_for :
    Setup
    → Options
    → Option ManagerError
    → Option ShardError
    → Outcome ManagerError Manager × Option Pool
new_manager_for s o (some e) b = (err e, none)
new_manager_for s o none (some b) = (err (bad_shard b), none)
new_manager_for s o none none = with_pool (manager_on o) (connect s o)

unfoldable pub new_manager : Setup → Options → Outcome ManagerError Manager × Option Pool
unfolding connect shard_problem cache_for
new_manager s o = new_manager_for s o (required o) (shard_problem o.shard)

abbrev pub new_client_for :
    Setup → Options → Option ManagerError → Outcome ManagerError Client × Option Pool
new_client_for s o (some e) = (err e, none)
new_client_for s o none = with_pool (λ p. record { pool = p }) (connect s o)

unfoldable pub new_client : Setup → Options → Outcome ManagerError Client × Option Pool
unfolding connect
new_client s o = new_client_for s o (required o)

unfoldable pub add : ℕ → Manager → Manager
add r m = record m { runnables = m.runnables ++ r ∷ [] }

-- `Start`, up to the wait for the context's end: the cache is started, and once it has synced, the
-- runnables that were added are.
unfoldable pub start_manager : Bool → Manager → Outcome ManagerError Unit × Manager
unfolding start
start_manager synced m =
    let m' = record m { cache = start m.cache } in
    if synced
    then (ok tt, record m' { launched = m.launched ++ m.runnables })
    else (err cache_sync_failed, m')

pub data Response : Type 0 where
  ok_200 : Response
  failed_500 : Text → Response

-- The checks in the order in which the map gives them, each with its outcome.
unfoldable pub run_checks : List (Text × Bool) → Response
run_checks [] = ok_200
run_checks ((name, passes) ∷ cs) = if passes then run_checks cs else failed_500 name
