-- ===== src/Runtime/Manager/Tidy.antt =====
-- What a set-up leaves behind, on every branch.
use postgres_controller_back.Base.{
  ◌≡◌, refl, Bool, true, false, Option, none, some, Outcome, ok, err, arith,
}
use postgres_controller_back.Reader.Shard.{ShardError}
use postgres_controller_back.Runtime.Manager.{
  ManagerError, Setup, Options, Pool, PoolConfig, Manager, opened, create_pool, migrated, connect,
  required, shard_problem, new_manager_for, new_manager, new_client, new_client_for, with_pool,
  manager_on,
}

-- With a success, an open pool that no connection is taken from; with an error, no pool or a closed one.
abbrev pub IsTidy : {A : Type 0} → Outcome ManagerError A × Option Pool → Type 0
IsTidy (ok a, none) = ⊥
IsTidy (ok a, some p) = (p.closed ≡ false) × (p.acquired ≡ 0)
IsTidy (err e, none) = Unit
IsTidy (err e, some p) = (p.closed ≡ true) × (p.acquired ≡ 0)

-- A pool just opened.
abbrev IsFresh : Option Pool → Type 0
IsFresh none = Unit
IsFresh (some p) = (p.closed ≡ false) × (p.acquired ≡ 0)

opened-IsFresh : (o : Options) (b : Bool) (c : Option PoolConfig) → IsFresh (opened o b c)
opened-IsFresh o b none = tt
opened-IsFresh o true (some c) = (refl, refl)
opened-IsFresh o false (some c) = tt

migrated-IsTidy : (s : Setup) (p : Option Pool) → IsFresh p → IsTidy (migrated s p)
migrated-IsTidy s none h = tt
migrated-IsTidy s (some p) (c, a) = go s.acquires s.migrates
  where
    go : (x y : Bool) → IsTidy (migrated (record s { acquires = x; migrates = y }) (some p))
    go false y = (refl, a)
    go true false = (refl, omega (arith, a))
    go true true = (c, omega (arith, a))

connect-IsTidy : (s : Setup) (o : Options) → IsTidy (connect s o)
unfolding connect create_pool
connect-IsTidy s o =
    migrated-IsTidy s (create_pool s o) (opened-IsFresh o s.opens (s.parse_dsn o.dsn))

with_pool-IsTidy :
    {A : Type 0}
    → (f : Pool → A) (x : Outcome ManagerError Pool × Option Pool) → IsTidy x
    → IsTidy (with_pool f x)
with_pool-IsTidy f (ok p, none) h = h
with_pool-IsTidy f (ok p, some q) h = h
with_pool-IsTidy f (err e, none) h = h
with_pool-IsTidy f (err e, some q) h = h

-- Whatever fails, a manager and a client that are set up leave no pool open behind an error, and a
-- connection is never kept.
pub setup-IsTidy : (s : Setup) (o : Options) → IsTidy (new_manager s o) × IsTidy (new_client s o)
unfolding new_manager new_client
setup-IsTidy s o = (manager (required o) (shard_problem o.shard), client (required o))
  where
    manager : (e : Option ManagerError) (b : Option ShardError) → IsTidy (new_manager_for s o e b)
    manager (some e) b = tt
    manager none (some b) = tt
    manager none none = with_pool-IsTidy (manager_on o) (connect s o) (connect-IsTidy s o)

    client : (e : Option ManagerError) → IsTidy (new_client_for s o e)
    client (some e) = tt
    client none = with_pool-IsTidy (λ p. record { pool = p }) (connect s o) (connect-IsTidy s o)

-- A manager is only made with a shard that is valid, or with none.
pub new_manager_valid :
    (s : Setup) (o : Options) {m : Manager}
    → (new_manager s o).0 ≡ ok m
    → shard_problem o.shard ≡ none
unfolding new_manager
new_manager_valid s o {m} h = go (required o) (shard_problem o.shard) h
  where
    go :
        (e : Option ManagerError) (b : Option ShardError)
        → (new_manager_for s o e b).0 ≡ ok m
        → b ≡ none
    go (some e) b h = absurd (cc)
    go none (some b) h = absurd (cc)
    go none none h = refl
