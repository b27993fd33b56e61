-- ===== src/Runtime/Manager/Serving.antt =====
-- pkg/pgruntime/pgmanager.go: `Start` to its end, the checks and their handlers, and the kinds of the REST
-- mapper.
use postgres_controller_back.Base.{
  Bool, true, false, not, ◌||◌, Option, none, some, List, [], ◌∷◌, keep, if◌then◌else◌, Outcome, ok,
  err, ◌≡◌, refl,
}
use postgres_controller_back.Base.Text.{Text, codes, text_eq}
use postgres_controller_back.Runtime.Gvk.{Gvk}
use postgres_controller_back.Runtime.Manager.{
  ManagerError, Manager, Response, close, start_manager, run_checks,
}

-- `Start` to its end, once the context has ended: a manager that has started waits for its goroutines and
-- closes its pool.
unfoldable pub run_manager : Bool → Manager → Outcome ManagerError Unit × Manager
unfolding start_manager
run_manager synced m =
    let (r, m') = start_manager synced m in
    elim r [
      | ok u ↦ (ok u, record m' { client = record { pool = close m'.client.pool } })
      | err e ↦ (err e, m')
    ]

-- `AddHealthzCheck` and `AddReadyzCheck`: a later check of one name takes the place of the one before.
abbrev set_check : Text → Bool → List (Text × Bool) → List (Text × Bool)
set_check k b [] = (k, b) ∷ []
set_check k b ((j, c) ∷ cs) =
    let rest = set_check k b cs in if text_eq j k then (k, b) ∷ cs else (j, c) ∷ rest

unfoldable pub add_healthz_check : Text → Bool → Manager → Manager
add_healthz_check k b m = record m { healthz_checks = set_check k b m.healthz_checks }

unfoldable pub add_readyz_check : Text → Bool → Manager → Manager
add_readyz_check k b m = record m { readyz_checks = set_check k b m.readyz_checks }

-- `strings.HasSuffix(kind, "List")`
unfoldable pub has_list_suffix : Text → Bool
has_list_suffix [] = false
has_list_suffix (c ∷ cs) =
    let rest = has_list_suffix cs in if text_eq (c ∷ cs) (codes "List") then true else rest

-- The kinds that `buildRESTMapper` adds, all of them namespaced.
unfoldable pub mapped_kinds : List Gvk → List Gvk
unfolding has_list_suffix
mapped_kinds gs = keep (λ g. not (has_list_suffix g.kind || text_eq g.kind [])) gs

-- The handlers of `buildHealthProbeServer`: a path without one is not found.
unfoldable pub probe : Text → Manager → Option Response
unfolding run_checks
probe path m =
    if text_eq path (codes "/healthz")
    then some (run_checks m.healthz_checks)
    else if text_eq path (codes "/readyz")
    then some (run_checks m.readyz_checks)
    else none

-- A manager that cannot sync its cache returns with its pool open; one that has started closes it.
pub run_manager_pool :
    (synced : Bool) (m : Manager)
    → (run_manager synced m).1.client.pool ≡ (if synced then close m.client.pool else m.client.pool)
unfolding run_manager start_manager
run_manager_pool true m = refl
run_manager_pool false m = refl
