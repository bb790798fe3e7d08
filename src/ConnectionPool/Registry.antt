-- ===== src/ConnectionPool/Registry.antt =====
-- connection_pool.py: the registry of named pools.
use kos_db.Base.{ℕ, Option, none, some, List, if◌then◌else◌}
use kos_db.Dict.{Dict, get, put, remove, has}
use kos_db.Dict.Values.{keys}
use kos_db.Text.{Text, text_key}
use kos_db.ConnectionPool.{Pool}
use kos_db.ConnectionPool.Maintenance.{new_pool, shutdown}

module _ {Raw : Type 0} (make : ℕ → Option (Option Raw)) where
  abbrev Registry : Type 0
  Registry = Dict Text (Pool Raw)

  -- No result is ValueError.
  unfoldable pub create_pool : ℕ → Text → ℕ → ℕ → ℕ → Registry → Option (Pool Raw) × Registry
  unfolding new_pool
  create_pool now pool_name min_connections max_connections idle_timeout registry =
      if has pool_name registry
      then (none, registry)
      else let pool = new_pool make now min_connections max_connections idle_timeout pool_name in
        (some pool, put pool_name pool registry)

  unfoldable pub get_pool : Text → Registry → Option (Pool Raw)
  get_pool pool_name registry = get pool_name registry

  -- The pool that was shut down goes with it, for those who still hold it.
  unfoldable pub shutdown_pool : Text → Registry → Option (Pool Raw) × Registry
  unfolding shutdown
  shutdown_pool pool_name registry = elim (get pool_name registry) [
    | none ↦ (none, registry)
    | some pool ↦ (some (shutdown pool), remove pool_name registry)
  ]

  unfoldable pub list_pools : Registry → List Text
  list_pools registry = keys registry
