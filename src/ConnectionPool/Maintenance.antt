-- ===== src/ConnectionPool/Maintenance.antt =====
-- connection_pool.py: setting up a pool, the background tasks, statistics and shutdown.
use kos_db.Base.{
  ℕ, zero, suc, ◌-◌, Bool, true, false, not, ◌&&◌, Option, none, some, List, [], ◌∷◌, if◌then◌else◌,
  length, ltb,
}
use kos_db.Dict.{Dict}
use kos_db.Dict.Values.{keys, map_values}
use kos_db.Text.{Text}
use kos_db.ConnectionPool.{
  Pool, PooledConnection, Stats, no_stats, mark_unhealthy, create_connection, destroy_connection,
  validate_connection, enqueue,
}

module _ {Raw : Type 0} (make : ℕ → Option (Option Raw)) where
  -- One round of _initialize_pool
  unfoldable pub add_idle : ℕ → Pool Raw → Pool Raw
  unfolding create_connection
  add_idle now p =
      let made = create_connection make now p in
      elim made.0 [ none ↦ made.1 | some conn ↦ enqueue conn.0 made.1 ]

  unfoldable pub initialize_pool : ℕ → ℕ → Pool Raw → Pool Raw
  unfolding add_idle
  initialize_pool now zero p = p
  initialize_pool now (suc n) p = initialize_pool now n (add_idle now p)

  -- __init__; the background tasks are calls of their own
  unfoldable pub new_pool : ℕ → ℕ → ℕ → ℕ → Text → Pool Raw
  unfolding initialize_pool
  new_pool now min_connections max_connections idle_timeout pool_name =
      initialize_pool now min_connections record {
        pool_name = pool_name;
        min_connections = min_connections;
        max_connections = max_connections;
        idle_timeout = idle_timeout;
        connections = [];
        idle_queue = [];
        connection_counter = 0;
        available = 0;
        is_shutdown = false;
        stats = no_stats;
        closed = [];
      }

module _ {Raw : Type 0} (validate : ℕ → Raw → Bool) where
  unfoldable pub check_health : ℕ → PooledConnection Raw → PooledConnection Raw
  unfolding validate_connection mark_unhealthy
  check_health now conn =
      if conn.is_idle && not (validate_connection validate now conn)
      then mark_unhealthy conn
      else conn

  unfoldable pub perform_health_checks : ℕ → Pool Raw → Pool Raw
  unfolding check_health
  perform_health_checks now p = record p {
    connections = map_values (check_health now) p.connections;
  }

module _ {Raw : Type 0} where
  -- The loop of the cleanup: nothing is removed before it is over, so that the number of
  -- connections is the same in every round.
  unfoldable pub expired : ℕ → ℕ → Bool → Dict Text (PooledConnection Raw) → List Text
  expired now timeout above_minimum [] = []
  expired now timeout above_minimum ((conn_id, conn) ∷ connections) =
      let rest = expired now timeout above_minimum connections in
      if conn.is_idle && ltb timeout (now - conn.last_used) && above_minimum
      then conn_id ∷ rest
      else rest

  unfoldable pub destroy_all : List Text → Pool Raw → Pool Raw
  destroy_all [] p = p
  destroy_all (conn_id ∷ ids) p = destroy_all ids (destroy_connection conn_id p)

  unfoldable pub cleanup_idle_connections : ℕ → Pool Raw → Pool Raw
  unfolding expired destroy_all
  cleanup_idle_connections now p =
      destroy_all
        (expired now p.idle_timeout (ltb p.min_connections (length p.connections)) p.connections) p

  unfoldable pub count_active : Dict Text (PooledConnection Raw) → ℕ
  count_active [] = 0
  count_active ((conn_id, conn) ∷ connections) =
      let rest = count_active connections in if conn.is_idle then rest else suc rest

  -- total, active and idle connections
  unfoldable pub get_stats : Pool Raw → ℕ × ℕ × ℕ × Stats
  unfolding count_active
  get_stats p = (
    length p.connections,
    count_active p.connections,
    length p.connections - count_active p.connections,
    p.stats,
  )

  -- The wait for lent connections is over, with or without them.
  unfoldable pub shutdown : Pool Raw → Pool Raw
  unfolding destroy_all
  shutdown p = destroy_all (keys p.connections) (record p { is_shutdown = true })
