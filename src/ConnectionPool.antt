-- ===== src/ConnectionPool.antt =====
-- connection_pool.py: ConnectionPool, one call after the other. Times are arguments. A call that
-- waits for a permit runs into its timeout, since nobody else gives one back meanwhile.
pub mod Maintenance
pub mod Registry
pub mod Invariant
pub mod Clients
pub mod Leaks
pub mod Shutdown
mod Examples
use kos_db.Base.{
  ℕ, zero, suc, ◌+◌, ◌-◌, Bool, true, false, not, ◌&&◌, ◌||◌, Option, none, some, List, [], ◌∷◌,
  ◌++◌, if◌then◌else◌, length, ltb, leb,
}
use kos_db.Dict.{Dict, get, put, remove, has}
use kos_db.Dict.Values.{keys}
use kos_db.Text.{Text, text_key, codes, str_nat}

-- `Raw` is what the connection factory makes; metadata has nothing but the raw connection.
pub record PooledConnection (Raw : Type 0) : Type 0 where
  pub created_at : ℕ
  pub last_used : ℕ
  pub use_count : ℕ
  pub is_active : Bool
  pub is_idle : Bool
  pub health_check_failures : ℕ
  pub raw_connection : Option Raw

pub record Stats : Type 0 where
  pub total_created : ℕ
  pub total_destroyed : ℕ
  pub total_borrowed : ℕ
  pub total_returned : ℕ
  pub total_timeout : ℕ
  pub failed_checks : ℕ

abbrev no_stats : Stats
no_stats = record {
  total_created = 0;
  total_destroyed = 0;
  total_borrowed = 0;
  total_returned = 0;
  total_timeout = 0;
  failed_checks = 0;
}

-- `closed` are the raw connections that were closed, in order.
pub record Pool (Raw : Type 0) : Type 0 where
  pub pool_name : Text
  pub min_connections : ℕ
  pub max_connections : ℕ
  pub idle_timeout : ℕ
  pub connections : Dict Text (PooledConnection Raw)
  pub idle_queue : List Text
  pub connection_counter : ℕ
  pub available : ℕ
  pub is_shutdown : Bool
  pub stats : Stats
  pub closed : List Raw

-- What get_connection comes to. `blocked` is a wait for the idle queue without a timeout.
pub data Lent : Type 0 where
  lent : Text → Lent
  timed_out pool_closed blocked : Lent

-- f"{self.pool_name}_conn_{self._connection_counter}"
unfoldable pub conn_id_of : Text → ℕ → Text
conn_id_of pool_name n = pool_name ++ codes "_conn_" ++ str_nat n

module _ {Raw : Type 0} where
  unfoldable pub mark_used : ℕ → PooledConnection Raw → PooledConnection Raw
  mark_used now conn = record conn {
    last_used = now;
    use_count = suc conn.use_count;
    is_idle = false;
  }

  unfoldable pub mark_idle : ℕ → PooledConnection Raw → PooledConnection Raw
  mark_idle now conn = record conn { is_idle = true; last_used = now }

  unfoldable pub mark_unhealthy : PooledConnection Raw → PooledConnection Raw
  mark_unhealthy conn = record conn {
    health_check_failures = suc conn.health_check_failures;
    is_active = false;
  }

  unfoldable pub new_connection : ℕ → Option Raw → PooledConnection Raw
  new_connection now raw = record {
    created_at = now;
    last_used = now;
    use_count = 0;
    is_active = true;
    is_idle = true;
    health_check_failures = 0;
    raw_connection = raw;
  }

  -- raw_conn.close()
  abbrev pub close_raw : Option Raw → List Raw → List Raw
  close_raw none closed = closed
  close_raw (some raw) closed = closed ++ raw ∷ []

  unfoldable pub destroy_connection : Text → Pool Raw → Pool Raw
  destroy_connection conn_id p = elim (get conn_id p.connections) [
    | none ↦ p
    | some conn ↦ record p {
      connections = remove conn_id p.connections;
      closed = close_raw conn.raw_connection p.closed;
      stats = record p.stats { total_destroyed = suc p.stats.total_destroyed };
    }
  ]

  -- conn.mark_used() and the count of a connection that is in the pool
  unfoldable pub borrow : ℕ → Text → PooledConnection Raw → Pool Raw → Pool Raw
  unfolding mark_used
  borrow now conn_id conn p = record p {
    connections = put conn_id (mark_used now conn) p.connections;
    stats = record p.stats { total_borrowed = suc p.stats.total_borrowed };
  }

  -- self._idle_queue.put(conn_id); self._available.release()
  abbrev pub enqueue : Text → Pool Raw → Pool Raw
  enqueue conn_id p = record p {
    idle_queue = p.idle_queue ++ conn_id ∷ [];
    available = suc p.available;
  }

  -- The end of get_connection: a new connection, or the timeout.
  unfoldable pub lend_made : ℕ → Option (Text × PooledConnection Raw) → Pool Raw → Lent × Pool Raw
  unfolding borrow
  lend_made now none p =
      (timed_out, record p { stats = record p.stats { total_timeout = suc p.stats.total_timeout } })
  lend_made now (some conn) p = (lent conn.0, borrow now conn.0 conn.1 p)

-- What the factory does when the counter is n: it raises (none), or makes a raw connection, which
-- is none without a factory.
module _ {Raw : Type 0} (make : ℕ → Option (Option Raw)) where
  unfoldable pub create_connection : ℕ → Pool Raw → Option (Text × PooledConnection Raw) × Pool Raw
  unfolding conn_id_of new_connection
  create_connection now p =
      if leb p.max_connections (length p.connections)
      then (none, p)
      else let counter = suc p.connection_counter in
        let conn_id = conn_id_of p.pool_name counter in
        elim (make counter) [
          | none ↦ (none, record p { connection_counter = counter })
          | some raw ↦ (
            some (conn_id, new_connection now raw),
            record p {
              connection_counter = counter;
              connections = put conn_id (new_connection now raw) p.connections;
              stats = record p.stats { total_created = suc p.stats.total_created };
            },
          )
        ]

  unfoldable pub lend_new : ℕ → Pool Raw → Lent × Pool Raw
  unfolding create_connection lend_made
  lend_new now p = let made = create_connection now p in lend_made now made.0 made.1

  unfoldable pub return_connection : ℕ → Text → Bool → Pool Raw → Pool Raw
  unfolding destroy_connection create_connection mark_idle
  return_connection now conn_id is_healthy p = elim (get conn_id p.connections) [
    | none ↦ p
    | some conn ↦ elim is_healthy [
      | false ↦
          let q = destroy_connection conn_id p in
          if ltb (length q.connections) q.min_connections then (create_connection now q).1 else q
      | true ↦ enqueue conn_id (record p {
        connections = put conn_id (mark_idle now conn) p.connections;
        stats = record p.stats { total_returned = suc p.stats.total_returned };
      })
    ]
  ]

-- The factory's own check, true where it has none and false where it raises.
module _ {Raw : Type 0} (validate : ℕ → Raw → Bool) where
  unfoldable pub validate_connection : ℕ → PooledConnection Raw → Bool
  validate_connection now conn =
      conn.is_active
      && not (ltb 3 conn.health_check_failures)
      && elim conn.raw_connection [ none ↦ true | some raw ↦ validate now raw ]

module _ {Raw : Type 0} (make : ℕ → Option (Option Raw)) (validate : ℕ → Raw → Bool) where
  -- The part from the permit on, for an idle queue; it is called again behind a connection that
  -- is not valid any more.
  unfoldable pub lend_idle : ℕ → List Text → Pool Raw → Lent × Pool Raw
  unfolding lend_new destroy_connection validate_connection borrow
  lend_idle now [] p = elim p.available [
    | zero ↦ lend_new make now (record p { idle_queue = [] })
    | suc n ↦ (blocked, record p { available = n; idle_queue = [] })
  ]
  lend_idle now (conn_id ∷ waiting) p = elim p.available [
    | zero ↦ lend_new make now (record p { idle_queue = conn_id ∷ waiting })
    | suc n ↦
        let q = record p { available = n; idle_queue = waiting } in
        elim (get conn_id q.connections) [
          | none ↦ lend_new make now q
          | some conn ↦ elim (validate_connection validate now conn) [
            | true ↦ (lent conn_id, borrow now conn_id conn q)
            | false ↦
                let r = destroy_connection conn_id q in
                lend_idle now waiting (record r {
                  stats = record r.stats { failed_checks = suc r.stats.failed_checks };
                })
          ]
        ]
  ]

  unfoldable pub get_connection : ℕ → Pool Raw → Lent × Pool Raw
  unfolding lend_idle
  get_connection now p = if p.is_shutdown then (pool_closed, p) else lend_idle now p.idle_queue p
