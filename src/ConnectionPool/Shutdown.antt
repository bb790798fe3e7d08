-- ===== src/ConnectionPool/Shutdown.antt =====
-- connection_pool.py, shutdown: what is closed.
use kos_db.Base.{
  ◌≡◌, refl, sym, ap, ◌∙◌, true, Option, none, some, List, [], ◌∷◌, ◌++◌, ==-refl, append-nil,
  append_assoc,
}
use kos_db.Dict.{Dict, get, remove, remove-absent}
use kos_db.Dict.Distinct.{IsDistinct}
use kos_db.Dict.Values.{keys}
use kos_db.Text.{Text, text_key}
use kos_db.ConnectionPool.{Pool, PooledConnection, destroy_connection, close_raw}
use kos_db.ConnectionPool.Maintenance.{destroy_all, shutdown}

module _ {Raw : Type 0} where
  -- The raw connections, in the order of the pool.
  unfoldable pub raws : Dict Text (PooledConnection Raw) → List Raw
  raws [] = []
  raws ((id, conn) ∷ connections) = close_raw conn.raw_connection [] ++ raws connections

  close_raw-append :
      (raw : Option Raw) (closed : List Raw) → close_raw raw closed ≡ closed ++ close_raw raw []
  close_raw-append none closed = sym (append-nil closed)
  close_raw-append (some raw) closed = refl

  first-destroyed :
      (id : Text) (conn : PooledConnection Raw) (d : Dict Text (PooledConnection Raw))
      (p : Pool Raw)
      → p.connections ≡ (id, conn) ∷ d
      → IsDistinct ((id, conn) ∷ d)
      → ((destroy_connection id p).connections ≡ d)
        × ((destroy_connection id p).closed ≡ close_raw conn.raw_connection p.closed)
  unfolding destroy_connection get remove
  first-destroyed id conn d p e distinct =
      let there : get id p.connections ≡ some conn = rw (e, ==-refl id) refl in
      let left : remove id p.connections ≡ d =
        ap (remove id) e ∙ rw (==-refl id) (remove-absent id d distinct.0) in
      rw (there, destroy_connection) (left, refl)

  destroy_all-keys :
      (d : Dict Text (PooledConnection Raw)) (p : Pool Raw)
      → p.connections ≡ d
      → IsDistinct d
      → ((destroy_all (keys d) p).connections ≡ [])
        × ((destroy_all (keys d) p).closed ≡ p.closed ++ raws d)
  unfolding destroy_all keys raws
  destroy_all-keys [] p e distinct = (e, sym (append-nil p.closed))
  destroy_all-keys ((id, conn) ∷ d) p e distinct =
      let q = destroy_connection id p in
      let gone = first-destroyed id conn d p e distinct in
      let rest = destroy_all-keys d q gone.0 distinct.1 in
      (
        rest.0,
        rest.1
            ∙ ap (λ (c : List Raw). c ++ raws d)
                (gone.1 ∙ close_raw-append conn.raw_connection p.closed)
            ∙ append_assoc p.closed (close_raw conn.raw_connection []) (raws d),
      )

  -- Shutting down a pool leaves no connection, and closes every raw connection of the pool once,
  -- in order, behind those that were closed before.
  pub shutdown-closes :
      (p : Pool Raw)
      → IsDistinct p.connections
      → ((shutdown p).connections ≡ []) × ((shutdown p).closed ≡ p.closed ++ raws p.connections)
  unfolding shutdown
  shutdown-closes p distinct =
      destroy_all-keys p.connections (record p { is_shutdown = true }) refl distinct
