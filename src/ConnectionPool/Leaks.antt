-- ===== src/ConnectionPool/Leaks.antt =====
-- connection_pool.py: connections that are lent twice, and connections that are never lent.
use kos_db.Base.{
  ℕ, suc, ◌≤◌, ◌≡◌, refl, ap, ◌∙◌, Bool, true, false, Option, some, List, [], ◌∷◌, if◌then◌else◌,
  length, ltb, leb, arith, ==-refl,
}
use kos_db.Dict.{Dict, get, has, put, remove, get-put, has-of_get, has-remove, length-put}
use kos_db.Dict.Distinct.{length-remove_present}
use kos_db.Dict.Removal.{among}
use kos_db.Text.{Text, text_key}
use kos_db.ConnectionPool.Invariant.{next_id_new}
use kos_db.ConnectionPool.Clients.{Reaches, Reaches-IsFair}
use kos_db.ConnectionPool.{
  Pool, PooledConnection, Lent, lent, enqueue, close_raw, new_connection, mark_used, mark_idle,
  borrow, create_connection, destroy_connection, validate_connection, conn_id_of, lend_made,
  lend_new, lend_idle, get_connection, return_connection,
}

module _ {Raw : Type 0} (make : ℕ → Option (Option Raw)) (validate : ℕ → Raw → Bool) where
  -- The first of the queue is lent, if it is in the pool and valid.
  get_connection-first :
      (now n : ℕ) (id : Text) (waiting : List Text) (conn : PooledConnection Raw) (p : Pool Raw)
      → p.is_shutdown ≡ false
      → p.idle_queue ≡ id ∷ waiting
      → p.available ≡ suc n
      → get id p.connections ≡ some conn
      → validate_connection validate now conn ≡ true
      → get_connection make validate now p
        ≡ (lent id, borrow now id conn (record p { available = n; idle_queue = waiting }))
  unfolding get_connection lend_idle
  get_connection-first now n id waiting conn p running q a there valid =
      simp (running, q, a, there, valid, get_connection, lend_idle)

  abbrev taken_back : ℕ → Text → PooledConnection Raw → Pool Raw → Pool Raw
  taken_back now id conn p = enqueue id (record p {
    connections = put id (mark_idle now conn) p.connections;
    stats = record p.stats { total_returned = suc p.stats.total_returned };
  })

  return-taken_back :
      (now : ℕ) (id : Text) (conn : PooledConnection Raw) (p : Pool Raw)
      → get id p.connections ≡ some conn
      → return_connection make now id true p ≡ taken_back now id conn p
  unfolding return_connection
  return-taken_back now id conn p there = rw (there, return_connection) refl

  get-put_same :
      (id : Text) (conn : PooledConnection Raw) (d : Dict Text (PooledConnection Raw))
      → get id (put id conn d) ≡ some conn
  get-put_same id conn d = rw (get-put id id conn d, ==-refl id) refl

  -- A connection that is returned twice to a pool with nothing in its queue is lent twice: both of
  -- the next two clients get it, when it is valid.
  pub return_twice :
      (now : ℕ) (id : Text) (conn : PooledConnection Raw) (p : Pool Raw)
      → p.is_shutdown ≡ false
      → p.idle_queue ≡ []
      → p.available ≡ 0
      → get id p.connections ≡ some conn
      → validate_connection validate now conn ≡ true
      → let back = return_connection make now id true (return_connection make now id true p) in
        let first = get_connection make validate now back in
        (first.0 ≡ lent id) × ((get_connection make validate now first.1).0 ≡ lent id)
  unfolding mark_idle mark_used borrow validate_connection
  return_twice now id conn p running q a there valid =
      let once = mark_idle now conn in
      let b = taken_back now id conn p in
      let twice = mark_idle now once in
      let c = taken_back now id once b in
      let shape : return_connection make now id true (return_connection make now id true p) ≡ c =
        ap (return_connection make now id true) (return-taken_back now id conn p there)
        ∙ return-taken_back now id once b (get-put_same id once p.connections) in
      let rest = record c { available = 1; idle_queue = id ∷ [] } in
      let first : get_connection make validate now c ≡ (lent id, borrow now id twice rest) =
        get_connection-first now 1 id (id ∷ []) twice c running (rw q refl) (rw a refl)
          (get-put_same id twice b.connections) valid in
      let second =
        get_connection-first now 0 id [] (mark_used now twice) (borrow now id twice rest) running
          refl refl (get-put_same id (mark_used now twice) c.connections) valid in
      rw (shape, first) (refl, ap (λ (r : Lent × Pool Raw). r.0) second)

  -- With nothing in the queue and all connections made, a client runs into the timeout.
  get_connection-exhausted :
      (now : ℕ) (p : Pool Raw)
      → p.is_shutdown ≡ false
      → p.idle_queue ≡ []
      → p.available ≡ 0
      → leb p.max_connections (length p.connections) ≡ true
      → (get_connection make validate now p).0 ≡ Lent.timed_out
  unfolding get_connection lend_idle lend_new create_connection lend_made
  get_connection-exhausted now p running q a full =
      simp (running, q, a, full, get_connection, lend_idle, lend_new, create_connection, lend_made)

  abbrev without_connection : Text → PooledConnection Raw → Pool Raw → Pool Raw
  without_connection id conn p = record p {
    connections = remove id p.connections;
    closed = close_raw conn.raw_connection p.closed;
    stats = record p.stats { total_destroyed = suc p.stats.total_destroyed };
  }

  destroyed :
      (id : Text) (conn : PooledConnection Raw) (p : Pool Raw)
      → get id p.connections ≡ some conn
      → destroy_connection id p ≡ without_connection id conn p
  unfolding destroy_connection
  destroyed id conn p there = rw (there, destroy_connection) refl

  abbrev replaced : ℕ → Pool Raw → Pool Raw
  replaced now q =
      if ltb (length q.connections) q.min_connections then (create_connection make now q).1 else q

  return-unhealthy :
      (now : ℕ) (id : Text) (conn : PooledConnection Raw) (p : Pool Raw)
      → get id p.connections ≡ some conn
      → return_connection make now id false p ≡ replaced now (destroy_connection id p)
  unfolding return_connection
  return-unhealthy now id conn p there = rw (there, return_connection) refl

  -- A connection that goes is replaced below the minimum, and nothing is put into the queue.
  return-replaced :
      (now : ℕ) (id : Text) (conn : PooledConnection Raw) (raw : Option Raw) (p : Pool Raw)
      → get id p.connections ≡ some conn
      → ltb (length (remove id p.connections)) p.min_connections ≡ true
      → leb p.max_connections (length (remove id p.connections)) ≡ false
      → make (suc p.connection_counter) ≡ some raw
      → let q = return_connection make now id false p in
        (q.is_shutdown ≡ p.is_shutdown)
        × (q.idle_queue ≡ p.idle_queue)
        × (q.available ≡ p.available)
        × (q.max_connections ≡ p.max_connections)
        × (q.connections
            ≡ put
                (conn_id_of p.pool_name (suc p.connection_counter))
                (new_connection now raw)
                (remove id p.connections))
  unfolding create_connection
  return-replaced now id conn raw p there below room made =
      let w = without_connection id conn p in
      let shape : return_connection make now id false p ≡ (create_connection make now w).1 =
        return-unhealthy now id conn p there
        ∙ ap (λ (q : Pool Raw). replaced now q) (destroyed id conn p there)
        ∙ rw below refl in
      rw (shape, create_connection, room, made) (refl, refl, refl, refl, refl)

  -- In a pool whose minimum is its maximum, with clients that return only what they hold, all
  -- connections are made and the queue is empty: when one of them is returned as unhealthy and a
  -- replacement is made, the next client still runs into the timeout, although the replacement
  -- is idle.
  pub replacement_lost :
      (now : ℕ) (id : Text) (raw : Option Raw) {p : Pool Raw} {held : List Text}
      → Reaches make validate p held
      → among id held ≡ true
      → p.is_shutdown ≡ false
      → p.idle_queue ≡ []
      → length p.connections ≡ p.max_connections
      → p.max_connections ≤ p.min_connections
      → make (suc p.connection_counter) ≡ some raw
      → (get_connection make validate now (return_connection make now id false p)).0
        ≡ Lent.timed_out
  replacement_lost now id raw {p} {held} r h running q full least made =
      let f = Reaches-IsFair make validate r in
      let used = f.in_use id h in
      let made_id = conn_id_of p.pool_name (suc p.connection_counter) in
      let rest = remove id p.connections in
      let there = has-of_get id used.0 p.connections used.1 in
      let shorter = length-remove_present id p.connections f.distinct there in
      let replaced =
        return-replaced now id used.0 raw p used.1 (ground (arith, shorter, full, least))
          (ground (arith, shorter, full)) made in
      let longer = length-put made_id (new_connection now raw) rest in
      let new : has made_id rest ≡ false =
        ground (arith, next_id_new p held f, has-remove id made_id p.connections) in
      let none_left : p.available ≡ 0 = f.counted ∙ ap (λ (ids : List Text). length ids) q in
      get_connection-exhausted now (return_connection make now id false p) (replaced.0 ∙ running)
        (replaced.1 ∙ q) (replaced.2 ∙ none_left)
        (rw (replaced.3, replaced.4) (ground (arith, longer, new, shorter, full)))
