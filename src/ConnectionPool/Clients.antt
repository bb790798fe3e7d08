-- ===== src/ConnectionPool/Clients.antt =====
-- connection_pool.py: pools with clients that return only what they hold.
use kos_db.Base.{
  ℕ, zero, suc, ◌≡◌, ◌≢◌, refl, ◌∙◌, Bool, true, false, Option, none, some, List, [], ◌∷◌, length,
  ltb, arith, ◌==◌, Bool-cases, inl, inr, ==-refl, if-both, length-append,
}
use kos_db.Dict.{Dict, get, has, has-of_get}
use kos_db.Dict.Mapped.{get-map_values, has-map_values, length-map_values, map_values-IsDistinct}
use kos_db.Dict.Distinct.{IsDistinct}
use kos_db.Dict.Removal.{among}
use kos_db.Text.{Text, text_key, text_same_iff}
use kos_db.ConnectionPool.{
  Pool, PooledConnection, Lent, create_connection, destroy_connection, enqueue, get_connection,
  return_connection,
}
use kos_db.ConnectionPool.Maintenance.{
  add_idle, initialize_pool, new_pool, check_health, perform_health_checks, expired, destroy_all,
  cleanup_idle_connections,
}
use kos_db.ConnectionPool.Invariant.{
  IsFair, without, destroy-IsFair, among-append, append-IsOnce, among-without, without-IsOnce,
}
use kos_db.ConnectionPool.Invariant.Kept.{enqueue-IsFair}
use kos_db.ConnectionPool.Invariant.Lending.{
  IsFresh, held_after, create-IsFair, get_connection-IsFair,
}

module _ {Raw : Type 0} (make : ℕ → Option (Option Raw)) (validate : ℕ → Raw → Bool) where
  -- What a pool and its clients can come to: clients return only connections that they hold.
  pub data Reaches : Pool Raw → List Text → Type 0 where
    opened :
        (now least most timeout : ℕ) (name : Text)
        → Reaches (new_pool make now least most timeout name) []
    asked :
        (now : ℕ) {p : Pool Raw} {held : List Text}
        → Reaches p held
        → Reaches
            (get_connection make validate now p).1
            (held_after (get_connection make validate now p).0 held)
    returned :
        (now : ℕ) (id : Text) (is_healthy : Bool) {p : Pool Raw} {held : List Text}
        → Reaches p held
        → among id held ≡ true
        → Reaches (return_connection make now id is_healthy p) (without id held)
    checked :
        (now : ℕ) {p : Pool Raw} {held : List Text}
        → Reaches p held
        → Reaches (perform_health_checks validate now p) held
    cleaned :
        (now : ℕ) {p : Pool Raw} {held : List Text}
        → Reaches p held
        → Reaches (cleanup_idle_connections now p) held

  -- Giving up a connection.
  release-IsFair :
      (id : Text) (p : Pool Raw) (held : List Text) → IsFair p held → IsFair p (without id held)
  release-IsFair id p held f = record {
    bounded = f.bounded;
    distinct = f.distinct;
    counted = f.counted;
    balance = f.balance;
    made = λ j h. f.made j (ground (arith, h, among-without j id held));
    once_waiting = f.once_waiting;
    once_held = without-IsOnce id held f.once_held;
    apart = λ j h. f.apart j (ground (arith, h, among-without j id held));
    in_use = λ j h. f.in_use j (ground (arith, h, among-without j id held));
  }

  return-IsFair :
      (now : ℕ) (id : Text) (is_healthy : Bool) (p : Pool Raw) (held : List Text)
      → IsFair p held
      → among id held ≡ true
      → IsFair (return_connection make now id is_healthy p) (without id held)
  unfolding return_connection
  return-IsFair now id true p held f h =
      let used = f.in_use id h in
      rw (used.1, return_connection) (enqueue-IsFair now id used.0 p held f used.1 h)
  return-IsFair now id false p held f h =
      let used = f.in_use id h in
      let free : among id (without id held) ≡ false =
        rw (among-without id id held, ==-refl id) refl in
      let gone = destroy-IsFair id p (without id held) (release-IsFair id p held f) free in
      let q = destroy_connection id p in
      rw (used.1, return_connection)
        (if-both (λ (r : Pool Raw). IsFair r (without id held))
          (ltb (length q.connections) q.min_connections)
          (create-IsFair make now q (without id held) gone).0 gone)

  expired-free :
      (id : Text) (now timeout : ℕ) (above : Bool) (connections : Dict Text (PooledConnection Raw))
      → IsDistinct connections
      → among id (expired now timeout above connections) ≡ true
      → (conn : PooledConnection Raw) × (get id connections ≡ some conn) × (conn.is_idle ≡ true)
  unfolding expired get
  expired-free id now timeout above [] distinct h = cc
  expired-free id now timeout above ((j, conn) ∷ connections) distinct h =
      elim (Bool-cases (id == j)) [
        | inl same ↦ elim (Bool-cases conn.is_idle) [
          | inl idle ↦ (conn, ground (arith, same, text_same_iff j id, text_same_iff id j), idle)
          | inr used ↦
              let rest =
                expired-free id now timeout above connections distinct.1
                  (ground (arith, used, h)) in
              let there = has-of_get id rest.0 connections rest.1 in
              ground (arith, there, distinct.0, same, text_same_iff id j)
        ]
        | inr other ↦
            let rest =
              expired-free id now timeout above connections distinct.1
                (ground (arith, text_same_iff id j, text_same_iff j id, h, other)) in
            (rest.0, ground (arith, rest.1, text_same_iff j id, text_same_iff id j, other), rest.2)
      ]

  destroy_all-IsFair :
      (ids : List Text) (p : Pool Raw) (held : List Text)
      → IsFair p held
      → ((id : Text) → among id ids ≡ true → among id held ≡ false)
      → IsFair (destroy_all ids p) held
  unfolding destroy_all
  destroy_all-IsFair [] p held f free = f
  destroy_all-IsFair (id ∷ ids) p held f free =
      destroy_all-IsFair ids (destroy_connection id p) held
        (destroy-IsFair id p held f (free id (rw (==-refl id) refl)))
        (λ j h. free j (ground (arith, h)))

  check_health-used :
      (now : ℕ) (conn : PooledConnection Raw)
      → conn.is_idle ≡ false
      → check_health validate now conn ≡ conn
  unfolding check_health
  check_health-used now conn used = simp (used, check_health)

  check-IsFair :
      (now : ℕ) (p : Pool Raw) (held : List Text)
      → IsFair p held
      → IsFair (perform_health_checks validate now p) held
  unfolding perform_health_checks
  check-IsFair now p held f =
      let check = check_health validate now in
      let same_length = length-map_values check p.connections in
      record {
        bounded = omega (arith, same_length, f.bounded);
        distinct = map_values-IsDistinct check p.connections f.distinct;
        counted = f.counted;
        balance = omega (arith, same_length, f.balance);
        made = λ j h. f.made j (ground (arith, h, has-map_values check j p.connections));
        once_waiting = f.once_waiting;
        once_held = f.once_held;
        apart = f.apart;
        in_use = λ j h.
            let used = f.in_use j h in
            (
              used.0,
              get-map_values check j p.connections
                  ∙ rw (used.1) (ground (arith, check_health-used now used.0 used.2)),
              used.2,
            );
      }

  enqueue_new-IsFair :
      (o : Option (Text × PooledConnection Raw)) (p : Pool Raw)
      → IsFair p []
      → IsFresh o p []
      → IsFair (elim o as (λ x. Pool Raw) [ none ↦ p | some conn ↦ enqueue conn.0 p ]) []
  enqueue_new-IsFair none p f fresh = f
  enqueue_new-IsFair (some conn) p f fresh =
      let here = has-of_get conn.0 conn.1 p.connections fresh.0 in
      record {
        bounded = f.bounded;
        distinct = f.distinct;
        counted = rw (length-append p.idle_queue (conn.0 ∷ [])) omega (arith, f.counted);
        balance = f.balance;
        made = λ j h.
            f.made j
              (ground (arith, h, among-append j conn.0 p.idle_queue, text_same_iff conn.0 j, here));
        once_waiting = append-IsOnce conn.0 p.idle_queue f.once_waiting fresh.1;
        once_held = f.once_held;
        apart = λ j h. cc;
        in_use = λ j h. cc;
      }

  initialize-IsFair :
      (now n : ℕ) (p : Pool Raw) → IsFair p [] → IsFair (initialize_pool make now n p) []
  unfolding initialize_pool add_idle
  initialize-IsFair now zero p f = f
  initialize-IsFair now (suc n) p f =
      let kept = create-IsFair make now p [] f in
      initialize-IsFair now n (add_idle make now p) (
        enqueue_new-IsFair (create_connection make now p).0 (create_connection make now p).1 kept.0
          kept.1)

  clean-IsFair :
      (now : ℕ) (p : Pool Raw) (held : List Text)
      → IsFair p held
      → IsFair (cleanup_idle_connections now p) held
  unfolding cleanup_idle_connections
  clean-IsFair now p held f =
      let above = ltb p.min_connections (length p.connections) in
      destroy_all-IsFair (expired now p.idle_timeout above p.connections) p held f (λ id h.
        elim (Bool-cases (among id held)) [
          | inr free ↦ free
          | inl taken ↦
              let idle = expired-free id now p.idle_timeout above p.connections f.distinct h in
              let used = f.in_use id taken in ground (arith, idle.1, used.1, idle.2, used.2)
        ])

  -- Every pool that clients can bring about who return only connections that they hold:
  -- it has at most its maximum of connections, as many permits as identifiers in its queue, and
  -- what was created is open or destroyed; no connection is held twice, none that is held
  -- waits in the queue, and every one that is held is open and in use.
  pub Reaches-IsFair : {p : Pool Raw} {held : List Text} → Reaches p held → IsFair p held
  unfolding new_pool has
  Reaches-IsFair (opened now least most timeout name) = initialize-IsFair now least _ record {
    bounded = omega arith;
    distinct = tt;
    counted = refl;
    balance = refl;
    made = λ j h. cc;
    once_waiting = tt;
    once_held = tt;
    apart = λ j h. cc;
    in_use = λ j h. cc;
  }
  Reaches-IsFair (asked now {p} {held} r) =
      (get_connection-IsFair make validate now p held (Reaches-IsFair r)).0
  Reaches-IsFair (returned now id is_healthy {p} {held} r h) =
      return-IsFair now id is_healthy p held (Reaches-IsFair r) h
  Reaches-IsFair (checked now {p} {held} r) = check-IsFair now p held (Reaches-IsFair r)
  Reaches-IsFair (cleaned now {p} {held} r) = clean-IsFair now p held (Reaches-IsFair r)

  -- A client that asks such a pool for a connection never waits for the queue without a timeout.
  pub get_connection-ends :
      (now : ℕ) {p : Pool Raw} {held : List Text}
      → Reaches p held
      → (get_connection make validate now p).0 ≢ Lent.blocked
  get_connection-ends now {p} {held} r =
      (get_connection-IsFair make validate now p held (Reaches-IsFair r)).1
