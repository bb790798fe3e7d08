-- ===== src/ConnectionPool/Invariant/Lending.antt =====
-- connection_pool.py: get_connection keeps the invariant.
use kos_db.Base.{
  ℕ, zero, suc, ◌≡◌, ◌≢◌, refl, sym, ap, ◌∙◌, Bool, false, Option, none, some, List, [], ◌∷◌,
  length, arith, leb, ◌==◌, Bool-cases, Option-cases, inl, inr, ==-refl, if-both,
}
use kos_db.Dict.{get, get-put, has-put, length-put}
use kos_db.Dict.Distinct.{put-IsDistinct}
use kos_db.Dict.Removal.{among}
use kos_db.Text.{Text, text_key, text_same_iff}
use kos_db.ConnectionPool.{
  Pool, PooledConnection, Stats, Lent, lent, conn_id_of, new_connection, create_connection,
  destroy_connection, validate_connection, lend_made, lend_new, lend_idle, get_connection,
}
use kos_db.ConnectionPool.Invariant.{IsFair, next_id_new, destroy-IsFair}
use kos_db.ConnectionPool.Invariant.Kept.{pop-IsFair, borrow-IsFair}

-- The clients hold what was lent besides.
abbrev pub held_after : Lent → List Text → List Text
held_after (lent id) held = id ∷ held
held_after Lent.timed_out held = held
held_after Lent.pool_closed held = held
held_after Lent.blocked held = held

module _ {Raw : Type 0} where
  -- A new connection, if one was made, is in the pool and nowhere else.
  abbrev pub IsFresh : Option (Text × PooledConnection Raw) → Pool Raw → List Text → Type 0
  IsFresh none p held = Unit
  IsFresh (some made) p held =
      (get made.0 p.connections ≡ some made.1)
      × (among made.0 p.idle_queue ≡ false)
      × (among made.0 held ≡ false)

  -- Counting something else.
  recount-IsFair :
      (p : Pool Raw) (held : List Text) (s : Stats)
      → IsFair p held
      → s.total_created ≡ p.stats.total_created
      → s.total_destroyed ≡ p.stats.total_destroyed
      → IsFair (record p { stats = s }) held
  recount-IsFair p held s f created destroyed = record {
    bounded = f.bounded;
    distinct = f.distinct;
    counted = f.counted;
    balance = omega (arith, f.balance, created, destroyed);
    made = f.made;
    once_waiting = f.once_waiting;
    once_held = f.once_held;
    apart = f.apart;
    in_use = f.in_use;
  }

  destroy-queue : (id : Text) (p : Pool Raw) → (destroy_connection id p).idle_queue ≡ p.idle_queue
  unfolding destroy_connection
  destroy-queue id p = elim (Option-cases (get id p.connections)) [
    | inl absent ↦ rw (absent, destroy_connection) refl
    | inr present ↦ rw (present.1, destroy_connection) refl
  ]

  requeue-IsFair :
      (ids : List Text) (p : Pool Raw) (held : List Text)
      → IsFair p held
      → p.idle_queue ≡ ids
      → IsFair (record p { idle_queue = ids }) held
  requeue-IsFair ids p held f q = record {
    bounded = f.bounded;
    distinct = f.distinct;
    counted = rw (← q) f.counted;
    balance = f.balance;
    made = λ j h. f.made j (rw q h);
    once_waiting = rw (← q) f.once_waiting;
    once_held = f.once_held;
    apart = λ j h. rw (← q) (f.apart j h);
    in_use = f.in_use;
  }

  lend_made-IsFair :
      (now : ℕ) (o : Option (Text × PooledConnection Raw)) (p : Pool Raw) (held : List Text)
      → IsFair p held
      → IsFresh o p held
      → IsFair (lend_made now o p).1 (held_after (lend_made now o p).0 held)
        × ((lend_made now o p).0 ≢ Lent.blocked)
  unfolding lend_made
  lend_made-IsFair now none p held f fresh = (
    recount-IsFair p held (record p.stats { total_timeout = suc p.stats.total_timeout }) f refl
        refl,
    λ h. cc,
  )
  lend_made-IsFair now (some made) p held f fresh =
      (borrow-IsFair now made.0 made.1 p held f fresh.0 fresh.1 fresh.2, λ h. cc)

  module _ (make : ℕ → Option (Option Raw)) where
    pub create-IsFair :
        (now : ℕ) (p : Pool Raw) (held : List Text)
        → IsFair p held
        → IsFair (create_connection make now p).1 held
          × IsFresh (create_connection make now p).0 (create_connection make now p).1 held
    unfolding create_connection
    create-IsFair now p held f = elim (Bool-cases (leb p.max_connections (length p.connections))) [
      | inl full ↦ rw (full, create_connection) (f, tt)
      | inr room ↦
          let id = conn_id_of p.pool_name (suc p.connection_counter) in
          let new = next_id_new p held f in
          rw (room, create_connection)
            elim (Option-cases (make (suc p.connection_counter))) [
              | inl failed ↦ rw failed (
                record {
                  bounded = f.bounded;
                  distinct = f.distinct;
                  counted = f.counted;
                  balance = f.balance;
                  made = λ j h. let m = f.made j h in (m.0, omega (arith, m.1), m.2);
                  once_waiting = f.once_waiting;
                  once_held = f.once_held;
                  apart = f.apart;
                  in_use = f.in_use;
                },
                tt,
              )
              | inr made ↦
                  let conn = new_connection now made.0 in
                  let longer = length-put id conn p.connections in
                  rw made.1 (
                    record {
                      bounded = ground (arith, longer, room, new);
                      distinct = put-IsDistinct id conn p.connections f.distinct;
                      counted = f.counted;
                      balance = ground (arith, longer, f.balance, new);
                      made = λ j h. elim (Bool-cases (id == j)) [
                        | inl same ↦ (
                          suc p.connection_counter,
                          omega arith,
                          sym ((text_same_iff id j).0 same),
                        )
                        | inr other ↦
                            let m =
                              f.made j
                                (ground (arith, h, has-put id j conn p.connections, other)) in
                            (m.0, omega (arith, m.1), m.2)
                      ];
                      once_waiting = f.once_waiting;
                      once_held = f.once_held;
                      apart = f.apart;
                      in_use = λ j h.
                          let used = f.in_use j h in
                          (
                            used.0,
                            ground (
                              arith,
                              used.1,
                              get-put id j conn p.connections,
                              text_same_iff id j,
                              h,
                              new,
                            ),
                            used.2,
                          );
                    },
                    (
                      rw (get-put id id conn p.connections, ==-refl id) refl,
                      ground (arith, new),
                      ground (arith, new),
                    ),
                  )
            ]
    ]

    lend_new-IsFair :
        (now : ℕ) (p : Pool Raw) (held : List Text)
        → IsFair p held
        → IsFair (lend_new make now p).1 (held_after (lend_new make now p).0 held)
          × ((lend_new make now p).0 ≢ Lent.blocked)
    unfolding lend_new
    lend_new-IsFair now p held f =
        let made = create_connection make now p in
        let kept = create-IsFair now p held f in
        lend_made-IsFair now made.0 made.1 held kept.0 kept.1

    module _ (validate : ℕ → Raw → Bool) where
      -- get_connection never waits for the queue: a permit stands for a connection in it.
      lend_idle-IsFair :
          (now : ℕ) (waiting : List Text) (p : Pool Raw) (held : List Text)
          → IsFair p held
          → p.idle_queue ≡ waiting
          → IsFair
              (lend_idle make validate now waiting p).1
              (held_after (lend_idle make validate now waiting p).0 held)
            × ((lend_idle make validate now waiting p).0 ≢ Lent.blocked)
      unfolding lend_idle
      lend_idle-IsFair now [] p held f q =
          let none_left : p.available ≡ zero = f.counted ∙ ap (λ (ids : List Text). length ids) q in
          rw (none_left, lend_idle)
            (lend_new-IsFair now (record p { idle_queue = [] }) held (requeue-IsFair [] p held f q))
      lend_idle-IsFair now (id ∷ waiting) p held f q =
          let permits : p.available ≡ suc (length waiting) =
            f.counted ∙ ap (λ (ids : List Text). length ids) q in
          let rest = record p { available = length waiting; idle_queue = waiting } in
          let popped = pop-IsFair id (length waiting) waiting p held f q permits in
          rw (permits, lend_idle)
            elim (Option-cases (get id p.connections)) [
              | inl stale ↦ rw stale (lend_new-IsFair now rest held popped.0)
              | inr conn ↦ elim (Bool-cases (validate_connection validate now conn.0)) [
                | inl valid ↦
                    rw (conn.1, valid)
                      (
                        borrow-IsFair now id conn.0 rest held popped.0 conn.1 popped.1 popped.2,
                        λ h. cc,
                      )
                | inr invalid ↦
                    let r = destroy_connection id rest in
                    let gone = destroy-IsFair id rest held popped.0 popped.2 in
                    rw (conn.1, invalid)
                      (lend_idle-IsFair now waiting
                        (record r {
                          stats = record r.stats { failed_checks = suc r.stats.failed_checks };
                        })
                        held
                        (recount-IsFair r held
                          (record r.stats { failed_checks = suc r.stats.failed_checks }) gone refl
                          refl)
                        (destroy-queue id rest))
              ]
            ]

      pub get_connection-IsFair :
          (now : ℕ) (p : Pool Raw) (held : List Text)
          → IsFair p held
          → IsFair
              (get_connection make validate now p).1
              (held_after (get_connection make validate now p).0 held)
            × ((get_connection make validate now p).0 ≢ Lent.blocked)
      unfolding get_connection
      get_connection-IsFair now p held f =
          if-both (λ (r : Lent × Pool Raw). IsFair r.1 (held_after r.0 held) × (r.0 ≢ Lent.blocked))
            p.is_shutdown (f, λ h. cc) (lend_idle-IsFair now p.idle_queue p held f refl)
