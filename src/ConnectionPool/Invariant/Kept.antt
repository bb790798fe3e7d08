-- ===== src/ConnectionPool/Invariant/Kept.antt =====
-- connection_pool.py: opening, lending and taking back connections keep the invariant.
use kos_db.Base.{
  ℕ, suc, ◌≡◌, refl, ap, true, false, some, List, [], ◌∷◌, length, arith, ◌==◌, Bool-cases, inl,
  inr, ==-refl, length-append,
}
use kos_db.Dict.{get, put, get-put, has-put, has-of_get, length-put}
use kos_db.Dict.Distinct.{put-IsDistinct}
use kos_db.Dict.Removal.{among}
use kos_db.Text.{Text, text_key, text_same_iff}
use kos_db.ConnectionPool.{Pool, PooledConnection, mark_used, mark_idle, borrow, enqueue}
use kos_db.ConnectionPool.Invariant.{
  IsFair, without, among-without, without-IsOnce, among-append, append-IsOnce,
}

module _ {Raw : Type 0} where
  -- Taking the first of the queue with its permit.
  pub pop-IsFair :
      (id : Text) (n : ℕ) (waiting : List Text) (p : Pool Raw) (held : List Text)
      → IsFair p held
      → p.idle_queue ≡ id ∷ waiting
      → p.available ≡ suc n
      → IsFair (record p { available = n; idle_queue = waiting }) held
        × (among id waiting ≡ false)
        × (among id held ≡ false)
  pop-IsFair id n waiting p held f q a =
      let once = rw q at f.once_waiting in
      let free : among id held ≡ false = elim (Bool-cases (among id held)) [
        | inr free ↦ free
        | inl taken ↦ ground (arith, rw q at f.apart id taken, ==-refl id)
      ] in
      (
        record {
          bounded = f.bounded;
          distinct = f.distinct;
          counted = ground (arith, f.counted, a, ap (λ (ids : List Text). length ids) q);
          balance = f.balance;
          made = λ j h. f.made j (rw q (ground (arith, h)));
          once_waiting = once.1;
          once_held = f.once_held;
          apart = λ j h. let other = rw q at f.apart j h in ground (arith, other);
          in_use = f.in_use;
        },
        once.0,
        free,
      )

  -- Lending a connection that neither waits nor is held.
  pub borrow-IsFair :
      (now : ℕ) (id : Text) (conn : PooledConnection Raw) (p : Pool Raw) (held : List Text)
      → IsFair p held
      → get id p.connections ≡ some conn
      → among id p.idle_queue ≡ false
      → among id held ≡ false
      → IsFair (borrow now id conn p) (id ∷ held)
  unfolding borrow mark_used
  borrow-IsFair now id conn p held f there waits free =
      let here = has-of_get id conn p.connections there in
      let same_length = length-put id (mark_used now conn) p.connections in
      record {
        bounded = ground (arith, same_length, here, f.bounded);
        distinct = put-IsDistinct id (mark_used now conn) p.connections f.distinct;
        counted = f.counted;
        balance = ground (arith, same_length, here, f.balance);
        made = λ j h. f.made j (
            ground (
              arith,
              h,
              has-put id j (mark_used now conn) p.connections,
              text_same_iff id j,
              here,
            ));
        once_waiting = f.once_waiting;
        once_held = (free, f.once_held);
        apart = λ j h. ground (arith, f.apart j, text_same_iff id j, h, waits);
        in_use = λ j h. elim (Bool-cases (id == j)) [
          | inl same ↦ (
            mark_used now conn,
            ground (arith, get-put id j (mark_used now conn) p.connections, same),
            refl,
          )
          | inr other ↦
              let used = f.in_use j (ground (arith, other, h)) in
              (
                used.0,
                ground (arith, used.1, get-put id j (mark_used now conn) p.connections, other),
                used.2,
              )
        ];
      }

  -- Taking a held connection back into the queue.
  pub enqueue-IsFair :
      (now : ℕ) (id : Text) (conn : PooledConnection Raw) (p : Pool Raw) (held : List Text)
      → IsFair p held
      → get id p.connections ≡ some conn
      → among id held ≡ true
      → IsFair
          (enqueue id (record p {
            connections = put id (mark_idle now conn) p.connections;
            stats = record p.stats { total_returned = suc p.stats.total_returned };
          }))
          (without id held)
  unfolding mark_idle
  enqueue-IsFair now id conn p held f there h0 =
      let here = has-of_get id conn p.connections there in
      let same_length = length-put id (mark_idle now conn) p.connections in
      record {
        bounded = ground (arith, same_length, here, f.bounded);
        distinct = put-IsDistinct id (mark_idle now conn) p.connections f.distinct;
        counted = rw (length-append p.idle_queue (id ∷ [])) omega (arith, f.counted);
        balance = ground (arith, same_length, here, f.balance);
        made = λ j h. f.made j (
            ground (
              arith,
              h,
              has-put id j (mark_idle now conn) p.connections,
              text_same_iff id j,
              here,
              among-append j id p.idle_queue,
              among-without j id held,
            ));
        once_waiting = append-IsOnce id p.idle_queue f.once_waiting (f.apart id h0);
        once_held = without-IsOnce id held f.once_held;
        apart = λ j h. ground (
          arith,
          f.apart j,
          h,
          among-append j id p.idle_queue,
          among-without j id held,
          text_same_iff id j,
          text_same_iff j id,
        );
        in_use = λ j h.
            let kept : among j held ≡ true = ground (arith, h, among-without j id held) in
            let used = f.in_use j kept in
            (
              used.0,
              ground (
                arith,
                used.1,
                get-put id j (mark_idle now conn) p.connections,
                h,
                among-without j id held,
                text_same_iff id j,
                text_same_iff j id,
              ),
              used.2,
            );
      }
