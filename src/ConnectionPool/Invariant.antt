-- ===== src/ConnectionPool/Invariant.antt =====
-- connection_pool.py: what holds of a pool and of the connections that clients hold.
pub mod Kept
pub mod Lending
use kos_db.Base.{
  ℕ, zero, suc, ◌+◌, ◌≤◌, ◌≡◌, refl, sym, ap, ◌∙◌, Bool, true, false, not, ◌&&◌, ◌||◌, Option, none,
  some, List, [], ◌∷◌, ◌++◌, if◌then◌else◌, length, arith, leb, ◌==◌, Bool-cases, Option-cases, inl,
  inr, ==-refl, length-append,
}
use kos_db.Dict.{
  Dict, get, put, remove, has, get-put, get-remove, has-put, has-remove, has-get, has-of_get,
  has-of_none, length-put,
}
use kos_db.Dict.Distinct.{IsDistinct, put-IsDistinct, remove-IsDistinct, length-remove_present}
use kos_db.Dict.Removal.{among}
use kos_db.Dict.Counting.{IsOnce}
use kos_db.Text.{Text, text_key, text_same_iff, codes}
use kos_db.Text.Prefix.{append-cancel}
use kos_db.Text.Numbers.{str_nat-same}
use kos_db.ConnectionPool.{
  Pool, PooledConnection, conn_id_of, new_connection, create_connection, destroy_connection,
  mark_used, mark_idle, borrow, enqueue,
}

-- The list without an element.
unfoldable pub without : Text → List Text → List Text
without x [] = []
without x (y ∷ ys) = let rest = without x ys in if y == x then rest else y ∷ rest

pub among-without :
    (x y : Text) (ys : List Text) → among x (without y ys) ≡ (if x == y then false else among x ys)
unfolding without
among-without x y [] = ground arith
among-without x y (z ∷ ys) =
    ground (arith, text_same_iff z y, text_same_iff z x, text_same_iff x y, among-without x y ys)

pub without-IsOnce : (x : Text) (ys : List Text) → IsOnce ys → IsOnce (without x ys)
unfolding without
without-IsOnce x [] h = tt
without-IsOnce x (y ∷ ys) h = ground (arith, among-without y x ys, without-IsOnce x ys h.1, h.0)

pub among-append : (x y : Text) (ys : List Text) → among x (ys ++ y ∷ []) ≡ (among x ys || y == x)
among-append x y [] = ground arith
among-append x y (z ∷ ys) = ground (arith, among-append x y ys)

pub append-IsOnce :
    (y : Text) (ys : List Text) → IsOnce ys → among y ys ≡ false → IsOnce (ys ++ y ∷ [])
append-IsOnce y [] h new = (refl, tt)
append-IsOnce y (z ∷ ys) h new = ground (
  arith,
  among-append z y ys,
  text_same_iff z y,
  text_same_iff y z,
  append-IsOnce y ys h.1,
  h.0,
  new,
)

conn_id_of-same : (name : Text) (m n : ℕ) → conn_id_of name m ≡ conn_id_of name n → m ≡ n
unfolding conn_id_of
conn_id_of-same name m n h = str_nat-same m n (append-cancel (name ++ codes "_conn_") _ _ h)

module _ {Raw : Type 0} where
  -- The pool made this identifier.
  abbrev pub IsMade : Pool Raw → Text → Type 0
  IsMade p id = (n : ℕ) × (n ≤ p.connection_counter) × (id ≡ conn_id_of p.pool_name n)

  -- A pool whose clients hold the connections of `held`.
  pub record IsFair (p : Pool Raw) (held : List Text) : Type 0 where
    pub bounded : length p.connections ≤ p.max_connections
    pub distinct : IsDistinct p.connections
    -- a permit for every connection in the queue
    pub counted : p.available ≡ length p.idle_queue
    pub balance : p.stats.total_created ≡ p.stats.total_destroyed + length p.connections
    pub made :
        (id : Text)
        → (has id p.connections || among id p.idle_queue || among id held) ≡ true
        → IsMade p id
    pub once_waiting : IsOnce p.idle_queue
    pub once_held : IsOnce held
    pub apart : (id : Text) → among id held ≡ true → among id p.idle_queue ≡ false
    -- what clients hold is open and in use
    pub in_use :
        (id : Text)
        → among id held ≡ true
        → (conn : PooledConnection Raw) × (get id p.connections ≡ some conn)
          × (conn.is_idle ≡ false)

  -- The identifier of the next connection is new.
  pub next_id_new :
      (p : Pool Raw) (held : List Text)
      → IsFair p held
      → (has (conn_id_of p.pool_name (suc p.connection_counter)) p.connections
          || among (conn_id_of p.pool_name (suc p.connection_counter)) p.idle_queue
          || among (conn_id_of p.pool_name (suc p.connection_counter)) held)
        ≡ false
  next_id_new p held f =
      let id = conn_id_of p.pool_name (suc p.connection_counter) in
      elim (Bool-cases (has id p.connections || among id p.idle_queue || among id held)) [
        | inr new ↦ new
        | inl old ↦
            let m = f.made id old in
            let same = conn_id_of-same p.pool_name (suc p.connection_counter) m.0 m.2 in
            ground (arith, same, m.1)
      ]

  -- Closing a connection that nobody holds.
  pub destroy-IsFair :
      (id : Text) (p : Pool Raw) (held : List Text)
      → IsFair p held
      → among id held ≡ false
      → IsFair (destroy_connection id p) held
  unfolding destroy_connection
  destroy-IsFair id p held f free = elim (Option-cases (get id p.connections)) [
    | inl absent ↦ rw (absent, destroy_connection) f
    | inr present ↦
        let there = has-of_get id present.0 p.connections present.1 in
        let shorter = length-remove_present id p.connections f.distinct there in
        rw (present.1, destroy_connection)
          record {
            bounded = omega (arith, shorter, f.bounded);
            distinct = remove-IsDistinct id p.connections f.distinct;
            counted = f.counted;
            balance = omega (arith, shorter, f.balance);
            made = λ j h. f.made j (ground (arith, h, has-remove id j p.connections));
            once_waiting = f.once_waiting;
            once_held = f.once_held;
            apart = f.apart;
            in_use = λ j h.
                let used = f.in_use j h in
                (
                  used.0,
                  ground
                      (arith, used.1, get-remove id j p.connections, text_same_iff id j, h, free),
                  used.2,
                );
          }
  ]
