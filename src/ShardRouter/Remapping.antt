-- ===== src/ShardRouter/Remapping.antt =====
-- shard_router.py, ConsistentHashRing: which keys move when a shard is removed.
use kos_db.Base.{
  ℕ, ◌≤◌, ◌≡◌, refl, sym, ap, ◌∙◌, Bool, true, false, not, Option, none, some, List, [], ◌∷◌,
  if◌then◌else◌, leb, nat_key, ok, ◌==◌, arith, Bool-cases, Option-cases, inl, inr, All,
}
use kos_db.Dict.{Dict, get, has}
use kos_db.Dict.Values.{keys}
use kos_db.Dict.Distinct.{IsDistinct}
use kos_db.Dict.Removal.{keep, among, get-remove_all, keys-remove_all}
use kos_db.Text.{Text, text_key}
use kos_db.ShardRouter.{
  Shard, ConsistentHashRing, insert_key, sort_keys, rebuild_sorted_keys, to_remove, remove_shard,
  shard_at, first_from, ring_key, find_shard, get_shard, is_empty,
}

abbrev IsSorted : List ℕ → Type 0
IsSorted [] = Unit
IsSorted (y ∷ ys) = All (λ z. y ≤ z) ys × IsSorted ys

All-keep : (y : ℕ) (p : ℕ → Bool) (s : List ℕ) → All (λ z. y ≤ z) s → All (λ z. y ≤ z) (keep p s)
unfolding keep
All-keep y p [] h = tt
All-keep y p (x ∷ s) h = ground (arith, All-keep y p s h.1)

insert-All : (y x : ℕ) (s : List ℕ) → y ≤ x → All (λ z. y ≤ z) s → All (λ z. y ≤ z) (insert_key x s)
unfolding insert_key
insert-All y x [] le h = (le, tt)
insert-All y x (z ∷ s) le h = ground (arith, insert-All y x s le h.1)

All-lower : (x y : ℕ) (s : List ℕ) → x ≤ y → All (λ z. y ≤ z) s → All (λ z. x ≤ z) s
All-lower x y [] le h = tt
All-lower x y (z ∷ s) le h = (omega (arith, le, h.0), All-lower x y s le h.1)

insert-IsSorted : (x : ℕ) (s : List ℕ) → IsSorted s → IsSorted (insert_key x s)
unfolding insert_key
insert-IsSorted x [] h = (tt, tt)
insert-IsSorted x (y ∷ s) h =
    ground (arith, insert-IsSorted x s h.1, insert-All y x s, All-lower x y s)

sort-IsSorted : (xs : List ℕ) → IsSorted (sort_keys xs)
unfolding sort_keys
sort-IsSorted [] = tt
sort-IsSorted (x ∷ xs) = insert-IsSorted x (sort_keys xs) (sort-IsSorted xs)

insert-low : (x : ℕ) (s : List ℕ) → All (λ z. x ≤ z) s → insert_key x s ≡ x ∷ s
unfolding insert_key
insert-low x [] h = refl
insert-low x (y ∷ s) h = ground (arith, h.0)

keep-insert :
    (p : ℕ → Bool) (x : ℕ) (s : List ℕ)
    → IsSorted s
    → keep p (insert_key x s) ≡ (if p x then insert_key x (keep p s) else keep p s)
unfolding keep insert_key
keep-insert p x [] h = refl
keep-insert p x (y ∷ s) h =
    ground (arith, keep-insert p x s h.1, insert-low x (keep p s), All-keep x p s, All-lower x y s)

sort-keep : (p : ℕ → Bool) (xs : List ℕ) → sort_keys (keep p xs) ≡ keep p (sort_keys xs)
unfolding sort_keys keep
sort-keep p [] = refl
sort-keep p (x ∷ xs) =
    rw (keep-insert p x (sort_keys xs) (sort-IsSorted xs), ← sort-keep p xs) ground arith

module _ (hash : Text → ℕ) where
  first-keep :
      (p : ℕ → Bool) (h k : ℕ) (s : List ℕ)
      → first_from hash h s ≡ some k
      → p k ≡ true
      → first_from hash h (keep p s) ≡ some k
  unfolding first_from keep
  first-keep p h k [] e pk = cc
  first-keep p h k (y ∷ s) e pk = elim (Bool-cases (leb h y)) [
    | inl low ↦ ground (arith, e, low, pk)
    | inr high ↦ ground (arith, e, high, first-keep p h k s)
  ]

  first-keep-none :
      (p : ℕ → Bool) (h : ℕ) (s : List ℕ)
      → first_from hash h s ≡ none
      → first_from hash h (keep p s) ≡ none
  unfolding first_from keep
  first-keep-none p h [] e = refl
  first-keep-none p h (y ∷ s) e = ground (arith, e, first-keep-none p h s)

  abbrev head_of : List ℕ → Option ℕ
  head_of [] = none
  head_of (k ∷ ks) = some k

  ring_key-some : (h k : ℕ) (s : List ℕ) → first_from hash h s ≡ some k → ring_key hash h s ≡ some k
  unfolding ring_key
  ring_key-some h k s e = rw (e, ring_key) refl

  ring_key-none : (h : ℕ) (s : List ℕ) → first_from hash h s ≡ none → ring_key hash h s ≡ head_of s
  unfolding ring_key
  ring_key-none h [] e = rw (e, ring_key) refl
  ring_key-none h (y ∷ s) e = rw (e, ring_key) refl

  head-keep :
      (p : ℕ → Bool) (k : ℕ) (s : List ℕ)
      → head_of s ≡ some k
      → p k ≡ true
      → head_of (keep p s) ≡ some k
  unfolding keep
  head-keep p k [] e pk = e
  head-keep p k (y ∷ s) e pk = ground (arith, e, pk)

  ring_key-keep :
      (p : ℕ → Bool) (h k : ℕ) (s : List ℕ)
      → ring_key hash h s ≡ some k
      → p k ≡ true
      → ring_key hash h (keep p s) ≡ some k
  ring_key-keep p h k s e pk = elim (Option-cases (first_from hash h s)) [
    | inl absent ↦
        ring_key-none h (keep p s) (first-keep-none p h s absent)
        ∙ head-keep p k s (sym (ring_key-none h s absent) ∙ e) pk
    | inr from ↦
        ring_key-some h k (keep p s)
          (first-keep p h k s (from.1 ∙ sym (ring_key-some h from.0 s from.1) ∙ e) pk)
  ]

  -- An entry of another shard is not among those that go.
  among-to_remove :
      (x : Text) (k : ℕ) (d : Dict ℕ Shard) → among k (to_remove hash x d) ≡ true → has k d ≡ true
  unfolding to_remove has
  among-to_remove x k [] h = cc
  among-to_remove x k ((j, s) ∷ d) h = ground (arith, among-to_remove x k d)

  pub among-other :
      (x : Text) (k : ℕ) (s : Shard) (d : Dict ℕ Shard)
      → IsDistinct d
      → get k d ≡ some s
      → among k (to_remove hash x d) ≡ (s.shard_id == x)
  unfolding to_remove get
  among-other x k s [] distinct e = cc
  among-other x k s ((j, y) ∷ d) distinct e = ground (
    arith,
    e,
    distinct,
    among-other x k s d distinct.1,
    among-to_remove x j d,
    among-to_remove x k d,
  )

  -- The ring key and its entry behind an answer.
  IsAt : Text → ConsistentHashRing → Shard → ℕ → Type 0
  IsAt key r s k = (ring_key hash (hash key) r.sorted_keys ≡ some k) × (get k r.ring ≡ some s)

  shard_at-entry :
      (k : ℕ) (r : ConsistentHashRing) (s : Shard)
      → shard_at hash k r ≡ ok s
      → get k r.ring ≡ some s
  unfolding shard_at
  shard_at-entry k r s e = elim (Option-cases (get k r.ring)) [
    | inl absent ↦ ground (arith, rw (absent, shard_at) at e)
    | inr there ↦ there.1 ∙ ap some (ground (arith, rw (there.1, shard_at) at e))
  ]

  find_shard-IsAt :
      (key : Text) (r : ConsistentHashRing) (s : Shard)
      → find_shard hash (hash key) r ≡ ok s
      → (k : ℕ) × IsAt key r s k
  unfolding IsAt find_shard
  find_shard-IsAt key r s e = elim (Option-cases (ring_key hash (hash key) r.sorted_keys)) [
    | inl absent ↦ ground (arith, rw (absent, find_shard) at e)
    | inr at_key ↦
        (at_key.0, (at_key.1, shard_at-entry at_key.0 r s (rw (at_key.1, find_shard) at e)))
  ]

  is_empty-get : (k : ℕ) (s : Shard) (d : Dict ℕ Shard) → get k d ≡ some s → is_empty hash d ≡ false
  unfolding is_empty get
  is_empty-get k s [] e = cc
  is_empty-get k s (entry ∷ d) e = refl

  get_shard-IsAt :
      (key : Text) (r : ConsistentHashRing) (s : Shard)
      → get_shard hash key r ≡ ok s
      → (k : ℕ) × IsAt key r s k
  unfolding get_shard
  get_shard-IsAt key r s e = elim (Bool-cases (is_empty hash r.ring)) [
    | inl empty ↦ ground (arith, rw (empty, get_shard) at e)
    | inr some_shard ↦ find_shard-IsAt key r s (rw (some_shard, get_shard) at e)
  ]

  -- The shard of a key stands on the ring.
  pub get_shard-entry :
      (key : Text) (r : ConsistentHashRing) (s : Shard)
      → get_shard hash key r ≡ ok s
      → (k : ℕ) × (get k r.ring ≡ some s)
  unfolding IsAt
  get_shard-entry key r s e = let place = get_shard-IsAt key r s e in (place.0, place.1.1)

  IsAt-get_shard :
      (key : Text) (r : ConsistentHashRing) (s : Shard) (k : ℕ)
      → IsAt key r s k
      → get_shard hash key r ≡ ok s
  unfolding IsAt get_shard find_shard shard_at
  IsAt-get_shard key r s k h =
      rw (is_empty-get k s r.ring h.1, get_shard) (rw (h.0, find_shard) (rw (h.1, shard_at) refl))

  pub remove_shard_other :
      (key x : Text) (s : Shard) (r : ConsistentHashRing)
      → IsDistinct r.ring
      → r.sorted_keys ≡ sort_keys (keys r.ring)
      → get_shard hash key r ≡ ok s
      → (s.shard_id == x) ≡ false
      → get_shard hash key (remove_shard hash x r) ≡ ok s
  unfolding IsAt remove_shard rebuild_sorted_keys
  remove_shard_other key x s r distinct sorted found other =
      let (k, (at_key, entry)) = get_shard-IsAt key r s found in
      let gone = to_remove hash x r.ring in
      let stays : among k gone ≡ false = among-other x k s r.ring distinct entry ∙ other in
      IsAt-get_shard key (remove_shard hash x r) s k (
        rw
            (
              keys-remove_all gone r.ring,
              sort-keep (λ c. not (among c gone)) (keys r.ring),
              ← sorted,
            )
            (ring_key-keep (λ c. not (among c gone)) (hash key) k r.sorted_keys at_key
              (ap not stays)),
        rw (get-remove_all k gone r.ring, stays) entry,
      )

  pub remove_shard_gone :
      (key x : Text) (s : Shard) (r : ConsistentHashRing)
      → IsDistinct r.ring
      → get_shard hash key (remove_shard hash x r) ≡ ok s
      → (s.shard_id == x) ≡ false
  unfolding IsAt remove_shard rebuild_sorted_keys
  remove_shard_gone key x s r distinct found =
      let (k, (at_key, entry)) = get_shard-IsAt key (remove_shard hash x r) s found in
      let gone = to_remove hash x r.ring in
      let left = sym (get-remove_all k gone r.ring) ∙ entry in
      elim (Bool-cases (among k gone)) [
        | inl there ↦ ground (arith, left, there)
        | inr absent ↦ sym (among-other x k s r.ring distinct (rw absent at left)) ∙ absent
      ]
