-- ===== src/ShardRouter.antt =====
-- shard_router.py, ConsistentHashRing: keys of the data on a ring of hashes. `hash` is the number
-- that `_hash` makes of the MD5 of a text.
pub mod Remapping
pub mod Histories
pub mod Ranges
pub mod Router
mod Examples
use kos_db.Base.{
  ℕ, zero, suc, Bool, true, false, ◌&&◌, Option, none, some, List, [], ◌∷◌, ◌++◌, if◌then◌else◌,
  leb, nat_key, Result, ok, err, ◌==◌,
}
use kos_db.Dict.{Dict, get, put}
use kos_db.Dict.Values.{keys}
use kos_db.Dict.Removal.{remove_all}
use kos_db.Text.{Text, text_key, codes, str_nat}

pub record Shard : Type 0 where
  pub shard_id : Text
  pub host : Text
  pub port : ℕ
  pub region : Text
  pub role : Text
  pub weight : ℕ
  pub active : Bool
  pub metadata : Dict Text Text

pub record ConsistentHashRing : Type 0 where
  pub replicas : ℕ
  pub ring : Dict ℕ Shard
  pub sorted_keys : List ℕ

pub data RingError : Type 0 where
  shard_not_found : RingError
  -- what self.ring[...] and self.sorted_keys[0] raise
  key_error index_error : RingError

-- sorted
unfoldable pub insert_key : ℕ → List ℕ → List ℕ
insert_key x [] = x ∷ []
insert_key x (y ∷ ys) = let rest = insert_key x ys in if leb x y then x ∷ y ∷ ys else y ∷ rest

unfoldable pub sort_keys : List ℕ → List ℕ
unfolding insert_key
sort_keys [] = []
sort_keys (x ∷ xs) = insert_key x (sort_keys xs)

-- _rebuild_sorted_keys
unfoldable pub rebuild_sorted_keys : ConsistentHashRing → ConsistentHashRing
rebuild_sorted_keys r = record r { sorted_keys = sort_keys (keys r.ring) }

module _ (hash : Text → ℕ) where
  -- the loop over range(replicas), from i on
  unfoldable pub add_virtual : ℕ → ℕ → Shard → Dict ℕ Shard → Dict ℕ Shard
  add_virtual zero i shard d = d
  add_virtual (suc n) i shard d =
      add_virtual n (suc i) shard (put (hash (shard.shard_id ++ codes ":" ++ str_nat i)) shard d)

  unfoldable pub add_shard : Shard → ConsistentHashRing → ConsistentHashRing
  unfolding add_virtual rebuild_sorted_keys
  add_shard shard r =
      rebuild_sorted_keys (record r { ring = add_virtual r.replicas 0 shard r.ring })

  -- [h for h, s in self.ring.items() if s.shard_id == shard_id]
  unfoldable pub to_remove : Text → Dict ℕ Shard → List ℕ
  to_remove shard_id [] = []
  to_remove shard_id ((h, s) ∷ d) =
      let rest = to_remove shard_id d in if s.shard_id == shard_id then h ∷ rest else rest

  unfoldable pub remove_shard : Text → ConsistentHashRing → ConsistentHashRing
  unfolding to_remove rebuild_sorted_keys
  remove_shard shard_id r =
      rebuild_sorted_keys (record r { ring = remove_all (to_remove shard_id r.ring) r.ring })

  unfoldable pub shard_at : ℕ → ConsistentHashRing → Result RingError Shard
  shard_at k r = elim (get k r.ring) [ none ↦ err key_error | some s ↦ ok s ]

  -- the first of the keys that is not below h
  unfoldable pub first_from : ℕ → List ℕ → Option ℕ
  first_from h [] = none
  first_from h (k ∷ ks) = if leb h k then some k else first_from h ks

  -- else sorted_keys[0]
  unfoldable pub ring_key : ℕ → List ℕ → Option ℕ
  unfolding first_from
  ring_key h ks = elim (first_from h ks) [
    | some k ↦ some k
    | none ↦ elim ks [ [] ↦ none | k ∷ rest ↦ some k ]
  ]

  unfoldable pub find_shard : ℕ → ConsistentHashRing → Result RingError Shard
  unfolding shard_at ring_key
  find_shard h r = elim (ring_key h r.sorted_keys) [
    | none ↦ err index_error
    | some k ↦ shard_at k r
  ]

  -- not self.ring
  unfoldable pub is_empty : Dict ℕ Shard → Bool
  is_empty [] = true
  is_empty (entry ∷ d) = false

  unfoldable pub get_shard : Text → ConsistentHashRing → Result RingError Shard
  unfolding find_shard is_empty
  get_shard key r = if is_empty r.ring then err shard_not_found else find_shard (hash key) r
