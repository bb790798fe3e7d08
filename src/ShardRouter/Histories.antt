-- ===== src/ShardRouter/Histories.antt =====
-- shard_router.py, ConsistentHashRing: rings after any calls of add_shard and remove_shard.
use kos_db.Base.{ℕ, zero, suc, ◌≡◌, refl, false, List, [], ◌∷◌, ◌++◌, nat_key, ok, ◌==◌}
use kos_db.Dict.{Dict, put}
use kos_db.Dict.Values.{keys}
use kos_db.Dict.Distinct.{IsDistinct, put-IsDistinct}
use kos_db.Dict.Removal.{remove_all-IsDistinct}
use kos_db.Text.{Text, text_key, codes, str_nat}
use kos_db.ShardRouter.{
  Shard, ConsistentHashRing, sort_keys, rebuild_sorted_keys, add_virtual, add_shard, to_remove,
  remove_shard, get_shard,
}
use kos_db.ShardRouter.Remapping.{remove_shard_other, remove_shard_gone}

pub data Call : Type 0 where
  add : Shard → Call
  remove : Text → Call

abbrev pub new_ring : ℕ → ConsistentHashRing
new_ring replicas = record { replicas = replicas; ring = []; sorted_keys = [] }

IsRing : ConsistentHashRing → Type 0
IsRing r = IsDistinct r.ring × (r.sorted_keys ≡ sort_keys (keys r.ring))

module _ (hash : Text → ℕ) where
  unfoldable pub step : Call → ConsistentHashRing → ConsistentHashRing
  step (add shard) r = add_shard hash shard r
  step (remove shard_id) r = remove_shard hash shard_id r

  unfoldable pub run : List Call → ConsistentHashRing → ConsistentHashRing
  unfolding step
  run [] r = r
  run (call ∷ calls) r = run calls (step call r)

  pub add_virtual-IsDistinct :
      (n i : ℕ) (shard : Shard) (d : Dict ℕ Shard)
      → IsDistinct d
      → IsDistinct (add_virtual hash n i shard d)
  unfolding add_virtual
  add_virtual-IsDistinct zero i shard d h = h
  add_virtual-IsDistinct (suc n) i shard d h =
      let j = hash (shard.shard_id ++ codes ":" ++ str_nat i) in
      add_virtual-IsDistinct n (suc i) shard (put j shard d) (put-IsDistinct j shard d h)

  step-IsRing : (call : Call) (r : ConsistentHashRing) → IsRing r → IsRing (step call r)
  unfolding step IsRing add_shard remove_shard rebuild_sorted_keys
  step-IsRing (add shard) r h = (add_virtual-IsDistinct r.replicas 0 shard r.ring h.0, refl)
  step-IsRing (remove shard_id) r h =
      (remove_all-IsDistinct (to_remove hash shard_id r.ring) r.ring h.0, refl)

  run-IsRing : (calls : List Call) (r : ConsistentHashRing) → IsRing r → IsRing (run calls r)
  unfolding run
  run-IsRing [] r h = h
  run-IsRing (call ∷ calls) r h = run-IsRing calls (step call r) (step-IsRing call r h)

  new_ring-IsRing : (replicas : ℕ) → IsRing (new_ring replicas)
  unfolding IsRing sort_keys keys
  new_ring-IsRing replicas = (tt, refl)

  -- Removing a shard moves only its own keys: after any calls of add_shard and remove_shard over a
  -- new ring, a key that is routed to another shard is still routed there after the removal.
  pub remove_shard-keeps :
      (replicas : ℕ) (calls : List Call) (key x : Text) (s : Shard)
      → get_shard hash key (run calls (new_ring replicas)) ≡ ok s
      → (s.shard_id == x) ≡ false
      → get_shard hash key (remove_shard hash x (run calls (new_ring replicas))) ≡ ok s
  unfolding IsRing
  remove_shard-keeps replicas calls key x s found other =
      let r = run calls (new_ring replicas) in
      let ring = run-IsRing calls (new_ring replicas) (new_ring-IsRing replicas) in
      remove_shard_other hash key x s r ring.0 ring.1 found other

  -- After the removal of a shard no key is routed to it, whatever calls came before.
  pub remove_shard-unused :
      (replicas : ℕ) (calls : List Call) (key x : Text) (s : Shard)
      → get_shard hash key (remove_shard hash x (run calls (new_ring replicas))) ≡ ok s
      → (s.shard_id == x) ≡ false
  unfolding IsRing
  remove_shard-unused replicas calls key x s found =
      let ring = run-IsRing calls (new_ring replicas) (new_ring-IsRing replicas) in
      remove_shard_gone hash key x s (run calls (new_ring replicas)) ring.0 found
