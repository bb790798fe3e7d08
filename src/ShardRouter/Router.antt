-- ===== src/ShardRouter/Router.antt =====
-- shard_router.py, ShardRouter: keys and tables to shards by either strategy, and its dict form.
-- `active` of a shard that was added is not changed here.
pub mod Registered
pub mod Routes
pub mod Copies
mod Examples
use kos_db.Base.{
  ℕ, Bool, true, false, ◌&&◌, ◌||◌, Option, none, some, List, [], ◌∷◌, ◌++◌, if◌then◌else◌, Result,
  ok, err, ◌==◌, ◌>>=◌, nat_key,
}
use kos_db.Dict.{Dict, get, put, remove}
use kos_db.Dict.Values.{values}
use kos_db.Text.{Text, text_key, codes}
use kos_db.ShardRouter.{Shard, ConsistentHashRing, RingError}
use kos_db.ShardRouter as Ring
use kos_db.ShardRouter.Ranges as Ranges

pub data Strategy : Type 0 where
  hashed ranged : Strategy

pub record ShardRouter : Type 0 where
  pub strategy : Strategy
  pub hash_ring : ConsistentHashRing
  pub range_partitioner : List Ranges.Range
  pub shards : Dict Text Shard

-- 'hash', 'range', or no strategy
unfoldable pub strategy_of : Text → Option Strategy
strategy_of name =
    if name == codes "hash"
    then some hashed
    else if name == codes "range"
    then some ranged
    else none

unfoldable pub strategy_name : Strategy → Text
strategy_name Strategy.hashed = codes "hash"
strategy_name Strategy.ranged = codes "range"

-- ShardRouter(strategy, replicas); another strategy is a ValueError.
unfoldable pub new_router : Text → ℕ → Option ShardRouter
unfolding strategy_of
new_router name replicas = elim (strategy_of name) [
  | none ↦ none
  | some strategy ↦ some record {
    strategy = strategy;
    hash_ring = record { replicas = replicas; ring = []; sorted_keys = [] };
    range_partitioner = [];
    shards = [];
  }
]

-- get_all_shards
unfoldable pub get_all_shards : ShardRouter → List Shard
get_all_shards r = values r.shards

-- the shards that a list comprehension keeps
unfoldable pub keep_shards : (Shard → Bool) → List Shard → List Shard
keep_shards p [] = []
keep_shards p (s ∷ shards) = let rest = keep_shards p shards in if p s then s ∷ rest else rest

unfoldable pub get_active_shards : ShardRouter → List Shard
unfolding keep_shards get_all_shards
get_active_shards r = keep_shards (λ s. s.active) (get_all_shards r)

unfoldable pub get_shards_in_region : Text → ShardRouter → List Shard
unfolding keep_shards get_all_shards
get_shards_in_region region r = keep_shards (λ s. s.region == region) (get_all_shards r)

-- s.metadata.get('primary') == primary_id
unfoldable pub is_replica_of : Text → Shard → Bool
is_replica_of primary_id s = elim (get (codes "primary") s.metadata) [
  | none ↦ false
  | some primary ↦ primary == primary_id
]

unfoldable pub get_replica_shards : Text → ShardRouter → List Shard
unfolding keep_shards get_all_shards is_replica_of
get_replica_shards primary_id r = keep_shards (is_replica_of primary_id) (get_all_shards r)

-- f"{table_name}:{key_value}" if key_value else table_name
unfoldable pub routing_key : Text → Option Text → Text
routing_key table_name none = table_name
routing_key table_name (some []) = table_name
routing_key table_name (some (c ∷ key)) = table_name ++ codes ":" ++ c ∷ key

pub record RouterDict : Type 0 where
  pub strategy : Option Text
  pub shards : Dict Text Shard

-- Shards as asdict copies them.
unfoldable pub to_dict : ShardRouter → RouterDict
unfolding strategy_name
to_dict r = record { strategy = some (strategy_name r.strategy); shards = r.shards }

-- without 'range_start' and 'range_end'
unfoldable pub without_range : Shard → Shard
without_range s = record s {
  metadata = remove (codes "range_end") (remove (codes "range_start") s.metadata);
}

module _ (hash : Text → ℕ) where
  unfoldable pub add_shard : Shard → Option Text → Option Text → ShardRouter → ShardRouter
  add_shard shard start end r = elim r.strategy [
    | Strategy.hashed ↦ record r {
      shards = put shard.shard_id shard r.shards;
      hash_ring = Ring.add_shard hash shard r.hash_ring;
    }
    | Strategy.ranged ↦ record r {
      shards = put shard.shard_id shard r.shards;
      range_partitioner = Ranges.add_range start end shard r.range_partitioner;
    }
  ]

  unfoldable pub remove_shard : Text → ShardRouter → ShardRouter
  remove_shard shard_id r = elim r.strategy [
    | Strategy.hashed ↦ record r {
      shards = remove shard_id r.shards;
      hash_ring = Ring.remove_shard hash shard_id r.hash_ring;
    }
    | Strategy.ranged ↦ record r {
      shards = remove shard_id r.shards;
      range_partitioner = Ranges.remove_shard shard_id r.range_partitioner;
    }
  ]

  unfoldable pub get_shard_for_key : Text → ShardRouter → Result RingError Shard
  get_shard_for_key key r = elim r.strategy [
    | Strategy.hashed ↦ Ring.get_shard hash key r.hash_ring
    | Strategy.ranged ↦ Ranges.get_shard key r.range_partitioner
  ]

  unfoldable pub get_shard_for_table : Text → Option Text → ShardRouter → Result RingError Shard
  unfolding routing_key get_shard_for_key
  get_shard_for_table table_name key_value r =
      get_shard_for_key (routing_key table_name key_value) r

  -- the loop of from_dict; the keys of the dict are not used
  unfoldable pub load_shards : Dict Text Shard → ShardRouter → ShardRouter
  unfolding without_range add_shard
  load_shards [] r = r
  load_shards ((sid, s) ∷ shards) r = load_shards shards (
      add_shard (without_range s) (get (codes "range_start") s.metadata)
        (get (codes "range_end") s.metadata) r)

  -- data.get('strategy', 'hash')
  unfoldable pub strategy_or_hash : Option Text → Text
  strategy_or_hash none = codes "hash"
  strategy_or_hash (some name) = name

  unfoldable pub from_dict : RouterDict → Option ShardRouter
  unfolding new_router load_shards strategy_or_hash
  from_dict d = elim (new_router (strategy_or_hash d.strategy) 150) [
    | none ↦ none
    | some r ↦ some (load_shards d.shards r)
  ]
