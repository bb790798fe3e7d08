-- ===== src/ShardRouter/Router/Examples.antt =====
-- shard_router.py: routers of two shards, with the sum of the codes of a text as its hash.
use kos_db.Base.{ℕ, ◌+◌, ◌≡◌, refl, true, none, some, List, [], ◌∷◌, ok}
use kos_db.Text.{Text, text_key, codes}
use kos_db.ShardRouter.{Shard}
use kos_db.ShardRouter.Ranges as Ranges
use kos_db.ShardRouter.Ranges.Disjoint.{add_ranges, is_covered, get_shard-add_ranges}
use kos_db.ShardRouter.Router.{
  ShardRouter, Strategy, new_router, add_shard, remove_shard, get_shard_for_key, to_dict, from_dict,
}
use kos_db.ShardRouter.Router.Registered.{IsRegisteredAny}
use kos_db.ShardRouter.Router.Routes.{Reaches, get_shard_for_key-registered}
use kos_db.ShardRouter.Router.Copies.{from_dict-to_dict}

abbrev code_sum : Text → ℕ
code_sum [] = 0
code_sum (c ∷ t) = c + code_sum t

abbrev shard : Text → Shard
shard id = record {
  shard_id = id;
  host = codes "localhost";
  port = 9000;
  region = codes "default";
  role = codes "primary";
  weight = 100;
  active = true;
  metadata = [];
}

abbrev low : Shard
low = shard (codes "low")

abbrev high : Shard
high = shard (codes "high")

-- from m on, and below m; the first comes first
abbrev ranges : List Ranges.Range
ranges =
    record { start = some (codes "m"); end = none; shard = high }
    ∷ record { start = none; end = some (codes "m"); shard = low }
    ∷ []

get_shard-add_ranges_example : Ranges.get_shard (codes "bob") (add_ranges ranges []) ≡ ok low
unfolding is_covered Ranges.contains Ranges.starts_before Ranges.ends_after
get_shard-add_ranges_example =
    get_shard-add_ranges (codes "bob") low ranges refl (λ h. cc, (λ h. refl, tt))

-- a router of these ranges
abbrev two : ShardRouter
two = record {
  strategy = Strategy.ranged;
  hash_ring = record { replicas = 150; ring = []; sorted_keys = [] };
  range_partitioner = ranges;
  shards = (codes "low", low) ∷ (codes "high", high) ∷ [];
}

from_dict-to_dict_example :
    (copy : ShardRouter) × (from_dict code_sum (to_dict two) ≡ some copy)
    × (get_shard_for_key code_sum (codes "zoe") copy ≡ ok low)
unfolding kos_db.Dict.get
from_dict-to_dict_example =
    from_dict-to_dict code_sum two (codes "low") (codes "zoe") low ((codes "high", high) ∷ []) refl
      refl (refl, refl, (refl, refl, tt))

abbrev empty : ShardRouter
empty = record {
  strategy = Strategy.hashed;
  hash_ring = record { replicas = 1; ring = []; sorted_keys = [] };
  range_partitioner = [];
  shards = [];
}

abbrev history : ShardRouter
unfolding remove_shard add_shard
history =
    remove_shard code_sum (codes "high")
      (add_shard code_sum high none none (add_shard code_sum low none none empty))

get_shard_for_key-registered_example :
    IsRegisteredAny history.shards (get_shard_for_key code_sum (codes "zoe") history)
unfolding new_router history
get_shard_for_key-registered_example = get_shard_for_key-registered code_sum (codes "zoe") (
    Reaches.removed (codes "high") (
      Reaches.added high none none
        (Reaches.added low none none (Reaches.init (codes "hash") 1 refl))))
