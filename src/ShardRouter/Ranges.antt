-- ===== src/ShardRouter/Ranges.antt =====
-- shard_router.py, RangePartitioner: shards by ranges of keys.
pub mod Disjoint
use kos_db.Base.{
  Bool, true, false, not, ◌&&◌, ◌||◌, Option, none, some, List, [], ◌∷◌, ◌++◌, if◌then◌else◌,
  Result, ok, err, ◌==◌,
}
use kos_db.Dict.Removal.{among}
use kos_db.Text.{Text, text_key}
use kos_db.Text.Order.{text_ltb, sorted}
use kos_db.ShardRouter.{Shard, RingError, shard_not_found}

pub record Range : Type 0 where
  pub start : Option Text
  pub end : Option Text
  pub shard : Shard

-- x or ""
unfoldable pub or_empty : Option Text → Text
or_empty none = []
or_empty (some t) = t

-- the order of the tuples (x[0] or "", x[1] or "")
unfoldable pub range_precedes : Range → Range → Bool
unfolding or_empty text_ltb
range_precedes a b =
    text_ltb (or_empty a.start) (or_empty b.start)
    || or_empty a.start == or_empty b.start && text_ltb (or_empty a.end) (or_empty b.end)

unfoldable pub add_range : Option Text → Option Text → Shard → List Range → List Range
unfolding range_precedes sorted
add_range start end shard ranges =
    sorted range_precedes (ranges ++ record { start = start; end = end; shard = shard } ∷ [])

unfoldable pub remove_shard : Text → List Range → List Range
remove_shard shard_id [] = []
remove_shard shard_id (r ∷ ranges) =
    let rest = remove_shard shard_id ranges in
    if r.shard.shard_id == shard_id then rest else r ∷ rest

-- start is None or key >= start
unfoldable pub starts_before : Option Text → Text → Bool
unfolding text_ltb
starts_before none key = true
starts_before (some t) key = not (text_ltb key t)

-- end is None or key < end
unfoldable pub ends_after : Option Text → Text → Bool
unfolding text_ltb
ends_after none key = true
ends_after (some t) key = text_ltb key t

unfoldable pub contains : Text → Range → Bool
unfolding starts_before ends_after
contains key r = starts_before r.start key && ends_after r.end key

-- self.ranges[-1][2]
unfoldable pub last_shard : List Range → Result RingError Shard
last_shard [] = err shard_not_found
last_shard (r ∷ []) = ok r.shard
last_shard (r ∷ next ∷ ranges) = last_shard (next ∷ ranges)

-- the loop over the ranges, with what follows when none of them is the key's
unfoldable pub find_range : Text → Result RingError Shard → List Range → Result RingError Shard
unfolding contains
find_range key otherwise [] = otherwise
find_range key otherwise (r ∷ ranges) =
    let rest = find_range key otherwise ranges in if contains key r then ok r.shard else rest

unfoldable pub get_shard : Text → List Range → Result RingError Shard
unfolding find_range last_shard
get_shard key ranges = find_range key (last_shard ranges) ranges

-- The shards in the order of their ranges, each once; `seen` has the identifiers that were met.
unfoldable pub distinct_shards : List Text → List Range → List Shard
distinct_shards seen [] = []
distinct_shards seen (r ∷ ranges) = elim (among r.shard.shard_id seen) [
  | true ↦ distinct_shards seen ranges
  | false ↦ r.shard ∷ distinct_shards (r.shard.shard_id ∷ seen) ranges
]

unfoldable pub get_shards : List Range → List Shard
unfolding distinct_shards
get_shards ranges = distinct_shards [] ranges
