-- ===== src/ShardRouter/Router/Registered.antt =====
-- shard_router.py, ShardRouter: registered shards, and what keeps them registered.
use kos_db.Base.{
  ℕ, ◌≡◌, refl, ◌∙◌, true, false, Option, none, some, List, [], ◌∷◌, Result, ok, err, ◌==◌, arith,
  nat_key, All, if-both, Bool-cases, inl, inr, ==-refl,
}
use kos_db.Dict.{Dict, get, put, remove, has, has-put, has-remove}
use kos_db.Dict.Distinct.{IsDistinct}
use kos_db.Text.{Text, text_key, text_same_iff}
use kos_db.Text.Order.{sorted, insert_sorted}
use kos_db.ShardRouter.{Shard, RingError, ConsistentHashRing}
use kos_db.ShardRouter.Ranges as Ranges
use kos_db.ShardRouter.Router.{ShardRouter, Strategy}

-- The shard is registered under its identifier.
abbrev pub IsRegistered : Dict Text Shard → Shard → Type 0
IsRegistered shards s = has s.shard_id shards ≡ true

-- The shards of ranges are registered.
abbrev pub AreRegistered : Dict Text Shard → List Ranges.Range → Type 0
AreRegistered shards ranges = All (λ (r : Ranges.Range). IsRegistered shards r.shard) ranges

-- What may be returned is registered.
abbrev pub IsRegisteredAny : Dict Text Shard → Result RingError Shard → Type 0
IsRegisteredAny shards (ok s) = IsRegistered shards s
IsRegisteredAny shards (err e) = Unit

-- What an entry has is registered.
abbrev pub IsRegisteredEntry : Dict Text Shard → Option Shard → Type 0
IsRegisteredEntry shards none = Unit
IsRegisteredEntry shards (some s) = IsRegistered shards s

-- Shards on the ring are registered.
pub record IsRegularRing (shards : Dict Text Shard) (ring : ConsistentHashRing) : Type 0 where
  pub distinct : IsDistinct ring.ring
  pub on_ring : (h : ℕ) (s : Shard) → get h ring.ring ≡ some s → IsRegistered shards s

-- What a router of this strategy routes to is registered.
abbrev pub IsRegularAs : Strategy → ShardRouter → Type 0
IsRegularAs Strategy.hashed r = IsRegularRing r.shards r.hash_ring
IsRegularAs Strategy.ranged r = AreRegistered r.shards r.range_partitioner

abbrev pub IsRegular : ShardRouter → Type 0
IsRegular r = IsRegularAs r.strategy r

abbrev pub IsRegularAny : Option ShardRouter → Type 0
IsRegularAny none = Unit
IsRegularAny (some r) = IsRegular r

pub put-IsRegistered :
    (shard s : Shard) (shards : Dict Text Shard)
    → IsRegistered shards s
    → IsRegistered (put shard.shard_id shard shards) s
put-IsRegistered shard s shards h =
    ground (arith, has-put shard.shard_id s.shard_id shard shards, h)

pub put-IsRegistered_self :
    (shard : Shard) (shards : Dict Text Shard)
    → IsRegistered (put shard.shard_id shard shards) shard
put-IsRegistered_self shard shards =
    has-put shard.shard_id shard.shard_id shard shards ∙ rw (==-refl shard.shard_id) refl

pub remove-IsRegistered :
    (x : Text) (s : Shard) (shards : Dict Text Shard)
    → (s.shard_id == x) ≡ false
    → IsRegistered shards s
    → IsRegistered (remove x shards) s
remove-IsRegistered x s shards other h = ground (
  arith,
  has-remove x s.shard_id shards,
  text_same_iff x s.shard_id,
  text_same_iff s.shard_id x,
  other,
  h,
)

-- Sorting keeps what holds of all ranges.
pub insert-All :
    (P : Ranges.Range → Type 0) (r : Ranges.Range) (ranges : List Ranges.Range)
    → P r
    → All P ranges
    → All P (insert_sorted Ranges.range_precedes r ranges)
unfolding insert_sorted
insert-All P r [] h all = (h, tt)
insert-All P r (x ∷ ranges) h all =
    if-both (All P) (Ranges.range_precedes x r) (all.0, insert-All P r ranges h all.1) (h, all)

pub sorted-All :
    (P : Ranges.Range → Type 0) (ranges : List Ranges.Range)
    → All P ranges
    → All P (sorted Ranges.range_precedes ranges)
unfolding sorted
sorted-All P [] all = tt
sorted-All P (r ∷ ranges) all =
    insert-All P r (sorted Ranges.range_precedes ranges) all.0 (sorted-All P ranges all.1)

pub remove_shard-AreRegistered :
    (x : Text) (shards : Dict Text Shard) (ranges : List Ranges.Range)
    → AreRegistered shards ranges
    → AreRegistered (remove x shards) (Ranges.remove_shard x ranges)
unfolding Ranges.remove_shard
remove_shard-AreRegistered x shards [] all = tt
remove_shard-AreRegistered x shards (r ∷ ranges) all = elim (Bool-cases (r.shard.shard_id == x)) [
  | inl e ↦ rw (Ranges.remove_shard, e) (remove_shard-AreRegistered x shards ranges all.1)
  | inr e ↦
      rw (Ranges.remove_shard, e)
        (
          remove-IsRegistered x r.shard shards e all.0,
          remove_shard-AreRegistered x shards ranges all.1,
        )
]

pub last_shard-IsRegisteredAny :
    (shards : Dict Text Shard) (ranges : List Ranges.Range)
    → AreRegistered shards ranges
    → IsRegisteredAny shards (Ranges.last_shard ranges)
unfolding Ranges.last_shard
last_shard-IsRegisteredAny shards [] all = tt
last_shard-IsRegisteredAny shards (r ∷ []) all = all.0
last_shard-IsRegisteredAny shards (r ∷ next ∷ ranges) all =
    last_shard-IsRegisteredAny shards (next ∷ ranges) all.1

pub find_range-IsRegisteredAny :
    (key : Text) (shards : Dict Text Shard) (otherwise : Result RingError Shard)
    (ranges : List Ranges.Range)
    → IsRegisteredAny shards otherwise
    → AreRegistered shards ranges
    → IsRegisteredAny shards (Ranges.find_range key otherwise ranges)
unfolding Ranges.find_range
find_range-IsRegisteredAny key shards otherwise [] o all = o
find_range-IsRegisteredAny key shards otherwise (r ∷ ranges) o all =
    if-both (IsRegisteredAny shards) (Ranges.contains key r) all.0
      (find_range-IsRegisteredAny key shards otherwise ranges o all.1)
