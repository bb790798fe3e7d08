-- ===== src/ShardRouter/Router/Copies.antt =====
-- shard_router.py, ShardRouter: what from_dict makes of what to_dict wrote.
use kos_db.Base.{
  ℕ, ◌≡◌, refl, sym, ap, ◌∙◌, false, none, some, List, [], ◌∷◌, ◌++◌, append_assoc, append-nil, ok,
}
use kos_db.Dict.{Dict, get, put, remove, has-of_none, remove-absent}
use kos_db.Text.{Text, text_key, codes}
use kos_db.Text.Order.{sorted, insert_sorted, text_ltb}
use kos_db.ShardRouter.{Shard, RingError, ConsistentHashRing}
use kos_db.ShardRouter.Ranges.{
  Range, range_precedes, add_range, contains, find_range, get_shard, or_empty, starts_before,
  ends_after,
}
use kos_db.ShardRouter.Router.{
  ShardRouter, Strategy, strategy_name, new_router, to_dict, from_dict, load_shards, without_range,
  add_shard, get_shard_for_key,
}

-- The metadata does not name the bounds of the shard's range.
abbrev pub IsUnbounded : Dict Text Shard → Type 0
IsUnbounded [] = Unit
IsUnbounded ((sid, s) ∷ shards) =
    (get (codes "range_start") s.metadata ≡ none)
    × (get (codes "range_end") s.metadata ≡ none)
    × IsUnbounded shards

-- One range for all keys for each of the shards.
unfoldable everywhere : Dict Text Shard → List Range
unfolding without_range
everywhere [] = []
everywhere ((sid, s) ∷ shards) =
    record { start = none; end = none; shard = without_range s } ∷ everywhere shards

-- All ranges are those of all keys.
IsEverywhere : List Range → Type 0
IsEverywhere [] = Unit
IsEverywhere (r ∷ ranges) = (r.start ≡ none) × (r.end ≡ none) × IsEverywhere ranges

precedes_everywhere :
    (x r : Range)
    → x.start ≡ none
    → x.end ≡ none
    → r.start ≡ none
    → r.end ≡ none
    → range_precedes x r ≡ false
unfolding range_precedes or_empty text_ltb
precedes_everywhere x r xs xe rs re = rw (range_precedes, xs, xe, rs, re) refl

insert_everywhere :
    (r : Range) (ranges : List Range)
    → r.start ≡ none
    → r.end ≡ none
    → IsEverywhere ranges
    → insert_sorted range_precedes r ranges ≡ r ∷ ranges
unfolding insert_sorted IsEverywhere
insert_everywhere r [] start end h = refl
insert_everywhere r (x ∷ ranges) start end h = rw (precedes_everywhere x r h.0 h.1 start end) refl

sorted_everywhere :
    (ranges : List Range) → IsEverywhere ranges → sorted range_precedes ranges ≡ ranges
unfolding sorted IsEverywhere
sorted_everywhere [] h = refl
sorted_everywhere (r ∷ ranges) h =
    rw (sorted_everywhere ranges h.2) (insert_everywhere r ranges h.0 h.1 h.2)

append-IsEverywhere :
    (ranges : List Range) (s : Shard)
    → IsEverywhere ranges
    → IsEverywhere (ranges ++ record { start = none; end = none; shard = s } ∷ [])
unfolding IsEverywhere
append-IsEverywhere [] s h = (refl, refl, tt)
append-IsEverywhere (r ∷ ranges) s h = (h.0, h.1, append-IsEverywhere ranges s h.2)

-- A router by ranges.
abbrev ranged_router : ConsistentHashRing → List Range → Dict Text Shard → ShardRouter
ranged_router ring ranges shards = record {
  strategy = Strategy.ranged;
  hash_ring = ring;
  range_partitioner = ranges;
  shards = shards;
}

module _ (hash : Text → ℕ) where
  load_shards_unbounded :
      (ring : ConsistentHashRing) (shards d : Dict Text Shard) (ranges : List Range)
      → IsUnbounded shards
      → IsEverywhere ranges
      → (e : Dict Text Shard) × (load_shards hash shards (ranged_router ring ranges d)
          ≡ ranged_router ring (ranges ++ everywhere shards) e)
  unfolding load_shards everywhere add_shard add_range
  load_shards_unbounded ring [] d ranges u h =
      (d, ap (λ x. ranged_router ring x d) (sym (append-nil ranges)))
  load_shards_unbounded ring ((sid, s) ∷ shards) d ranges u h =
      let here : Range = record { start = none; end = none; shard = without_range s } in
      let later =
        load_shards_unbounded ring shards (put s.shard_id (without_range s) d) (ranges ++ here ∷ [])
          u.2 (append-IsEverywhere ranges (without_range s) h) in
      (
        later.0,
        rw (load_shards, u.0, u.1)
            (ap
                (λ x.
                  load_shards hash shards
                    (ranged_router ring x (put s.shard_id (without_range s) d)))
                (sorted_everywhere (ranges ++ here ∷ [])
                  (append-IsEverywhere ranges (without_range s) h))
              ∙ later.1
              ∙ ap (λ x. ranged_router ring x later.0)
                  (append_assoc ranges (here ∷ []) (everywhere shards))),
      )

  without_range_unbounded :
      (s : Shard)
      → get (codes "range_start") s.metadata ≡ none
      → get (codes "range_end") s.metadata ≡ none
      → without_range s ≡ s
  unfolding without_range
  without_range_unbounded s start end =
      ap (λ (m : Dict Text Text). record s { metadata = m })
        (ap (remove (codes "range_end")) (
            remove-absent (codes "range_start") s.metadata
              (has-of_none (codes "range_start") s.metadata start))
          ∙ remove-absent (codes "range_end") s.metadata
              (has-of_none (codes "range_end") s.metadata end))

  -- A router of ranges that is written and read again sends every key to the shard that was
  -- registered first, unless the bounds of the ranges stand in the metadata of the shards.
  pub from_dict-to_dict :
      (r : ShardRouter) (id key : Text) (s : Shard) (rest : Dict Text Shard)
      → r.strategy ≡ Strategy.ranged
      → r.shards ≡ (id, s) ∷ rest
      → IsUnbounded ((id, s) ∷ rest)
      → (copy : ShardRouter) × (from_dict hash (to_dict r) ≡ some copy)
        × (get_shard_for_key hash key copy ≡ ok s)
  unfolding IsEverywhere from_dict to_dict new_router strategy_name
      kos_db.ShardRouter.Router.strategy_of kos_db.ShardRouter.Router.strategy_or_hash
      get_shard_for_key everywhere get_shard find_range contains starts_before ends_after
  from_dict-to_dict r id key s rest ranged first u =
      let ring : ConsistentHashRing = record { replicas = 150; ring = []; sorted_keys = [] } in
      let loaded = load_shards_unbounded ring ((id, s) ∷ rest) [] [] u tt in
      (
        ranged_router ring (everywhere ((id, s) ∷ rest)) loaded.0,
        rw (ranged, first) (ap (λ (x : ShardRouter). some x) loaded.1),
        ap ok (without_range_unbounded s u.0 u.1),
      )
