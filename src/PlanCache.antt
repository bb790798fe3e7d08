-- ===== src/PlanCache.antt =====
-- query_plan_cache.py: QueryPlanCache. `digest` is the hexadecimal SHA-256 of a text, `Plan` what a
-- parsed query is, and times are arguments. Sets are lists; the order in which a set is gone
-- through does not matter here.
pub mod Index
pub mod Indexed
pub mod Dependents
mod Examples
use kos_db.Base.{
  ℕ, suc, ◌+◌, Bool, true, false, not, ◌&&◌, Option, none, some, List, [], ◌∷◌, if◌then◌else◌,
  length, nat_eq, ltb, leb, ◌==◌,
}
use kos_db.Dict.{Dict, get, put, remove, has}
use kos_db.Dict.Removal.{among}
use kos_db.Text.{Text, text_key}
use kos_db.Text.Case.{lower, strip}

pub record CachedPlan (Plan : Type 0) : Type 0 where
  pub query_hash : Text
  pub original_query : Text
  pub parsed_plan : Plan
  pub table_dependencies : List Text
  pub cache_time : ℕ
  pub hit_count : ℕ
  pub last_accessed : ℕ

pub record QueryPlanCache (Plan : Type 0) : Type 0 where
  pub capacity : ℕ
  -- in seconds; None and 0 are no limit
  pub ttl : ℕ
  pub cache : Dict Text (CachedPlan Plan)
  pub table_index : Dict Text (List Text)
  pub hits : ℕ
  pub misses : ℕ
  pub evictions : ℕ
  pub invalidations : ℕ

-- hashes.discard(h)
unfoldable pub discard : Text → List Text → List Text
discard h [] = []
discard h (x ∷ xs) = let rest = discard h xs in if x == h then rest else x ∷ rest

-- hashes.add(h)
unfoldable pub add_hash : Text → List Text → List Text
add_hash h hashes = if among h hashes then hashes else h ∷ hashes

unfoldable pub hashes_of : Text → Dict Text (List Text) → List Text
hashes_of table index = elim (get table index) [ none ↦ [] | some hashes ↦ hashes ]

-- the loop of put over the tables
unfoldable pub index_tables : Text → List Text → Dict Text (List Text) → Dict Text (List Text)
unfolding add_hash hashes_of
index_tables h [] index = index
index_tables h (table ∷ tables) index =
    index_tables h tables (put table (add_hash h (hashes_of table index)) index)

-- A set that has become empty is deleted.
unfoldable pub set_or_delete : Text → List Text → Dict Text (List Text) → Dict Text (List Text)
set_or_delete table [] index = remove table index
set_or_delete table (x ∷ xs) index = put table (x ∷ xs) index

unfoldable pub unindex_table : Text → Text → Dict Text (List Text) → Dict Text (List Text)
unfolding discard set_or_delete
unindex_table h table index = elim (get table index) [
  | none ↦ index
  | some hashes ↦ set_or_delete table (discard h hashes) index
]

-- the loop of _evict over the tables
unfoldable pub unindex_tables : Text → List Text → Dict Text (List Text) → Dict Text (List Text)
unfolding unindex_table
unindex_tables h [] index = index
unindex_tables h (table ∷ tables) index = unindex_tables h tables (unindex_table h table index)

-- An entry without hashes is deleted.
unfoldable pub keep_entry : Text → List Text → Dict Text (List Text) → Dict Text (List Text)
keep_entry table [] rest = rest
keep_entry table (x ∷ xs) rest = (table, x ∷ xs) ∷ rest

-- the loop of _evict_lru over all entries
unfoldable pub unindex_all : Text → Dict Text (List Text) → Dict Text (List Text)
unfolding discard keep_entry
unindex_all h [] = []
unindex_all h ((table, hashes) ∷ index) = keep_entry table (discard h hashes) (unindex_all h index)

module _ (digest : Text → Text) where
  unfoldable pub generate_hash : Text → Text
  generate_hash query = digest (lower (strip query))

module _ {Plan : Type 0} where
  unfoldable pub touch : ℕ → CachedPlan Plan → CachedPlan Plan
  touch now plan = record plan { last_accessed = now; hit_count = suc plan.hit_count }

  unfoldable pub evict : Text → QueryPlanCache Plan → QueryPlanCache Plan
  unfolding unindex_tables
  evict h c = elim (get h c.cache) [
    | none ↦ c
    | some plan ↦ record c {
      table_index = unindex_tables h plan.table_dependencies c.table_index;
      cache = remove h c.cache;
      evictions = suc c.evictions;
    }
  ]

  -- the key that popitem(last=False) takes out
  unfoldable pub oldest : Dict Text (CachedPlan Plan) → Option Text
  oldest [] = none
  oldest ((h, plan) ∷ cache) = some h

  unfoldable pub evict_lru : QueryPlanCache Plan → QueryPlanCache Plan
  unfolding oldest unindex_all
  evict_lru c = elim (oldest c.cache) [
    | none ↦ c
    | some h ↦ record c {
      cache = remove h c.cache;
      table_index = unindex_all h c.table_index;
      evictions = suc c.evictions;
    }
  ]

  unfoldable pub evict_all : List Text → QueryPlanCache Plan → QueryPlanCache Plan
  unfolding evict
  evict_all [] c = c
  evict_all (h ∷ hashes) c = evict_all hashes (evict h c)

  unfoldable pub count_invalidated : ℕ → QueryPlanCache Plan → QueryPlanCache Plan
  count_invalidated n c = record c { invalidations = c.invalidations + n }

  -- A table without entry has no plan to evict.
  unfoldable pub invalidate_table : Text → QueryPlanCache Plan → QueryPlanCache Plan
  unfolding evict_all count_invalidated hashes_of
  invalidate_table table_name c =
      let hashes = hashes_of table_name c.table_index in
      count_invalidated (length hashes) (evict_all hashes c)

  unfoldable pub invalidate_all : QueryPlanCache Plan → QueryPlanCache Plan
  invalidate_all c = record c {
    cache = [];
    table_index = [];
    invalidations = c.invalidations + length c.cache;
  }

  unfoldable pub new_cache : ℕ → ℕ → QueryPlanCache Plan
  new_cache capacity ttl = record {
    capacity = capacity;
    ttl = ttl;
    cache = [];
    table_index = [];
    hits = 0;
    misses = 0;
    evictions = 0;
    invalidations = 0;
  }

  -- ttl is set and now - cache_time is over it
  unfoldable pub is_expired : ℕ → ℕ → CachedPlan Plan → Bool
  is_expired now ttl plan = not (nat_eq ttl 0) && ltb (plan.cache_time + ttl) now

  unfoldable pub miss : QueryPlanCache Plan → QueryPlanCache Plan
  miss c = record c { misses = suc c.misses }

  -- move_to_end and the touched plan
  unfoldable pub hit : Text → CachedPlan Plan → QueryPlanCache Plan → QueryPlanCache Plan
  hit h plan c = record c { cache = put h plan (remove h c.cache); hits = suc c.hits }

  unfoldable pub get_hash :
      ℕ → Text → QueryPlanCache Plan → Option (CachedPlan Plan) × QueryPlanCache Plan
  unfolding is_expired evict miss hit touch
  get_hash now h c = elim (get h c.cache) [
    | none ↦ (none, miss c)
    | some plan ↦
        if is_expired now c.ttl plan
        then (none, miss (evict h c))
        else (some (touch now plan), hit h (touch now plan) c)
  ]

  -- the eviction before an insertion
  unfoldable pub make_room : Text → QueryPlanCache Plan → QueryPlanCache Plan
  unfolding evict_lru
  make_room h c = if leb c.capacity (length c.cache) && not (has h c.cache) then evict_lru c else c

  unfoldable pub store : CachedPlan Plan → QueryPlanCache Plan → QueryPlanCache Plan
  unfolding index_tables
  store plan c = record c {
    cache = put plan.query_hash plan c.cache;
    table_index = index_tables plan.query_hash plan.table_dependencies c.table_index;
  }

  module _ (digest : Text → Text) where
    unfoldable pub get_plan :
        ℕ → Text → QueryPlanCache Plan → Option (CachedPlan Plan) × QueryPlanCache Plan
    unfolding generate_hash get_hash
    get_plan now query c = get_hash now (generate_hash digest query) c

    unfoldable pub new_plan : ℕ → Text → Plan → List Text → CachedPlan Plan
    unfolding generate_hash
    new_plan now query parsed tables = record {
      query_hash = generate_hash digest query;
      original_query = query;
      parsed_plan = parsed;
      table_dependencies = tables;
      cache_time = now;
      hit_count = 0;
      last_accessed = now;
    }

    unfoldable pub put_plan :
        ℕ → Text → Plan → List Text → QueryPlanCache Plan → CachedPlan Plan × QueryPlanCache Plan
    unfolding new_plan make_room store
    put_plan now query parsed tables c =
        let plan = new_plan now query parsed tables in
        (plan, store plan (make_room plan.query_hash c))
