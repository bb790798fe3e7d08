-- ===== src/QueryCache/Executor.antt =====
-- query_cache.py, CachedQueryExecutor: queries through the cache. The database that is wrapped is
-- the parameter `execute_query`: what it answers, and its state afterwards.
pub mod Soundness
pub mod Coherence
pub mod Answers
use kos_db.Base.{
  ℕ, zero, suc, ◌≡◌, refl, sym, ap, ◌∙◌, Bool, true, false, ◌&&◌, Option, none, some, List, [], ◌∷◌,
  ◌++◌, if◌then◌else◌, Bool-cases, Option-cases, inl, inr, Result, ok, err, map, ==-refl, arith,
  ◌==◌,
}
use kos_db.Dict.{Dict, get, put, remove, get-put, get-remove}
use kos_db.Text.{Text, text_key, text_same, text_same_iff, codes}
use kos_db.Text.Prefix.{starts_with}
use kos_db.Text.Case.{upper, strip}
use kos_db.QueryCache.{
  QueryCache, CacheEntry, Entries, CacheError, lookup, get_result, store, put_result, is_expired,
  generate_key, new_entry, or_default, evict, new_cache, hit, invalidate_on_modify,
}
use kos_db.QueryCache.Lookup.{get_result-on, put_result-on}

pub record Executor (R S : Type 0) : Type 0 where
  pub cache : QueryCache R
  pub db : S

unfoldable pub is_select : Text → Bool
is_select query = starts_with (codes "SELECT") (upper (strip query))

module _ {R S : Type 0} (digest : Text → Text)
    (execute_query : Text → Option Text → S → Option R × S) where
  -- `self.cache.put`, whose exception passes through
  unfoldable pub cache_result :
      Bool
      → ℕ
      → Text
      → Option Text
      → Option R
      → Executor R S
      → Result CacheError (Option R) × Executor R S
  cache_result cacheable now query params result x =
      if cacheable && x.cache.enabled
      then (let (stored, cache) = put_result digest now query result params none x.cache in
          (elim stored [ err e ↦ err e | ok b ↦ ok result ], record x { cache = cache }))
      else (ok result, x)

  unfoldable pub run_query :
      Bool → ℕ → Text → Option Text → Executor R S → Result CacheError (Option R) × Executor R S
  unfolding cache_result
  run_query cacheable now query params x =
      let (result, db) = execute_query query params x.db in
      cache_result cacheable now query params result (record x { db = db })

  -- what the cache returned, unless that is None
  unfoldable pub use_cached :
      Bool
      → ℕ
      → Text
      → Option Text
      → Option R
      → Executor R S
      → Result CacheError (Option R) × Executor R S
  use_cached cacheable later query params (some r) x = (ok (some r), x)
  use_cached cacheable later query params none x = run_query cacheable later query params x

  unfoldable pub execute_with :
      Bool → ℕ → ℕ → Text → Option Text → Executor R S → Result CacheError (Option R) × Executor R S
  unfolding use_cached
  execute_with cacheable now later query params x =
      if cacheable && x.cache.enabled
      then (let (cached, cache) = get_result digest now query params x.cache in
          use_cached cacheable later query params cached (record x { cache = cache }))
      else run_query cacheable later query params x

  -- `now` is when the cache is asked, `later` when the result is there.
  unfoldable pub execute :
      ℕ → ℕ → Bool → Text → Option Text → Executor R S → Result CacheError (Option R) × Executor R S
  unfolding is_select execute_with
  execute now later use_cache query params x =
      execute_with (use_cache && is_select query) now later query params x

  unfoldable pub invalidate_table : Text → Executor R S → ℕ × Executor R S
  invalidate_table table_name x =
      let (count, cache) = invalidate_on_modify table_name x.cache in
      (count, record x { cache = cache })
