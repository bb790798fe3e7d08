-- ===== src/QueryCache/Executor/Coherence.antt =====
-- query_cache.py, CachedQueryExecutor: the cache does not change the answers.
use kos_db.Base.{
  ℕ, suc, ◌≡◌, refl, sym, ap, ◌∙◌, true, Option, none, some, Bool-cases, Option-cases, inl, inr,
  Result, ok, ◌==◌, if-true,
}
use kos_db.Text.{Text, text_key, text_same_iff}
use kos_db.QueryCache.{
  QueryCache, CacheEntry, CacheError, lookup, store, generate_key, new_entry, or_default,
}
use kos_db.QueryCache.Lookup.{get_result-on, store-enabled, lookup-enabled}
use kos_db.QueryCache.Bounds.{IsBounded, lookup-IsBounded, store-IsBounded}
use kos_db.QueryCache.Executor.{Executor, is_select, run_query, use_cached, execute_with, execute}
use kos_db.QueryCache.Executor.Soundness.{
  get-evict, lookup-IsCoherent, lookup-answer, stored, cache_result-stores, get-store_other, answer,
  IsCoherent, IsSound,
}

module _ {R S : Type 0} (digest : Text → Text)
    (execute_query : Text → Option Text → S → Option R × S) where
  module _ (Asked : Text → Option Text → Type 0)
      -- what is asked are SELECTs
      (selects : (query : Text) (params : Option Text)
        → Asked query params
        → is_select query ≡ true)
      -- a SELECT does not change the database
      (reads : (query : Text) (params : Option Text) (s : S)
        → is_select query ≡ true
        → (execute_query query params s).1 ≡ s)
      -- what is asked under one key has one answer
      (keyed : (query other : Text) (params params2 : Option Text) (s : S)
        → Asked query params
        → Asked other params2
        → generate_key digest query params ≡ generate_key digest other params2
        → answer digest execute_query query params s
          ≡ answer digest execute_query other params2 s) where
    store-IsCoherent :
        (m now ttl : ℕ) (query : Text) (params : Option Text) (c : QueryCache R) (s : S)
        → IsBounded m c
        → IsCoherent digest execute_query Asked c s
        → Asked query params
        → let key = generate_key digest query params in
          IsCoherent digest execute_query Asked
            (store digest key
              (new_entry digest now key query (answer digest execute_query query params s) ttl)
              c).1
            s
    store-IsCoherent m now ttl query params c s bounded h sel k x get_x other params2 sel2 same =
        let key = generate_key digest query params in
        let e = new_entry digest now key query (answer digest execute_query query params s) ttl in
        let found = sym (get-store_other digest execute_query m key k e c bounded.0) ∙ get_x in
        elim (Bool-cases (key == k)) [
          | inl here ↦
              ap (λ (o : Option (CacheEntry R)). elim o [ none ↦ x.result | some z ↦ z.result ])
                (sym (rw here at found))
              ∙ keyed query other params params2 s sel sel2
                  ((text_same_iff key k).0 here ∙ sym same)
          | inr differ ↦
              h k x (get-evict (suc m) 0 c.cache k x bounded.2 (rw differ at found)) other params2
                sel2 same
        ]

    run_query-stores :
        (m now : ℕ) (query : Text) (params : Option Text) (x : Executor R S)
        → x.cache.enabled ≡ true
        → x.cache.max_size ≡ suc m
        → is_select query ≡ true
        → run_query digest execute_query true now query params x ≡ (
          ok (answer digest execute_query query params x.db),
          record x {
            cache =
                stored digest execute_query now query params
                  (answer digest execute_query query params x.db)
                  x.cache;
          },
        )
    unfolding run_query
    run_query-stores m now query params x on size sel =
        rw (run_query, reads query params x.db sel)
          (cache_result-stores digest execute_query m now query params
            (answer digest execute_query query params x.db) x on size)

    -- The result is the database's answer, the database is as before, and the cache stays sound.
    abbrev pub IsAnswer :
        ℕ → Text → Option Text → S → Result CacheError (Option R) × Executor R S → Type 0
    IsAnswer m query params s r =
        (r.0 ≡ ok (answer digest execute_query query params s))
        × (r.1.db ≡ s)
        × IsSound digest execute_query Asked m r.1

    run_query-IsAnswer :
        (m now : ℕ) (query : Text) (params : Option Text) (x : Executor R S)
        → IsSound digest execute_query Asked m x
        → Asked query params
        → IsAnswer m query params x.db (run_query digest execute_query true now query params x)
    run_query-IsAnswer m now query params x sound sel =
        let key = generate_key digest query params in
        let ttl = or_default none x.cache.default_ttl in
        let e =
          new_entry digest now key query (answer digest execute_query query params x.db) ttl in
        rw (run_query-stores m now query params x sound.1 sound.0.0 (selects query params sel)) (
          refl,
          refl,
          (
            store-IsBounded digest m key e x.cache sound.0,
            store-enabled digest key e m x.cache sound.0.0 ∙ sound.1,
            store-IsCoherent m now ttl query params x.cache x.db sound.0 sound.2 sel,
          ),
        )

    execute-asked :
        (now later : ℕ) (query : Text) (params : Option Text) (x : Executor R S)
        → x.cache.enabled ≡ true
        → is_select query ≡ true
        → let asked = lookup digest now (generate_key digest query params) x.cache in
          execute digest execute_query now later true query params x
          ≡ use_cached digest execute_query true later query params asked.0
              (record x { cache = asked.1 })
    unfolding execute execute_with
    execute-asked now later query params x on sel =
        rw (execute, sel)
          (if-true x.cache.enabled _ _ on
            ∙ rw (get_result-on digest now query params x.cache on) refl)

    pub execute-IsAnswer :
        (m now later : ℕ) (query : Text) (params : Option Text) (x : Executor R S)
        → IsSound digest execute_query Asked m x
        → Asked query params
        → IsAnswer m query params x.db (execute digest execute_query now later true query params x)
    unfolding use_cached
    execute-IsAnswer m now later query params x sound sel =
        let key = generate_key digest query params in
        let asked = lookup digest now key x.cache in
        let left : Executor R S = record x { cache = asked.1 } in
        let sound2 : IsSound digest execute_query Asked m left = (
          lookup-IsBounded digest m now key x.cache sound.0,
          lookup-enabled digest now key x.cache ∙ sound.1,
          lookup-IsCoherent digest execute_query Asked now key x.cache x.db sound.2,
        ) in
        rw (execute-asked now later query params x sound.1 (selects query params sel))
          elim (Option-cases asked.0) [
            | inl e ↦ rw (e, use_cached) (run_query-IsAnswer m later query params left sound2 sel)
            | inr e ↦
                rw (e.1, use_cached)
                  (
                    ap ok (
                        sym (
                          lookup-answer digest execute_query Asked now query params e.0 x.cache x.db
                            sound.2 sel e.1)),
                    refl,
                    sound2,
                  )
          ]
