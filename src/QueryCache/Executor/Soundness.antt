-- ===== src/QueryCache/Executor/Soundness.antt =====
-- query_cache.py: the entries of a cache in front of a database.
use kos_db.Base.{
  ℕ, suc, ◌≡◌, refl, sym, ap, subst, ◌∙◌, true, Option, none, some, [], ◌∷◌, ◌++◌, if◌then◌else◌,
  Bool-cases, Option-cases, inl, inr, ok, arith, ◌==◌, if-true,
}
use kos_db.Dict.{get, remove, get-put, get-remove, has-of_get}
use kos_db.Dict.Distinct.{IsDistinct}
use kos_db.Text.{Text, text_key, text_same_iff}
use kos_db.QueryCache.{
  QueryCache, CacheEntry, Entries, lookup, store, is_expired, generate_key, new_entry, or_default,
  evict, hit,
}
use kos_db.QueryCache.Lookup.{put_result-on, lookup-missing, lookup-found}
use kos_db.QueryCache.Bounds.{IsBounded}
use kos_db.QueryCache.Executor.{Executor, cache_result}

module _ {R : Type 0} where
  pub get-evict :
      (m gone : ℕ) (d : Entries R) (k : Text) (e : CacheEntry R)
      → IsDistinct d
      → get k (evict m d gone).0 ≡ some e
      → get k d ≡ some e
  unfolding evict get
  get-evict m gone [] k e distinct h = h
  get-evict m gone ((j, x) ∷ d) k e distinct h =
      ground (arith, text_same_iff j k, get-evict m (suc gone) d k e distinct.1, has-of_get k e d)

  get-append :
      (k a : Text) (e : CacheEntry R) (d : Entries R)
      → get k (d ++ (a, e) ∷ [])
        ≡ elim (get k d) [ none ↦ (if a == k then some e else none) | some x ↦ some x ]
  unfolding get
  get-append k a e [] = refl
  get-append k a e ((j, x) ∷ d) = ground (arith, get-append k a e d)

module _ {R S : Type 0} (digest : Text → Text)
    (execute_query : Text → Option Text → S → Option R × S) where
  abbrev pub answer : Text → Option Text → S → Option R
  answer query params s = (execute_query query params s).0

  -- Which queries, with their parameters, are asked.
  abbrev pub Asking : Type 1
  Asking = Text → Option Text → Type 0

  -- Every entry has the answer to each query with its key that is asked.
  abbrev pub IsCoherent : Asking → QueryCache R → S → Type 0
  IsCoherent Asked c s =
      (k : Text) (e : CacheEntry R)
      → get k c.cache ≡ some e
      → (query : Text) (params : Option Text) → Asked query params
      → generate_key digest query params ≡ k
      → e.result ≡ answer query params s

  get-hit :
      (key k : Text) (e x : CacheEntry R) (c : QueryCache R)
      → get key c.cache ≡ some e
      → get k (hit digest key e c).1.cache ≡ some x
      → (y : CacheEntry R) × (get k c.cache ≡ some y) × (y.result ≡ x.result)
  get-hit key k e x c found get_x =
      let used = record e { hit_count = suc e.hit_count } in
      let here = sym (get-append k key used (remove key c.cache)) ∙ get_x in
      let there = get-remove key k c.cache in
      elim (Bool-cases (key == k)) [
        | inl same ↦ (
          e,
          subst (λ j. get j c.cache ≡ some e) ((text_same_iff key k).0 same) found,
          ap (λ (o : Option (CacheEntry R)). elim o [ none ↦ e.result | some z ↦ z.result ])
              (rw (there, same, same) at here),
        )
        | inr other ↦ (x, ground (arith, rw (there, other) at here), refl)
      ]

  hit-IsCoherent :
      (Asked : Asking) (key : Text) (e : CacheEntry R) (c : QueryCache R) (s : S)
      → get key c.cache ≡ some e
      → IsCoherent Asked c s
      → IsCoherent Asked (hit digest key e c).1 s
  hit-IsCoherent Asked key e c s found h k x get_x query params sel same =
      let (y, get_y, results) = get-hit key k e x c found get_x in
      sym results ∙ h k y get_y query params sel same

  remove-IsCoherent :
      (Asked : Asking) (key : Text) (n : ℕ) (c : QueryCache R) (s : S)
      → IsCoherent Asked c s
      → IsCoherent Asked (record c { cache = remove key c.cache; misses = n }) s
  remove-IsCoherent Asked key n c s h k x get_x query params sel same =
      h k x (ground (arith, get-remove key k c.cache)) query params sel same

  pub lookup-IsCoherent :
      (Asked : Asking) (now : ℕ) (key : Text) (c : QueryCache R) (s : S)
      → IsCoherent Asked c s
      → IsCoherent Asked (lookup digest now key c).1 s
  unfolding lookup
  lookup-IsCoherent Asked now key c s h = elim (Option-cases (get key c.cache)) [
    | inl e ↦ rw (e, lookup) h
    | inr e ↦ elim (Bool-cases (is_expired now e.0)) [
      | inl old ↦ rw (e.1, old, lookup) (remove-IsCoherent Asked key (suc c.misses) c s h)
      | inr fresh ↦ rw (e.1, fresh, lookup) (hit-IsCoherent Asked key e.0 c s e.1 h)
    ]
  ]

  pub lookup-answer :
      (Asked : Asking) (now : ℕ) (query : Text) (params : Option Text) (r : R) (c : QueryCache R)
      (s : S)
      → IsCoherent Asked c s
      → Asked query params
      → (lookup digest now (generate_key digest query params) c).0 ≡ some r
      → answer query params s ≡ some r
  unfolding lookup
  lookup-answer Asked now query params r c s h sel found =
      let key = generate_key digest query params in
      elim (Option-cases (get key c.cache)) [
        | inl e ↦ ground (arith, lookup-missing digest now key c e, found)
        | inr e ↦
            let result : (if is_expired now e.0 then none else e.0.result) ≡ some r =
              sym (lookup-found digest now key e.0 c e.1) ∙ found in
            sym (h key e.0 e.1 query params sel refl) ∙ ground (arith, result)
      ]

  abbrev pub stored : ℕ → Text → Option Text → Option R → QueryCache R → QueryCache R
  stored now query params result c =
      let key = generate_key digest query params in
      (store digest key (new_entry digest now key query result (or_default none c.default_ttl)) c).1

  store-ok :
      (m : ℕ) (key : Text) (e : CacheEntry R) (c : QueryCache R)
      → c.max_size ≡ suc m
      → (store digest key e c).0 ≡ ok true
  unfolding store
  store-ok m key e c size = rw size refl

  pub cache_result-stores :
      (m now : ℕ) (query : Text) (params : Option Text) (result : Option R) (x : Executor R S)
      → x.cache.enabled ≡ true
      → x.cache.max_size ≡ suc m
      → cache_result digest execute_query true now query params result x
        ≡ (ok result, record x { cache = stored now query params result x.cache })
  unfolding cache_result
  cache_result-stores m now query params result x on size =
      let key = generate_key digest query params in
      let e = new_entry digest now key query result (or_default none x.cache.default_ttl) in
      if-true x.cache.enabled _ _ on
      ∙ rw
          (
            put_result-on digest now query result params none x.cache on,
            store-ok m key e x.cache size,
          )
          refl

  pub get-store_other :
      (m : ℕ) (key k : Text) (e : CacheEntry R) (c : QueryCache R)
      → c.max_size ≡ suc m
      → get k (store digest key e c).1.cache
        ≡ (if key == k then some e else get k (evict (suc m) c.cache 0).0)
  unfolding store
  get-store_other m key k e c size = rw size (get-put key k e (evict (suc m) c.cache 0).0)

  -- What a query that is asked may rely on between calls.
  abbrev pub IsSound : Asking → ℕ → Executor R S → Type 0
  IsSound Asked m x = IsBounded m x.cache × (x.cache.enabled ≡ true) × IsCoherent Asked x.cache x.db
