-- ===== src/QueryCache/Bounds.antt =====
-- query_cache.py: the size of the cache and the keys of its entries, through all operations.
use kos_db.Base.{
  ℕ, suc, ◌+◌, ◌≤◌, ◌≡◌, refl, Bool, true, false, Option, none, some, List, [], ◌∷◌, ◌++◌,
  if◌then◌else◌, length, arith, leb, Bool-cases, Option-cases, inl, inr, ==-refl, length-append,
  if-both, Result,
}
use kos_db.Dict.{get, remove, has, length-put, length-remove, has-remove, has-of_get}
use kos_db.Dict.Distinct.{IsDistinct, put-IsDistinct, remove-IsDistinct, length-remove_present}
use kos_db.Text.{Text, text_key}
use kos_db.QueryCache.{
  QueryCache, CacheEntry, Entries, evict, remove_all, lookup, get_result, store, put_result,
  invalidate, clear_all, clear, enable, disable, is_expired, generate_key, new_cache, to_remove,
  new_entry, or_default, CacheError,
}

pub data Call (R : Type 0) : Type 0 where
  get_call : ℕ → Text → Option Text → Call R
  put_call : ℕ → Text → Option R → Option Text → Option ℕ → Call R
  invalidate_call : Option Text → Option Text → Call R
  clear_call enable_call disable_call : Call R

module _ {R : Type 0} where
  abbrev pub IsBounded : ℕ → QueryCache R → Type 0
  IsBounded m c = (c.max_size ≡ suc m) × (length c.cache ≤ suc m) × IsDistinct c.cache

  pub evict-length : (m : ℕ) (d : Entries R) (gone : ℕ) → length (evict (suc m) d gone).0 ≤ m
  unfolding evict
  evict-length m [] gone = omega arith
  evict-length m (e ∷ d) gone = ground (arith, evict-length m d (suc gone))

  pub evict-IsDistinct :
      (m : ℕ) (d : Entries R) (gone : ℕ) → IsDistinct d → IsDistinct (evict m d gone).0
  unfolding evict
  evict-IsDistinct m [] gone h = tt
  evict-IsDistinct m ((k, e) ∷ d) gone h = elim (Bool-cases (leb m (suc (length d)))) [
    | inl full ↦ rw full (evict-IsDistinct m d (suc gone) h.1)
    | inr room ↦ rw room h
  ]

  pub has-append :
      (a b : Text) (e : CacheEntry R) (d : Entries R)
      → has b (d ++ (a, e) ∷ []) ≡ (if has b d then true else (text_key.same a b))
  unfolding has
  has-append a b e [] = ground arith
  has-append a b e ((k, x) ∷ d) = ground (arith, has-append a b e d)

  append-IsDistinct :
      (a : Text) (e : CacheEntry R) (d : Entries R)
      → has a d ≡ false
      → IsDistinct d
      → IsDistinct (d ++ (a, e) ∷ [])
  unfolding has
  append-IsDistinct a e [] h distinct = (refl, tt)
  append-IsDistinct a e ((k, x) ∷ d) h distinct = ground (
    arith,
    has-append a k e d,
    text_key.same_iff k a,
    text_key.same_iff a k,
    append-IsDistinct a e d,
  )

  remove_all-IsDistinct :
      (ks : List Text) (d : Entries R) → IsDistinct d → IsDistinct (remove_all ks d)
  unfolding remove_all
  remove_all-IsDistinct [] d h = h
  remove_all-IsDistinct (k ∷ ks) d h =
      remove_all-IsDistinct ks (remove k d) (remove-IsDistinct k d h)

  length-remove_all : (ks : List Text) (d : Entries R) → length (remove_all ks d) ≤ length d
  unfolding remove_all
  length-remove_all [] d = omega arith
  length-remove_all (k ∷ ks) d = omega (arith, length-remove_all ks (remove k d), length-remove k d)

module _ {R : Type 0} (digest : Text → Text) where
  -- What a call leaves.
  unfoldable pub step : Call R → QueryCache R → QueryCache R
  step (get_call now query params) c = (get_result digest now query params c).1
  step (put_call now query result params ttl) c =
      (put_result digest now query result params ttl c).1
  step (invalidate_call query_pattern table_name) c = (invalidate query_pattern table_name c).1
  step clear_call c = clear c
  step enable_call c = enable c
  step disable_call c = disable c

  unfoldable pub run : List (Call R) → QueryCache R → QueryCache R
  unfolding step
  run [] c = c
  run (call ∷ calls) c = run calls (step call c)

  pub lookup-IsBounded :
      (m now : ℕ) (key : Text) (c : QueryCache R)
      → IsBounded m c
      → IsBounded m (lookup digest now key c).1
  unfolding lookup
  lookup-IsBounded m now key c h = elim (Option-cases (get key c.cache)) [
    | inl e ↦ rw (e, lookup) h
    | inr e ↦
        let distinct = remove-IsDistinct key c.cache h.2 in
        let shorter = length-remove_present key c.cache h.2 (has-of_get key e.0 c.cache e.1) in
        elim (Bool-cases (is_expired now e.0)) [
          | inl old ↦ rw (e.1, old, lookup) (h.0, omega (arith, shorter, h.1), distinct)
          | inr fresh ↦
              let used = record e.0 { hit_count = suc e.0.hit_count } in
              rw (e.1, fresh, lookup)
                (
                  h.0,
                  omega
                      (arith, shorter, h.1, length-append (remove key c.cache) ((key, used) ∷ [])),
                  append-IsDistinct key used (remove key c.cache)
                      (rw (has-remove key key c.cache, ==-refl key) refl) distinct,
                )
        ]
  ]

  pub store-IsBounded :
      (m : ℕ) (key : Text) (e : CacheEntry R) (c : QueryCache R)
      → IsBounded m c
      → IsBounded m (store digest key e c).1
  unfolding store
  store-IsBounded m key e c h =
      let kept : Entries R = (evict (suc m) c.cache 0).0 in
      rw h.0 (
        refl,
        ground (arith, length-put key e kept, evict-length m c.cache 0),
        put-IsDistinct key e kept (evict-IsDistinct (suc m) c.cache 0 h.2),
      )

  removed-IsBounded :
      (m : ℕ) (ks : List Text) (c : QueryCache R)
      → IsBounded m c
      → IsBounded m
          (record c { cache = remove_all ks c.cache; invalidations = c.invalidations + length ks })
  removed-IsBounded m ks c h =
      (h.0, omega (arith, h.1, length-remove_all ks c.cache), remove_all-IsDistinct ks c.cache h.2)

  invalidate-IsBounded :
      (m : ℕ) (query_pattern table_name : Option Text) (c : QueryCache R)
      → IsBounded m c
      → IsBounded m (invalidate query_pattern table_name c).1
  unfolding invalidate clear_all
  invalidate-IsBounded m none none c h = (h.0, omega arith, tt)
  invalidate-IsBounded m none (some t) c h =
      removed-IsBounded m (to_remove none (some t) c.cache) c h
  invalidate-IsBounded m (some p) t c h = removed-IsBounded m (to_remove (some p) t c.cache) c h

  step-IsBounded :
      (m : ℕ) (call : Call R) (c : QueryCache R) → IsBounded m c → IsBounded m (step call c)
  unfolding step get_result put_result clear enable disable
  step-IsBounded m (get_call now query params) c h =
      if-both (λ (r : Option R × QueryCache R). IsBounded m r.1) c.enabled
        (lookup-IsBounded m now (generate_key digest query params) c h) h
  step-IsBounded m (put_call now query result params ttl) c h =
      let key = generate_key digest query params in
      if-both (λ (r : Result CacheError Bool × QueryCache R). IsBounded m r.1) c.enabled
        (store-IsBounded m key
          (new_entry digest now key query result (or_default ttl c.default_ttl)) c h)
        h
  step-IsBounded m (invalidate_call p t) c h = invalidate-IsBounded m p t c h
  step-IsBounded m clear_call c h = (h.0, omega arith, tt)
  step-IsBounded m enable_call c h = h
  step-IsBounded m disable_call c h = h

  run-keeps :
      (m : ℕ) (calls : List (Call R)) (c : QueryCache R) → IsBounded m c → IsBounded m (run calls c)
  unfolding run
  run-keeps m [] c h = h
  run-keeps m (call ∷ calls) c h = run-keeps m calls (step call c) (step-IsBounded m call c h)

  -- A cache never holds more entries than its maximal size, if that is not zero, and no key twice,
  -- after any history of calls over a new cache.
  pub run-IsBounded :
      (m default_ttl : ℕ) (calls : List (Call R))
      → IsBounded m (run calls (new_cache (suc m) default_ttl))
  run-IsBounded m default_ttl calls =
      run-keeps m calls (new_cache (suc m) default_ttl) (refl, omega arith, tt)
