-- ===== src/QueryCache/Recency.antt =====
-- query_cache.py: which entry a full cache gives up.
use kos_db.Base.{
  ℕ, suc, ◌+◌, ◌≤◌, ◌<◌, ◌≡◌, refl, ◌∙◌, true, false, Option, some, List, [], ◌∷◌, ◌++◌,
  if◌then◌else◌, length, arith, ==-refl, ◌==◌, All,
}
use kos_db.Dict.{get, put, remove, has, length-put, has-remove}
use kos_db.Text.{Text, text_key, text_same, text_same_iff}
use kos_db.QueryCache.{
  QueryCache, CacheEntry, Entries, evict, lookup, get_result, store, put_result, is_expired,
  generate_key, new_entry, or_default, hit,
}
use kos_db.QueryCache.Lookup.{put_result-on, get_result-on}

-- A call of put.
pub record Put (R : Type 0) : Type 0 where
  pub now : ℕ
  pub query : Text
  pub result : Option R
  pub params : Option Text
  pub ttl : Option ℕ

module _ {R : Type 0} where
  -- How many entries were used after that of the key.
  unfoldable behind : Text → Entries R → ℕ
  behind k [] = 0
  behind k ((j, e) ∷ d) = let rest = behind k d in if j == k then length d else rest

  -- The entry is there, and at most n entries were used after it.
  abbrev Within : Text → ℕ → Entries R → Type 0
  Within k n d = (has k d ≡ true) × (behind k d ≤ n)

  evict-Within :
      (k : Text) (m n gone : ℕ) (d : Entries R)
      → n < m
      → Within k n d
      → Within k n (evict (suc m) d gone).0
  unfolding evict has behind
  evict-Within k m n gone [] h w = cc
  evict-Within k m n gone ((j, e) ∷ d) h w = ground (arith, evict-Within k m n (suc gone) d h)

  put-Within :
      (k key : Text) (n : ℕ) (e : CacheEntry R) (d : Entries R)
      → text_same key k ≡ false
      → Within k n d
      → Within k (suc n) (put key e d)
  unfolding put has behind
  put-Within k key n e [] h w = cc
  put-Within k key n e ((j, x) ∷ d) h w = ground (
    arith,
    text_same_iff j key,
    text_same_iff key k,
    text_same_iff j k,
    length-put key e d,
    put-Within k key n e d h,
  )

  append-Within :
      (k : Text) (e : CacheEntry R) (d : Entries R)
      → has k d ≡ false
      → Within k 0 (d ++ (k, e) ∷ [])
  unfolding has behind
  append-Within k e [] h = ground (arith, ==-refl k)
  append-Within k e ((j, x) ∷ d) h = ground (arith, append-Within k e d)

module _ {R : Type 0} (digest : Text → Text) where
  unfoldable pub put_all : List (Put R) → QueryCache R → QueryCache R
  put_all [] c = c
  put_all (p ∷ ps) c = put_all ps (put_result digest p.now p.query p.result p.params p.ttl c).1

  store-Within :
      (k key : Text) (m n : ℕ) (e : CacheEntry R) (c : QueryCache R)
      → c.max_size ≡ suc m
      → n < m
      → text_same key k ≡ false
      → Within k n c.cache
      → let after = (store digest key e c).1 in
        (after.max_size ≡ suc m) × (after.enabled ≡ c.enabled) × Within k (suc n) after.cache
  unfolding store
  store-Within k key m n e c size h other w = rw size (
    refl,
    refl,
    put-Within k key n e (evict (suc m) c.cache 0).0 other (evict-Within k m n 0 c.cache h w),
  )

  -- a call of put with another key than k
  abbrev pub IsOther : Text → Put R → Type 0
  IsOther k p = text_same (generate_key digest p.query p.params) k ≡ false

  put_all-Within :
      (k : Text) (m n : ℕ) (ps : List (Put R)) (c : QueryCache R)
      → c.max_size ≡ suc m
      → c.enabled ≡ true
      → n + length ps ≤ m
      → All (IsOther k) ps
      → Within k n c.cache
      → has k (put_all ps c).cache ≡ true
  unfolding put_all
  put_all-Within k m n [] c size on h others w = w.0
  put_all-Within k m n (p ∷ ps) c size on h others w =
      let key = generate_key digest p.query p.params in
      let e = new_entry digest p.now key p.query p.result (or_default p.ttl c.default_ttl) in
      let after = store-Within k key m n e c size (omega (arith, h)) others.0 w in
      rw (put_result-on digest p.now p.query p.result p.params p.ttl c on, put_all)
        (put_all-Within k m (suc n) ps (store digest key e c).1 after.0 (after.1 ∙ on)
          (omega (arith, h)) others.1 after.2)

  lookup-hit :
      (now : ℕ) (key : Text) (e : CacheEntry R) (c : QueryCache R)
      → get key c.cache ≡ some e
      → is_expired now e ≡ false
      → lookup digest now key c ≡ hit digest key e c
  unfolding lookup
  lookup-hit now key e c found fresh = rw (found, fresh, lookup) refl

  -- The least recently used entries go first: an entry that get has just returned from a cache of
  -- maximal size m + 1 is still there after any m calls of put with other keys.
  pub get_result-stays :
      (m now : ℕ) (query : Text) (params : Option Text) (e : CacheEntry R) (ps : List (Put R))
      (c : QueryCache R)
      → c.max_size ≡ suc m
      → c.enabled ≡ true
      → get (generate_key digest query params) c.cache ≡ some e
      → is_expired now e ≡ false
      → length ps ≤ m
      → All (IsOther (generate_key digest query params)) ps
      → has
          (generate_key digest query params)
          (put_all ps (get_result digest now query params c).1).cache
        ≡ true
  get_result-stays m now query params e ps c size on found fresh few others =
      let key = generate_key digest query params in
      let used = record e { hit_count = suc e.hit_count } in
      rw (get_result-on digest now query params c on, lookup-hit now key e c found fresh)
        (put_all-Within key m 0 ps (hit digest key e c).1 size on (omega (arith, few)) others (
          append-Within key used (remove key c.cache)
            (rw (has-remove key key c.cache, ==-refl key) refl)))
