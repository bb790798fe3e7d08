-- ===== src/QueryCache/Lookup.antt =====
-- query_cache.py, put and get: which query gets whose result, and until when.
use kos_db.Base.{
  ℕ, suc, ◌-◌, ◌≡◌, refl, true, Option, none, some, if◌then◌else◌, ltb, Bool-cases, Option-cases,
  inl, inr, ==-refl, if-true, ◌∙◌,
}
use kos_db.Dict.{get, get-put}
use kos_db.Text.{Text, text_key}
use kos_db.Text.Case.{lower, strip}
use kos_db.QueryCache.{
  QueryCache, CacheEntry, lookup, get_result, store, put_result, is_expired, generate_key,
  new_entry, or_default, evict,
}

generate_key-same :
    (digest : Text → Text) (query other : Text) (params : Option Text)
    → strip (lower query) ≡ strip (lower other)
    → generate_key digest other params ≡ generate_key digest query params
unfolding generate_key
generate_key-same digest query other params same = rw same refl

module _ {R : Type 0} (digest : Text → Text) where
  pub get-store :
      (m : ℕ) (key : Text) (e : CacheEntry R) (c : QueryCache R)
      → c.max_size ≡ suc m
      → get key (store digest key e c).1.cache ≡ some e
  unfolding store
  get-store m key e c h = rw (h, get-put key key e (evict (suc m) c.cache 0).0, ==-refl key) refl

  pub store-enabled :
      (key : Text) (e : CacheEntry R) (m : ℕ) (c : QueryCache R)
      → c.max_size ≡ suc m
      → (store digest key e c).1.enabled ≡ c.enabled
  unfolding store
  store-enabled key e m c h = rw h refl

  pub lookup-missing :
      (now : ℕ) (key : Text) (c : QueryCache R)
      → get key c.cache ≡ none
      → (lookup digest now key c).0 ≡ none
  unfolding lookup
  lookup-missing now key c h = rw (h, lookup) refl

  pub lookup-enabled :
      (now : ℕ) (key : Text) (c : QueryCache R) → (lookup digest now key c).1.enabled ≡ c.enabled
  unfolding lookup
  lookup-enabled now key c = elim (Option-cases (get key c.cache)) [
    | inl e ↦ rw (e, lookup) refl
    | inr e ↦ elim (Bool-cases (is_expired now e.0)) [
      | inl old ↦ rw (e.1, old, lookup) refl
      | inr fresh ↦ rw (e.1, fresh, lookup) refl
    ]
  ]

  pub lookup-found :
      (now : ℕ) (key : Text) (e : CacheEntry R) (c : QueryCache R)
      → get key c.cache ≡ some e
      → (lookup digest now key c).0 ≡ (if is_expired now e then none else e.result)
  unfolding lookup
  lookup-found now key e c h = elim (Bool-cases (is_expired now e)) [
    | inl old ↦ rw (h, old, lookup) refl
    | inr fresh ↦ rw (h, fresh, lookup) refl
  ]

  pub get_result-on :
      (now : ℕ) (query : Text) (params : Option Text) (c : QueryCache R)
      → c.enabled ≡ true
      → get_result digest now query params c
        ≡ lookup digest now (generate_key digest query params) c
  unfolding get_result
  get_result-on now query params c on = if-true c.enabled _ _ on

  pub put_result-on :
      (now : ℕ) (query : Text) (result : Option R) (params : Option Text) (ttl : Option ℕ)
      (c : QueryCache R)
      → c.enabled ≡ true
      → let key = generate_key digest query params in
        put_result digest now query result params ttl c
        ≡ store digest key (new_entry digest now key query result (or_default ttl c.default_ttl)) c
  unfolding put_result
  put_result-on now query result params ttl c on = if-true c.enabled _ _ on

  -- A result that is put in an enabled cache of some size is what get returns, until its time to
  -- live has passed and get returns None. It is returned to every query with the same lower-cased
  -- text and the same parameters, whatever the case of its letters, string literals included.
  pub get-put_result :
      (now later m : ℕ) (query other : Text) (result : Option R) (params : Option Text)
      (ttl : Option ℕ) (c : QueryCache R)
      → c.enabled ≡ true
      → c.max_size ≡ suc m
      → strip (lower query) ≡ strip (lower other)
      → (get_result digest later other params (put_result digest now query result params ttl c).1).0
        ≡ (if ltb (or_default ttl c.default_ttl) (later - now) then none else result)
  unfolding is_expired
  get-put_result now later m query other result params ttl c on size same =
      let key = generate_key digest query params in
      let e = new_entry digest now key query result (or_default ttl c.default_ttl) in
      let stored = store digest key e c in
      rw
        (
          put_result-on now query result params ttl c on,
          get_result-on later other params stored.1 (store-enabled key e m c size ∙ on),
          generate_key-same digest query other params same,
        )
        (lookup-found later key e stored.1 (get-store m key e c size))
