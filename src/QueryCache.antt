-- ===== src/QueryCache.antt =====
-- query_cache.py, CacheEntry and QueryCache: results of queries under a key of the query text, in
-- the order of their last use. Times are whole numbers; `digest` is the shortened SHA-256.
pub mod Bounds
pub mod Lookup
pub mod Recency
pub mod Invalidation
pub mod Executor
mod Examples
use kos_db.Base.{
  ℕ, zero, suc, ◌+◌, ◌-◌, Bool, true, false, ◌&&◌, ◌||◌, Option, none, some, List, [], ◌∷◌, ◌++◌,
  if◌then◌else◌, length, leb, ltb, Result, ok, err,
}
use kos_db.Dict.{Dict, get, put, remove}
use kos_db.Text.{Text, text_key}
use kos_db.Text.Case.{lower, upper, strip, contains}

pub record CacheEntry (R : Type 0) : Type 0 where
  pub key : Text
  pub query : Text
  -- None is a result too
  pub result : Option R
  pub created_at : ℕ
  pub ttl : ℕ
  pub hit_count : ℕ

abbrev pub Entries : Type 0 → Type 0
Entries R = Dict Text (CacheEntry R)

-- The oldest use first.
pub record QueryCache (R : Type 0) : Type 0 where
  pub max_size : ℕ
  pub default_ttl : ℕ
  pub cache : Entries R
  pub enabled : Bool
  pub hits : ℕ
  pub misses : ℕ
  pub evictions : ℕ
  pub invalidations : ℕ

-- KeyError of popitem on an empty dict
pub data CacheError : Type 0 where
  dictionary_empty : CacheError

-- `ttl or self.default_ttl`
abbrev pub or_default : Option ℕ → ℕ → ℕ
or_default none default = default
or_default (some zero) default = default
or_default (some (suc t)) default = suc t

module _ {R : Type 0} where
  abbrev pub new_cache : ℕ → ℕ → QueryCache R
  new_cache max_size default_ttl = record {
    max_size = max_size;
    default_ttl = default_ttl;
    cache = [];
    enabled = true;
    hits = 0;
    misses = 0;
    evictions = 0;
    invalidations = 0;
  }

  unfoldable pub is_expired : ℕ → CacheEntry R → Bool
  is_expired now e = ltb e.ttl (now - e.created_at)

  -- `while len(self._cache) >= self.max_size: popitem(last=False)`: what is left, and how many went
  unfoldable pub evict : ℕ → Entries R → ℕ → Entries R × ℕ
  evict max_size [] gone = ([], gone)
  evict max_size (e ∷ d) gone =
      let rest = evict max_size d (suc gone) in
      if leb max_size (length (e ∷ d)) then rest else (e ∷ d, gone)

  -- The query mentions the table or has the pattern; an empty text is like None.
  unfoldable pub mentions : Option Text → Option Text → CacheEntry R → Bool
  mentions query_pattern table_name e =
      elim table_name [
        | none ↦ false
        | some [] ↦ false
        | some (c ∷ t) ↦ contains (upper (c ∷ t)) (upper e.query)
      ]
      || elim query_pattern [
        | none ↦ false
        | some [] ↦ false
        | some (c ∷ p) ↦ contains (lower (c ∷ p)) (lower e.query)
      ]

  unfoldable pub to_remove : Option Text → Option Text → Entries R → List Text
  to_remove query_pattern table_name [] = []
  to_remove query_pattern table_name ((k, e) ∷ d) =
      let rest = to_remove query_pattern table_name d in
      if mentions query_pattern table_name e then k ∷ rest else rest

  unfoldable pub remove_all : List Text → Entries R → Entries R
  remove_all [] d = d
  remove_all (k ∷ ks) d = remove_all ks (remove k d)

  abbrev invalidated : List Text → QueryCache R → ℕ × QueryCache R
  invalidated keys c = (
    length keys,
    record c { cache = remove_all keys c.cache; invalidations = c.invalidations + length keys },
  )

  clear_all : QueryCache R → ℕ × QueryCache R
  clear_all c =
      (length c.cache, record c { cache = []; invalidations = c.invalidations + length c.cache })

  unfoldable pub invalidate : Option Text → Option Text → QueryCache R → ℕ × QueryCache R
  unfolding to_remove remove_all clear_all
  invalidate none none c = clear_all c
  invalidate none (some t) c = invalidated (to_remove none (some t) c.cache) c
  invalidate (some p) table_name c = invalidated (to_remove (some p) table_name c.cache) c

  pub invalidate_on_modify : Text → QueryCache R → ℕ × QueryCache R
  unfolding invalidate
  invalidate_on_modify table_name c = invalidate none (some table_name) c

  pub clear : QueryCache R → QueryCache R
  clear c = record c { cache = [] }

  pub enable : QueryCache R → QueryCache R
  enable c = record c { enabled = true }

  pub disable : QueryCache R → QueryCache R
  disable c = record c { enabled = false }

-- json.dumps of the parameters, or None if there are none
module _ (digest : Text → Text) where
  unfoldable pub generate_key : Text → Option Text → Text
  generate_key query params =
      digest (strip (lower query) ++ elim params [ none ↦ [] | some dumped ↦ dumped ])

module _ {R : Type 0} (digest : Text → Text) where
  abbrev missed : Entries R → QueryCache R → Option R × QueryCache R
  missed d c = (none, record c { cache = d; misses = suc c.misses })

  abbrev pub hit : Text → CacheEntry R → QueryCache R → Option R × QueryCache R
  hit key e c = (
    e.result,
    record c {
      cache = remove key c.cache ++ (key, record e { hit_count = suc e.hit_count }) ∷ [];
      hits = suc c.hits;
    },
  )

  unfoldable pub lookup : ℕ → Text → QueryCache R → Option R × QueryCache R
  unfolding is_expired
  lookup now key c = elim (get key c.cache) [
    | none ↦ missed c.cache c
    | some e ↦ if is_expired now e then missed (remove key c.cache) c else hit key e c
  ]

  -- QueryCache.get
  unfoldable pub get_result : ℕ → Text → Option Text → QueryCache R → Option R × QueryCache R
  unfolding lookup generate_key
  get_result now query params c =
      if c.enabled then lookup now (generate_key digest query params) c else (none, c)

  abbrev pub new_entry : ℕ → Text → Text → Option R → ℕ → CacheEntry R
  new_entry now key query result ttl = record {
    key = key;
    query = query;
    result = result;
    created_at = now;
    ttl = ttl;
    hit_count = 0;
  }

  unfoldable pub store : Text → CacheEntry R → QueryCache R → Result CacheError Bool × QueryCache R
  unfolding evict
  store key e c =
      let (kept, gone) = evict c.max_size c.cache 0 in
      let c' = record c { cache = kept; evictions = c.evictions + gone } in
      elim c.max_size [
        | zero ↦ (err dictionary_empty, c')
        | suc m ↦ (ok true, record c' { cache = put key e kept })
      ]

  -- QueryCache.put
  unfoldable pub put_result :
      ℕ
      → Text
      → Option R
      → Option Text
      → Option ℕ
      → QueryCache R
      → Result CacheError Bool × QueryCache R
  unfolding store generate_key
  put_result now query result params ttl c =
      let key = generate_key digest query params in
      if c.enabled
      then store key (new_entry now key query result (or_default ttl c.default_ttl)) c
      else (ok false, c)
