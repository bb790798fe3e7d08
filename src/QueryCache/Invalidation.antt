-- ===== src/QueryCache/Invalidation.antt =====
-- query_cache.py, invalidate: which entries go.
use kos_db.Base.{
  ◌+◌, ◌≡◌, refl, ◌∙◌, Bool, true, false, ◌||◌, Option, none, some, List, [], ◌∷◌, if◌then◌else◌,
  length, arith, Bool-cases, inl, inr, ◌==◌, ==-refl,
}
use kos_db.Dict.{get, remove, has, get-remove, remove-absent}
use kos_db.Dict.Distinct.{IsDistinct}
use kos_db.Text.{Text, text_key, text_same_iff}
use kos_db.QueryCache.{
  QueryCache, CacheEntry, Entries, mentions, to_remove, remove_all, invalidate,
  invalidate_on_modify,
}

abbrev among : Text → List Text → Bool
among k [] = false
among k (j ∷ js) = j == k || among k js

module _ {R : Type 0} where
  get-remove_all :
      (k : Text) (ks : List Text) (d : Entries R)
      → get k (remove_all ks d) ≡ (if among k ks then none else get k d)
  unfolding remove_all
  get-remove_all k [] d = refl
  get-remove_all k (j ∷ ks) d = ground (arith, get-remove_all k ks (remove j d), get-remove j k d)

  among-to_remove :
      (k : Text) (p t : Option Text) (d : Entries R)
      → among k (to_remove p t d) ≡ true
      → has k d ≡ true
  unfolding to_remove has
  among-to_remove k p t [] h = cc
  among-to_remove k p t ((j, e) ∷ d) h = ground (arith, among-to_remove k p t d)

  -- What is left of a key's entry.
  abbrev pub left : Option Text → Option Text → Option (CacheEntry R) → Option (CacheEntry R)
  left p t none = none
  left p t (some e) = if mentions p t e then none else some e

  get-to_remove :
      (k : Text) (p t : Option Text) (d : Entries R)
      → IsDistinct d
      → (if among k (to_remove p t d) then none else get k d) ≡ left p t (get k d)
  unfolding to_remove get
  get-to_remove k p t [] h = refl
  get-to_remove k p t ((j, e) ∷ d) h =
      ground (arith, get-to_remove k p t d h.1, text_same_iff j k, among-to_remove k p t d)

  remove_all-cons :
      (ks : List Text) (j : Text) (e : CacheEntry R) (d : Entries R)
      → remove_all ks ((j, e) ∷ d)
        ≡ (if among j ks then remove_all ks d else (j, e) ∷ remove_all ks d)
  unfolding remove_all remove
  remove_all-cons [] j e d = refl
  remove_all-cons (k ∷ ks) j e d =
      ground (arith, text_same_iff j k, text_same_iff k j, remove_all-cons ks j e (remove k d))

  remove-head :
      (j : Text) (e : CacheEntry R) (d : Entries R) → has j d ≡ false → remove j ((j, e) ∷ d) ≡ d
  unfolding remove
  remove-head j e d h = ground (arith, ==-refl j, remove-absent j d h)

  among-absent :
      (j : Text) (p t : Option Text) (d : Entries R)
      → has j d ≡ false
      → among j (to_remove p t d) ≡ false
  among-absent j p t d h = elim (Bool-cases (among j (to_remove p t d))) [
    | inl there ↦ ground (arith, among-to_remove j p t d there)
    | inr absent ↦ absent
  ]

  length-to_remove :
      (p t : Option Text) (d : Entries R)
      → IsDistinct d
      → length (to_remove p t d) + length (remove_all (to_remove p t d) d) ≡ length d
  unfolding to_remove remove_all remove
  length-to_remove p t [] h = refl
  length-to_remove p t ((j, e) ∷ d) h = elim (Bool-cases (mentions p t e)) [
    | inl gone ↦
        rw (gone, remove_all, remove-head j e d h.0) omega (arith, length-to_remove p t d h.1)
    | inr kept ↦
        rw (kept, remove_all-cons (to_remove p t d) j e d, among-absent j p t d h.0) omega
          (arith, length-to_remove p t d h.1)
  ]

  -- The change of a table invalidates exactly the entries whose query text has its name, in any
  -- case: of every key, such an entry is gone and any other is as before, and the number that is
  -- returned is how many went, in a cache without repeated keys.
  pub invalidate_on_modify-get :
      (table_name : Text) (c : QueryCache R)
      → IsDistinct c.cache
      → let (count, after) = invalidate_on_modify table_name c in
        ((k : Text) → get k after.cache ≡ left none (some table_name) (get k c.cache))
        × (count + length after.cache ≡ length c.cache)
  unfolding invalidate invalidate_on_modify
  invalidate_on_modify-get table_name c distinct = (
    λ k.
        get-remove_all k (to_remove none (some table_name) c.cache) c.cache
        ∙ get-to_remove k none (some table_name) c.cache distinct,
    length-to_remove none (some table_name) c.cache distinct,
  )
