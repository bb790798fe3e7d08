-- ===== src/PlanCache/Indexed.antt =====
-- query_plan_cache.py: cached plans stand in the sets of their tables.
use kos_db.Base.{
  ℕ, ◌≡◌, refl, sym, subst, ◌∙◌, true, false, not, ◌&&◌, Option, none, some, List, [], ◌∷◌, arith,
  if◌then◌else◌, ◌==◌, Option-cases, Bool-cases, inl, inr, All-mono, if-both, length, leb,
}
use kos_db.Dict.{Dict, get, put, remove, has, get-put, get-remove}
use kos_db.Dict.Removal.{among}
use kos_db.Text.{Text, text_key, text_same_iff}
use kos_db.PlanCache.{
  CachedPlan, QueryPlanCache, index_tables, unindex_tables, unindex_all, evict, evict_lru,
  evict_all, miss, hit, touch, get_hash, make_room, store, oldest, is_expired,
}
use kos_db.PlanCache.Index.{
  IsIn, AreIn, unindex_tables-IsIn, unindex_all-IsIn, index_tables-IsIn, index_tables-AreIn,
}

module _ {Plan : Type 0} where
  -- Every cached plan stands in the sets of all its tables.
  abbrev pub IsIndexed : QueryPlanCache Plan → Type 0
  IsIndexed c =
      (h : Text) (plan : CachedPlan Plan)
      → get h c.cache ≡ some plan
      → AreIn plan.table_dependencies h c.table_index

  -- What an entry has stands in the sets of all its tables.
  AreInEntry : Text → Dict Text (List Text) → Option (CachedPlan Plan) → Type 0
  AreInEntry h index none = Unit
  AreInEntry h index (some plan) = AreIn plan.table_dependencies h index

  moved_entry :
      (h j : Text) (index : Dict Text (List Text)) (plan new found : CachedPlan Plan)
      → h == j ≡ true
      → some new ≡ some found
      → new.table_dependencies ≡ plan.table_dependencies
      → AreIn plan.table_dependencies h index
      → AreIn found.table_dependencies j index
  unfolding AreInEntry
  moved_entry h j index plan new found same e tables there = subst (AreInEntry j index) e (
      subst (λ k. AreIn new.table_dependencies k index) ((text_same_iff h j).0 same)
        (subst (λ ts. AreIn ts h index) (sym tables) there))

  -- Other hashes stay in the sets, and this one leaves the cache.
  removed :
      (h : Text) (c : QueryPlanCache Plan) (index : Dict Text (List Text))
      → ((t x : Text) → h == x ≡ false → IsIn t x c.table_index → IsIn t x index)
      → IsIndexed c
      → (j : Text) (plan : CachedPlan Plan) → get j (remove h c.cache) ≡ some plan
      → AreIn plan.table_dependencies j index
  removed h c index keeps ok_c j plan found = elim (Bool-cases (h == j)) [
    | inl same ↦ ground (arith, get-remove h j c.cache, same, found)
    | inr apart ↦
        All-mono plan.table_dependencies (λ t. keeps t j apart)
          (ok_c j plan (sym (get-remove h j c.cache ∙ rw apart refl) ∙ found))
  ]

  evict-IsIndexed : (h : Text) (c : QueryPlanCache Plan) → IsIndexed c → IsIndexed (evict h c)
  unfolding evict
  evict-IsIndexed h c ok_c = elim (Option-cases (get h c.cache)) [
    | inl missing ↦ rw (evict, missing) ok_c
    | inr plan ↦
        rw (evict, plan.1)
          (removed h c (unindex_tables h plan.0.table_dependencies c.table_index)
            (λ t x. unindex_tables-IsIn h plan.0.table_dependencies t x c.table_index) ok_c)
  ]

  evict_lru-IsIndexed : (c : QueryPlanCache Plan) → IsIndexed c → IsIndexed (evict_lru c)
  unfolding evict_lru
  evict_lru-IsIndexed c ok_c = elim (Option-cases (oldest c.cache)) [
    | inl missing ↦ rw (evict_lru, missing) ok_c
    | inr h ↦
        rw (evict_lru, h.1)
          (removed h.0 c (unindex_all h.0 c.table_index)
            (λ t x. unindex_all-IsIn h.0 t x c.table_index) ok_c)
  ]

  pub evict_all-IsIndexed :
      (hashes : List Text) (c : QueryPlanCache Plan) → IsIndexed c → IsIndexed (evict_all hashes c)
  unfolding evict_all
  evict_all-IsIndexed [] c ok_c = ok_c
  evict_all-IsIndexed (h ∷ hashes) c ok_c =
      evict_all-IsIndexed hashes (evict h c) (evict-IsIndexed h c ok_c)

  put_same :
      (h j : Text) (plan : CachedPlan Plan) (cache : Dict Text (CachedPlan Plan))
      → h == j ≡ true
      → get j (put h plan cache) ≡ some plan
  put_same h j plan cache same = get-put h j plan cache ∙ rw same refl

  pub store-IsIndexed :
      (plan : CachedPlan Plan) (c : QueryPlanCache Plan) → IsIndexed c → IsIndexed (store plan c)
  unfolding store
  store-IsIndexed plan c ok_c j found_plan found = elim (Bool-cases (plan.query_hash == j)) [
    | inl same ↦
        moved_entry plan.query_hash j
          (index_tables plan.query_hash plan.table_dependencies c.table_index) plan plan found_plan
          same (sym (put_same plan.query_hash j plan c.cache same) ∙ found) refl
          (index_tables-AreIn plan.query_hash plan.table_dependencies c.table_index)
    | inr apart ↦
        All-mono found_plan.table_dependencies
          (λ t. index_tables-IsIn plan.query_hash plan.table_dependencies t j c.table_index)
          (ok_c j found_plan (sym (get-put plan.query_hash j plan c.cache ∙ rw apart refl) ∙ found))
  ]

  hit-IsIndexed :
      (h : Text) (now : ℕ) (plan : CachedPlan Plan) (c : QueryPlanCache Plan)
      → get h c.cache ≡ some plan
      → IsIndexed c
      → IsIndexed (hit h (touch now plan) c)
  unfolding hit touch
  hit-IsIndexed h now plan c there ok_c j found_plan found = elim (Bool-cases (h == j)) [
    | inl same ↦
        moved_entry h j c.table_index plan (touch now plan) found_plan same
          (sym (put_same h j (touch now plan) (remove h c.cache) same) ∙ found) refl
          (ok_c h plan there)
    | inr apart ↦ ok_c j found_plan (
        ground (
          arith,
          get-put h j (touch now plan) (remove h c.cache),
          get-remove h j c.cache,
          apart,
          found,
        ))
  ]

  pub get_hash-IsIndexed :
      (now : ℕ) (h : Text) (c : QueryPlanCache Plan) → IsIndexed c → IsIndexed (get_hash now h c).1
  unfolding get_hash miss
  get_hash-IsIndexed now h c ok_c = elim (Option-cases (get h c.cache)) [
    | inl missing ↦ rw (get_hash, missing) ok_c
    | inr plan ↦ elim (Bool-cases (is_expired now c.ttl plan.0)) [
      | inl old ↦ rw (get_hash, plan.1, old) (evict-IsIndexed h c ok_c)
      | inr fresh ↦ rw (get_hash, plan.1, fresh) (hit-IsIndexed h now plan.0 c plan.1 ok_c)
    ]
  ]

  pub make_room-IsIndexed :
      (h : Text) (c : QueryPlanCache Plan) → IsIndexed c → IsIndexed (make_room h c)
  unfolding make_room
  make_room-IsIndexed h c ok_c =
      if-both IsIndexed (leb c.capacity (length c.cache) && not (has h c.cache))
        (evict_lru-IsIndexed c ok_c) ok_c

  get-evict :
      (h j : Text) (c : QueryPlanCache Plan)
      → get j (evict h c).cache ≡ (if h == j then none else get j c.cache)
  unfolding evict
  get-evict h j c = elim (Option-cases (get h c.cache)) [
    | inl missing ↦ rw (evict, missing) ground (arith, missing, text_same_iff h j)
    | inr plan ↦ rw (evict, plan.1) (get-remove h j c.cache)
  ]

  -- What is still there was there and is none of the hashes.
  pub get-evict_all :
      (hashes : List Text) (j : Text) (c : QueryPlanCache Plan) (plan : CachedPlan Plan)
      → get j (evict_all hashes c).cache ≡ some plan
      → (among j hashes ≡ false) × (get j c.cache ≡ some plan)
  unfolding evict_all
  get-evict_all [] j c plan found = (refl, found)
  get-evict_all (h ∷ hashes) j c plan found =
      let rest = get-evict_all hashes j (evict h c) plan found in
      elim (Bool-cases (h == j)) [
        | inl same ↦ ground (arith, get-evict h j c, same, rest.1)
        | inr apart ↦ (rw apart rest.0, sym (get-evict h j c ∙ rw apart refl) ∙ rest.1)
      ]
