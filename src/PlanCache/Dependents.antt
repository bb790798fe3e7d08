-- ===== src/PlanCache/Dependents.antt =====
-- query_plan_cache.py: plans that depend on a table that changes.
use kos_db.Base.{
  ℕ, ◌≡◌, refl, sym, subst, ◌∙◌, true, false, some, List, [], ◌∷◌, arith, ◌==◌, Bool-cases, inl,
  inr, All,
}
use kos_db.Dict.{get}
use kos_db.Dict.Removal.{among}
use kos_db.Text.{Text, text_key, text_same_iff}
use kos_db.PlanCache.{
  CachedPlan, QueryPlanCache, hashes_of, count_invalidated, invalidate_table, invalidate_all,
  new_cache, get_plan, make_room, new_plan, put_plan, generate_hash,
}
use kos_db.PlanCache.Index.{IsIn}
use kos_db.PlanCache.Indexed.{
  IsIndexed, evict_all-IsIndexed, store-IsIndexed, get_hash-IsIndexed, make_room-IsIndexed,
  get-evict_all,
}

among-All : (P : Text → Type 0) (t : Text) (ts : List Text) → among t ts ≡ true → All P ts → P t
among-All P t [] there all = cc
among-All P t (x ∷ ts) there all = elim (Bool-cases (x == t)) [
  | inl same ↦ subst P ((text_same_iff x t).0 same) all.0
  | inr apart ↦ among-All P t ts (sym (rw apart refl) ∙ there) all.1
]

module _ {Plan : Type 0} (digest : Text → Text) where
  -- The caches that calls make of a new one.
  pub data Reaches : QueryPlanCache Plan → Type 0 where
    init : (capacity ttl : ℕ) → Reaches (new_cache capacity ttl)
    looked_up :
        {c : QueryPlanCache Plan} (now : ℕ) (query : Text)
        → Reaches c
        → Reaches (get_plan digest now query c).1
    stored :
        {c : QueryPlanCache Plan} (now : ℕ) (query : Text) (parsed : Plan) (tables : List Text)
        → Reaches c
        → Reaches (put_plan digest now query parsed tables c).1
    invalidated :
        {c : QueryPlanCache Plan} (table_name : Text)
        → Reaches c
        → Reaches (invalidate_table table_name c)
    cleared : {c : QueryPlanCache Plan} → Reaches c → Reaches (invalidate_all c)

  Reaches-IsIndexed : {c : QueryPlanCache Plan} → Reaches c → IsIndexed c
  unfolding new_cache get_plan put_plan invalidate_table count_invalidated invalidate_all get
  Reaches-IsIndexed (init capacity ttl) = λ h plan found. cc
  Reaches-IsIndexed (looked_up {c} now query past) =
      get_hash-IsIndexed now (generate_hash digest query) c (Reaches-IsIndexed past)
  Reaches-IsIndexed (stored {c} now query parsed tables past) =
      let plan = new_plan digest now query parsed tables in
      store-IsIndexed plan (make_room plan.query_hash c)
        (make_room-IsIndexed plan.query_hash c (Reaches-IsIndexed past))
  Reaches-IsIndexed (invalidated {c} table_name past) =
      evict_all-IsIndexed (hashes_of table_name c.table_index) c (Reaches-IsIndexed past)
  Reaches-IsIndexed (cleared past) = λ h plan found. cc

  -- When a table changes, after any history of calls, its invalidation leaves no plan that depends
  -- on the table, and each plan that is left was there before, unchanged.
  pub invalidate_table-dependents :
      {c : QueryPlanCache Plan} (table_name h : Text) (plan : CachedPlan Plan)
      → Reaches c
      → get h (invalidate_table table_name c).cache ≡ some plan
      → (among table_name plan.table_dependencies ≡ false) × (get h c.cache ≡ some plan)
  unfolding invalidate_table count_invalidated
  invalidate_table-dependents {c} table_name h plan past found =
      let left = get-evict_all (hashes_of table_name c.table_index) h c plan found in
      elim (Bool-cases (among table_name plan.table_dependencies)) [
        | inl depends ↦
            let there : IsIn table_name h c.table_index =
              among-All (λ t. IsIn t h c.table_index) table_name plan.table_dependencies depends
                (Reaches-IsIndexed past h plan left.1) in
            ground (arith, there, left.0)
        | inr apart ↦ (apart, left.1)
      ]
