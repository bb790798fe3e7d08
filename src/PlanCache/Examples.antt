-- ===== src/PlanCache/Examples.antt =====
-- query_plan_cache.py: a cache of two plans, with the text itself as its digest.
use kos_db.Base.{ℕ, ◌≡◌, refl, false, some, [], ◌∷◌, length}
use kos_db.Dict.{get, put}
use kos_db.Dict.Removal.{among}
use kos_db.Text.{Text, text_key, codes}
use kos_db.PlanCache.{QueryPlanCache, new_cache, new_plan, put_plan, invalidate_table}
use kos_db.PlanCache.Dependents.{stored, init, invalidate_table-dependents}

abbrev itself : Text → Text
itself t = t

abbrev users : QueryPlanCache ℕ
unfolding put_plan
users = (put_plan itself 10 (codes "select * from users") 1 (codes "users" ∷ []) (new_cache 2 0)).1

abbrev both : QueryPlanCache ℕ
unfolding put_plan users
both = (put_plan itself 11 (codes "select * from t") 2 (codes "t" ∷ []) users).1

-- The third plan takes the place of the first.
eviction_run :
    length (put_plan itself 12 (codes "select * from s") 3 (codes "s" ∷ []) both).1.cache ≡ 2
unfolding put_plan both users new_cache put kos_db.Text.Case.lower kos_db.Text.Case.strip
    kos_db.Dict.has kos_db.Dict.remove
eviction_run = refl

invalidate_table-dependents_example :
    (among (codes "users") (codes "t" ∷ []) ≡ false)
    × (get (codes "select * from t") both.cache
        ≡ some (new_plan itself 11 (codes "select * from t") 2 (codes "t" ∷ [])))
unfolding both users new_plan invalidate_table get put new_cache kos_db.Text.Case.lower
    kos_db.Text.Case.strip kos_db.Dict.remove
invalidate_table-dependents_example =
    invalidate_table-dependents itself (codes "users") (codes "select * from t")
      (new_plan itself 11 (codes "select * from t") 2 (codes "t" ∷ []))
      (stored 11 (codes "select * from t") 2 (codes "t" ∷ [])
        (stored 10 (codes "select * from users") 1 (codes "users" ∷ []) (init 2 0)))
      refl
