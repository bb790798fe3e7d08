-- ===== src/QueryCache/Examples.antt =====
-- Runs of the cache with the key's text itself as its digest.
use kos_db.Base.{ℕ, ◌≤◌, ◌≡◌, refl, true, Option, none, some, List, [], ◌∷◌, arith, length}
use kos_db.Dict.{get, has}
use kos_db.Text.{Text, codes, text_key}
use kos_db.Text.Prefix.{starts_with}
use kos_db.Text.Case.{lower, upper, strip, lstrip, lower_code, upper_code, is_space, contains}
use kos_db.QueryCache.{
  QueryCache, CacheEntry, get_result, generate_key, new_cache, is_expired, invalidate_on_modify,
  mentions,
}
use kos_db.QueryCache.Bounds.{Call, run, run-IsBounded, put_call, get_call, disable_call}
use kos_db.QueryCache.Recency.{Put, put_all, get_result-stays}
use kos_db.QueryCache.Invalidation.{invalidate_on_modify-get}
use kos_db.QueryCache.Executor.{is_select}
use kos_db.QueryCache.Executor.Answers.{
  Select, select_all, answers, new_executor, select_all-answers,
}

abbrev same_text : Text → Text
same_text t = t

abbrev upper_case : Text
upper_case = codes "SELECT id FROM t WHERE name = 'A'"

abbrev lower_case : Text
lower_case = codes "SELECT id FROM t WHERE name = 'a'"

abbrev calls : List (Call ℕ)
calls =
    put_call 0 upper_case (some 1) none none
    ∷ put_call 1 (codes "SELECT 2") (some 2) none none
    ∷ get_call 2 upper_case none
    ∷ put_call 3 (codes "SELECT 3") (some 3) none none
    ∷ disable_call
    ∷ []

run-IsBounded_example : length (run same_text calls (new_cache 2 300)).cache ≤ 2
run-IsBounded_example = (run-IsBounded same_text 1 300 calls).1

abbrev entry : Text → ℕ → CacheEntry ℕ
entry query n = record {
  key = query;
  query = query;
  result = some n;
  created_at = 0;
  ttl = 300;
  hit_count = 0;
}

-- A full cache, with the entry for table t first in line to go.
abbrev full : QueryCache ℕ
full = record (new_cache 2 300) {
  cache =
      (codes "select 1 from t", entry (codes "SELECT 1 FROM t") 1)
      ∷ (codes "select 2", entry (codes "SELECT 2") 2)
      ∷ [];
}

abbrev third : Put ℕ
third = record { now = 5; query = codes "SELECT 3"; result = some 3; params = none; ttl = none }

get_result-stays_example :
    has
      (codes "select 1 from t")
      (put_all same_text
        (third ∷ [])
        (get_result same_text 4 (codes "SELECT 1 FROM t") none full).1).cache
    ≡ true
unfolding lower strip lstrip lower_code is_space generate_key is_expired get
get_result-stays_example =
    get_result-stays same_text 1 4 (codes "SELECT 1 FROM t") none
      (entry (codes "SELECT 1 FROM t") 1) (third ∷ []) full refl refl refl refl (omega arith)
      (refl, tt)

invalidate_on_modify-get_example :
    get (codes "select 1 from t") (invalidate_on_modify (codes "T") full).1.cache ≡ none
unfolding get has mentions contains upper upper_code starts_with
invalidate_on_modify-get_example =
    (invalidate_on_modify-get (codes "T") full (refl, (refl, tt))).0 (codes "select 1 from t")

-- The answer is the query itself, with the state of the database.
abbrev echo : Text → Option Text → ℕ → Option (Text × ℕ) × ℕ
echo query params s = (some (query, s), s)

abbrev selects : List Select
selects =
    record { query = codes "select 1"; params = none; now = 1; later = 2 }
    ∷ record { query = codes "select 1"; params = none; now = 3; later = 4 }
    ∷ record { query = codes "select 2"; params = none; now = 400; later = 401 }
    ∷ []

select_all-answers_example :
    (select_all same_text echo selects (new_executor same_text echo 1 300 7)).0
    ≡ answers same_text echo selects 7
unfolding is_select strip lstrip is_space upper upper_code lower lower_code starts_with
select_all-answers_example =
    select_all-answers same_text echo 0 300 selects 7 (λ query params s sel. refl)
      (λ a b a_there b_there same. same)
      ((refl, refl, refl), ((refl, refl, refl), ((refl, refl, refl), tt)))
