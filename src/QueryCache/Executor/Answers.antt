-- ===== src/QueryCache/Executor/Answers.antt =====
-- query_cache.py, CachedQueryExecutor: series of SELECTs.
use kos_db.Base.{
  ℕ, suc, ◌≡◌, refl, sym, true, Option, none, List, [], ◌∷◌, Result, ok, map, All, ap₂, ap, ◌∙◌,
  arith, append-nil, ==-refl,
}
use kos_db.Dict.Removal.{among}
use kos_db.Text.Case.{lower, strip}
use kos_db.Dict.{get}
use kos_db.Text.{Text, text_key}
use kos_db.QueryCache.{CacheError, generate_key, new_cache}
use kos_db.QueryCache.Executor.{Executor, is_select, execute}
use kos_db.QueryCache.Executor.Soundness.{answer, IsSound}
use kos_db.QueryCache.Executor.Coherence.{execute-IsAnswer}

-- A SELECT, when the cache is asked for it, and when its result is there.
pub record Select : Type 0 where
  pub query : Text
  pub params : Option Text
  pub now : ℕ
  pub later : ℕ

module _ {R S : Type 0} (digest : Text → Text)
    (execute_query : Text → Option Text → S → Option R × S) where
  -- The results in order, and the executor after the last.
  unfoldable pub select_all :
      List Select → Executor R S → List (Result CacheError (Option R)) × Executor R S
  select_all [] x = ([], x)
  select_all (q ∷ qs) x =
      let (result, y) = execute digest execute_query q.now q.later true q.query q.params x in
      let (results, z) = select_all qs y in (result ∷ results, z)

  abbrev pub new_executor : ℕ → ℕ → S → Executor R S
  new_executor max_size default_ttl s = record { cache = new_cache max_size default_ttl; db = s }

  abbrev pub answers : List Select → S → List (Result CacheError (Option R))
  answers qs s = map (λ q. ok (answer digest execute_query q.query q.params s)) qs

  module _
      (reads : (query : Text) (params : Option Text) (s : S)
        → is_select query ≡ true
        → (execute_query query params s).1 ≡ s)
      (texts : List Text)
      (apart : (a b : Text)
        → among a texts ≡ true
        → among b texts ≡ true
        → digest a ≡ digest b
        → a ≡ b) where
    -- A SELECT without parameters whose text is one of the texts, and is what the cache makes of it.
    abbrev Asked : Text → Option Text → Type 0
    Asked query params =
        (is_select query ≡ true)
        × (params ≡ none)
        × (strip (lower query) ≡ query)
        × (among query texts ≡ true)

    keyed :
        (query other : Text) (params params2 : Option Text) (s : S)
        → Asked query params
        → Asked other params2
        → generate_key digest query params ≡ generate_key digest other params2
        → answer digest execute_query query params s ≡ answer digest execute_query other params2 s
    unfolding generate_key
    keyed query other params params2 s (sel, none_1, plain, there) (sel2, none_2, plain2, there2)
          same =
        let key : (q : Text) (o : Option Text)
            → o ≡ none
            → strip (lower q) ≡ q
            → generate_key digest q o ≡ digest q =
          λ q o e f. rw (e, f) (ap digest (append-nil q)) in
        let digests =
          sym (key query params none_1 plain) ∙ same ∙ key other params2 none_2 plain2 in
        ap₂ (λ q o. answer digest execute_query q o s) (apart query other there there2 digests)
          (none_1 ∙ sym none_2)

    select_all_sound :
        (m : ℕ) (qs : List Select) (x : Executor R S)
        → IsSound digest execute_query Asked m x
        → All (λ (q : Select). Asked q.query q.params) qs
        → (select_all qs x).0 ≡ answers qs x.db
    unfolding select_all
    select_all_sound m [] x sound h = refl
    select_all_sound m (q ∷ qs) x sound h =
        let now =
          execute-IsAnswer digest execute_query Asked (λ query params asked. asked.0) reads keyed m
            q.now q.later q.query q.params x sound h.0 in
        let y = (execute digest execute_query q.now q.later true q.query q.params x).1 in
        ap₂ (λ r rs. r ∷ rs) now.0 (select_all_sound m qs y now.2 h.1 ∙ ap (answers qs) now.1)

  abbrev pub texts_of : List Select → List Text
  texts_of qs = map (λ (q : Select). q.query) qs

  -- A SELECT without parameters, in lower case and without white space around it.
  abbrev pub IsPlain : Select → Type 0
  IsPlain q = (is_select q.query ≡ true) × (q.params ≡ none) × (strip (lower q.query) ≡ q.query)

  All-Asked :
      (qs : List Select) (texts : List Text)
      → ((t : Text) → among t (texts_of qs) ≡ true → among t texts ≡ true)
      → All IsPlain qs
      → All
          (λ (q : Select).
            (is_select q.query ≡ true)
            × (q.params ≡ none)
            × (strip (lower q.query) ≡ q.query)
            × (among q.query texts ≡ true))
          qs
  All-Asked [] texts within h = tt
  All-Asked (q ∷ qs) texts within h = (
    (h.0.0, h.0.1, h.0.2, within q.query (rw (==-refl q.query) refl)),
    All-Asked qs texts (λ t there. within t (ground (arith, there))) h.1,
  )

  -- A cache does not change answers: a series of SELECTs without parameters, in lower case and
  -- without white space around them, that goes through an executor whose cache is new and not of size
  -- zero gets what the database itself answers, at whatever times; if no SELECT changes the database
  -- and no two texts of the series have the same digest.
  pub select_all-answers :
      (m default_ttl : ℕ) (qs : List Select) (s : S)
      → ((query : Text) (params : Option Text) (s : S)
          → is_select query ≡ true
          → (execute_query query params s).1 ≡ s)
      → ((a b : Text)
          → among a (texts_of qs) ≡ true
          → among b (texts_of qs) ≡ true
          → digest a ≡ digest b
          → a ≡ b)
      → All IsPlain qs
      → (select_all qs (new_executor (suc m) default_ttl s)).0 ≡ answers qs s
  unfolding get
  select_all-answers m default_ttl qs s reads apart h =
      select_all_sound reads (texts_of qs) apart m qs (new_executor (suc m) default_ttl s)
        ((refl, omega arith, tt), refl, λ k e get_e. cc)
        (All-Asked qs (texts_of qs) (λ t there. there) h)
