-- ===== src/Dict.antt =====
-- Python's `dict` and `OrderedDict`: a list of entries, oldest insertion first.
pub mod Values
pub mod Distinct
pub mod Removal
pub mod Mapped
pub mod Counting
use kos_db.Base.{
  ℕ, suc, ◌+◌, ◌≤◌, ◌<◌, ◌≡◌, refl, Bool, true, false, ◌||◌, Option, none, some, List, [], ◌∷◌,
  ◌++◌, arith, Key, ◌==◌, if◌then◌else◌, length, Bool-cases, inl, inr,
}

abbrev pub Dict {ℓ κ} : Type ℓ → Type κ → Type (ℓ ⊔ κ)
Dict K V = List (K × V)

module _ {ℓ κ} {K : Type ℓ} {V : Type κ} ⦃k : Key K⦄ where
  -- d.get(key)
  unfoldable pub get : K → Dict K V → Option V
  get a [] = none
  get a ((b, v) ∷ d) = if b == a then some v else get a d

  -- key in d
  unfoldable pub has : K → Dict K V → Bool
  has a [] = false
  has a ((b, v) ∷ d) = (b == a) || has a d

  -- d[key] = value: an old key keeps its place, a new key goes to the end.
  unfoldable pub put : K → V → Dict K V → Dict K V
  put a w [] = (a, w) ∷ []
  put a w ((b, v) ∷ d) = if b == a then (b, w) ∷ d else (b, v) ∷ put a w d

  -- d.pop(key, None), del d[key]
  unfoldable pub remove : K → Dict K V → Dict K V
  remove a [] = []
  remove a ((b, v) ∷ d) = let rest = remove a d in if b == a then rest else (b, v) ∷ rest

  pub get-put :
      (a b : K) (w : V) (d : Dict K V) → get b (put a w d) ≡ (if a == b then some w else get b d)
  unfolding get put
  get-put a b w [] = refl
  get-put a b w ((c, v) ∷ d) =
      ground (arith, k.same_iff a b, k.same_iff c a, k.same_iff c b, get-put a b w d)

  pub get-remove :
      (a b : K) (d : Dict K V) → get b (remove a d) ≡ (if a == b then none else get b d)
  unfolding get remove
  get-remove a b [] = ground arith
  get-remove a b ((c, v) ∷ d) =
      ground (arith, k.same_iff a b, k.same_iff c a, k.same_iff c b, get-remove a b d)

  pub has-put : (a b : K) (w : V) (d : Dict K V) → has b (put a w d) ≡ (a == b || has b d)
  unfolding has put
  has-put a b w [] = refl
  has-put a b w ((c, v) ∷ d) =
      ground (arith, k.same_iff a b, k.same_iff c a, k.same_iff c b, has-put a b w d)

  pub has-remove :
      (a b : K) (d : Dict K V) → has b (remove a d) ≡ (if a == b then false else has b d)
  unfolding has remove
  has-remove a b [] = ground arith
  has-remove a b ((c, v) ∷ d) =
      ground (arith, k.same_iff a b, k.same_iff c a, k.same_iff c b, has-remove a b d)

  pub has-get : (a : K) (d : Dict K V) → has a d ≡ true → (v : V) × (get a d ≡ some v)
  unfolding has get
  has-get a [] h = cc
  has-get a ((b, v) ∷ d) h = elim (Bool-cases (b == a)) [
    | inl here ↦ (v, rw here)
    | inr other ↦ rw other (has-get a d (ground arith))
  ]

  pub has-of_get : (a : K) (v : V) (d : Dict K V) → get a d ≡ some v → has a d ≡ true
  unfolding has get
  has-of_get a v [] h = cc
  has-of_get a v ((b, w) ∷ d) h = ground (arith, has-of_get a v d)

  pub get-none : (a : K) (d : Dict K V) → has a d ≡ false → get a d ≡ none
  unfolding has get
  get-none a [] h = refl
  get-none a ((b, v) ∷ d) h = ground (arith, get-none a d)

  pub has-of_none : (a : K) (d : Dict K V) → get a d ≡ none → has a d ≡ false
  unfolding has get
  has-of_none a [] h = refl
  has-of_none a ((b, v) ∷ d) h = ground (arith, has-of_none a d)

  pub length-put :
      (a : K) (w : V) (d : Dict K V)
      → length (put a w d) ≡ (if has a d then length d else suc (length d))
  unfolding has put
  length-put a w [] = refl
  length-put a w ((b, v) ∷ d) = ground (arith, length-put a w d)

  pub length-remove : (a : K) (d : Dict K V) → length (remove a d) ≤ length d
  unfolding remove
  length-remove a [] = omega arith
  length-remove a ((b, v) ∷ d) = ground (arith, length-remove a d)

  -- Removing a key that is not there changes nothing.
  pub remove-absent : (a : K) (d : Dict K V) → has a d ≡ false → remove a d ≡ d
  unfolding has remove
  remove-absent a [] h = refl
  remove-absent a ((b, v) ∷ d) h = ground (arith, remove-absent a d)

pub ruleset dict_laws = (get-put, get-remove, has-put, has-remove)
