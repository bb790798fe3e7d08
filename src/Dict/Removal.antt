-- ===== src/Dict/Removal.antt =====
-- Deleting several keys of a dict.
use kos_db.Base.{
  ◌≡◌, refl, Bool, true, false, not, ◌||◌, none, List, [], ◌∷◌, arith, Key, ◌==◌, if◌then◌else◌, ap,
  sym, ◌∙◌,
}
use kos_db.Dict.{Dict, get, remove, get-remove}
use kos_db.Dict.Values.{keys}
use kos_db.Dict.Distinct.{IsDistinct, remove-IsDistinct}

module _ {ℓ} {A : Type ℓ} where
  -- The elements that pass a test, in order.
  unfoldable pub keep : (A → Bool) → List A → List A
  keep p [] = []
  keep p (x ∷ xs) = let rest = keep p xs in if p x then x ∷ rest else rest

module _ {ℓ κ} {K : Type ℓ} {V : Type κ} ⦃k : Key K⦄ where
  -- for key in keys: del d[key]
  unfoldable pub remove_all : List K → Dict K V → Dict K V
  remove_all [] d = d
  remove_all (a ∷ as_) d = remove_all as_ (remove a d)

module _ {ℓ} {K : Type ℓ} ⦃k : Key K⦄ where
  abbrev pub among : K → List K → Bool
  among a [] = false
  among a (b ∷ bs) = b == a || among a bs

module _ {ℓ} {K : Type ℓ} ⦃k : Key K⦄ where
  keep-keep :
      (a : K) (bs xs : List K)
      → keep (λ c. not (among c bs)) (keep (λ b. not (b == a)) xs)
        ≡ keep (λ c. not (among c (a ∷ bs))) xs
  unfolding keep
  keep-keep a bs [] = refl
  keep-keep a bs (x ∷ xs) = ground (arith, keep-keep a bs xs, k.same_iff a x, k.same_iff x a)

  keep-all : (xs : List K) → keep (λ c. true) xs ≡ xs
  unfolding keep
  keep-all [] = refl
  keep-all (x ∷ xs) = ap (◌∷◌ x) (keep-all xs)

module _ {ℓ κ} {K : Type ℓ} {V : Type κ} ⦃k : Key K⦄ where
  pub get-remove_all :
      (a : K) (bs : List K) (d : Dict K V)
      → get a (remove_all bs d) ≡ (if among a bs then none else get a d)
  unfolding remove_all
  get-remove_all a [] d = refl
  get-remove_all a (b ∷ bs) d = ground (arith, get-remove_all a bs (remove b d), get-remove b a d)

  keys-remove : (a : K) (d : Dict K V) → keys (remove a d) ≡ keep (λ b. not (b == a)) (keys d)
  unfolding keys remove keep
  keys-remove a [] = refl
  keys-remove a ((b, v) ∷ d) = ground (arith, keys-remove a d)

  pub keys-remove_all :
      (bs : List K) (d : Dict K V) → keys (remove_all bs d) ≡ keep (λ c. not (among c bs)) (keys d)
  unfolding remove_all keep
  keys-remove_all [] d = sym (keep-all (keys d))
  keys-remove_all (b ∷ bs) d =
      keys-remove_all bs (remove b d) ∙ rw (keys-remove b d) (keep-keep b bs (keys d))

  pub remove_all-IsDistinct :
      (bs : List K) (d : Dict K V) → IsDistinct d → IsDistinct (remove_all bs d)
  unfolding remove_all
  remove_all-IsDistinct [] d h = h
  remove_all-IsDistinct (b ∷ bs) d h =
      remove_all-IsDistinct bs (remove b d) (remove-IsDistinct b d h)
