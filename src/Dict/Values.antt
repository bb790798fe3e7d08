-- ===== src/Dict/Values.antt =====
-- Loops over the values of a dict.
use kos_db.Base.{◌≡◌, refl, some, List, [], ◌∷◌, arith, Key, ap, All}
use kos_db.Dict.{Dict, get, put}

module _ {ℓ κ} {K : Type ℓ} {V : Type κ} where
  -- d.values()
  unfoldable pub values : Dict K V → List V
  values [] = []
  values ((a, v) ∷ d) = v ∷ values d

  -- d.keys()
  unfoldable pub keys : Dict K V → List K
  keys [] = []
  keys ((a, v) ∷ d) = a ∷ keys d

  -- for v in d.values(): v is updated in place by f
  unfoldable pub map_values : (V → V) → Dict K V → Dict K V
  map_values f [] = []
  map_values f ((a, v) ∷ d) = (a, f v) ∷ map_values f d

  pub keys-map_values : (f : V → V) (d : Dict K V) → keys (map_values f d) ≡ keys d
  unfolding keys map_values
  keys-map_values f [] = refl
  keys-map_values f ((a, v) ∷ d) = ap (◌∷◌ a) (keys-map_values f d)

  -- What f establishes holds of every value after the loop.
  pub All-map_values :
      (P : V → Type κ) (f : V → V) (d : Dict K V)
      → ((v : V) → P (f v))
      → All P (values (map_values f d))
  unfolding values map_values
  All-map_values P f [] h = tt
  All-map_values P f ((a, v) ∷ d) h = (h v, All-map_values P f d h)

module _ {ℓ κ} {K : Type ℓ} {V : Type κ} ⦃k : Key K⦄ where
  pub All-get :
      (P : V → Type κ) (a : K) (v : V) (d : Dict K V) → All P (values d) → get a d ≡ some v → P v
  unfolding values get
  All-get P a v [] h e = cc
  All-get P a v ((b, w) ∷ d) h e = ground (arith, All-get P a v d h.1)

  pub All-put :
      (P : V → Type κ) (a : K) (v : V) (d : Dict K V)
      → All P (values d)
      → P v
      → All P (values (put a v d))
  unfolding values put
  All-put P a v [] h p = (p, tt)
  All-put P a v ((b, w) ∷ d) h p = ground (arith, All-put P a v d h.1 p)
