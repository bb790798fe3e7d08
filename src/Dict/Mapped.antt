-- ===== src/Dict/Mapped.antt =====
-- A loop that changes the values of a dict in place.
use kos_db.Base.{◌≡◌, refl, ap, suc, Option, none, some, [], ◌∷◌, arith, Key, length}
use kos_db.Dict.{Dict, get, has}
use kos_db.Dict.Values.{map_values}
use kos_db.Dict.Distinct.{IsDistinct}

module _ {ℓ κ} {K : Type ℓ} {V : Type κ} ⦃k : Key K⦄ (f : V → V) where
  pub get-map_values :
      (a : K) (d : Dict K V)
      → get a (map_values f d)
        ≡ elim (get a d) as (λ x. Option V) [ none ↦ none | some v ↦ some (f v) ]
  unfolding get map_values
  get-map_values a [] = refl
  get-map_values a ((b, v) ∷ d) = ground (arith, get-map_values a d)

  pub has-map_values : (a : K) (d : Dict K V) → has a (map_values f d) ≡ has a d
  unfolding has map_values
  has-map_values a [] = refl
  has-map_values a ((b, v) ∷ d) = ground (arith, has-map_values a d)

  pub length-map_values : (d : Dict K V) → length (map_values f d) ≡ length d
  unfolding map_values
  length-map_values [] = refl
  length-map_values ((b, v) ∷ d) = ap suc (length-map_values d)

  pub map_values-IsDistinct : (d : Dict K V) → IsDistinct d → IsDistinct (map_values f d)
  unfolding map_values
  map_values-IsDistinct [] h = tt
  map_values-IsDistinct ((b, v) ∷ d) h =
      ground (arith, has-map_values b d, map_values-IsDistinct d h.1, h.0)
