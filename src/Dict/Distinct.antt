-- ===== src/Dict/Distinct.antt =====
-- A dict holds each key once.
use kos_db.Base.{suc, ◌≡◌, refl, true, false, [], ◌∷◌, arith, Key, length}
use kos_db.Dict.{Dict, has, put, remove, has-put, has-remove, remove-absent}

module _ {ℓ κ} {K : Type ℓ} {V : Type κ} ⦃k : Key K⦄ where
  abbrev pub IsDistinct : Dict K V → Type 0
  IsDistinct [] = Unit
  IsDistinct ((a, v) ∷ d) = (has a d ≡ false) × IsDistinct d

  pub put-IsDistinct : (a : K) (w : V) (d : Dict K V) → IsDistinct d → IsDistinct (put a w d)
  unfolding put has
  put-IsDistinct a w [] h = (refl, tt)
  put-IsDistinct a w ((b, v) ∷ d) h =
      ground (arith, k.same_iff b a, k.same_iff a b, has-put a b w d, put-IsDistinct a w d h.1)

  pub remove-IsDistinct : (a : K) (d : Dict K V) → IsDistinct d → IsDistinct (remove a d)
  unfolding remove
  remove-IsDistinct a [] h = tt
  remove-IsDistinct a ((b, v) ∷ d) h = ground (arith, has-remove a b d, remove-IsDistinct a d h.1)

  pub length-remove_present :
      (a : K) (d : Dict K V) → IsDistinct d → has a d ≡ true → suc (length (remove a d)) ≡ length d
  unfolding remove has
  length-remove_present a [] h p = cc
  length-remove_present a ((b, v) ∷ d) h p =
      ground (arith, k.same_iff b a, remove-absent a d, length-remove_present a d h.1)
