-- ===== src/Text/Order.antt =====
-- The order of texts, and `sorted`.
use kos_db.Base.{Bool, true, false, ◌&&◌, ◌||◌, List, [], ◌∷◌, if◌then◌else◌, nat_eq, ltb}
use kos_db.Text.{Text}

-- s < t
unfoldable pub text_ltb : Text → Text → Bool
text_ltb [] [] = false
text_ltb [] (b ∷ t) = true
text_ltb (a ∷ s) [] = false
text_ltb (a ∷ s) (b ∷ t) = ltb a b || (nat_eq a b && text_ltb s t)

module _ {ℓ} {A : Type ℓ} where
  -- before a list that is in order: behind what must precede it, and before all else
  unfoldable pub insert_sorted : (A → A → Bool) → A → List A → List A
  insert_sorted precedes x [] = x ∷ []
  insert_sorted precedes x (y ∷ ys) =
      let later = insert_sorted precedes x ys in if precedes y x then y ∷ later else x ∷ y ∷ ys

  -- The stable sort; `precedes` is the strict order of the keys, turned round by reverse=True.
  unfoldable pub sorted : (A → A → Bool) → List A → List A
  unfolding insert_sorted
  sorted precedes [] = []
  sorted precedes (x ∷ xs) = insert_sorted precedes x (sorted precedes xs)

-- key(y) < key(x), or the other way round
unfoldable pub key_precedes : Bool → Text → Text → Bool
unfolding text_ltb
key_precedes false s t = text_ltb s t
key_precedes true s t = text_ltb t s
