-- ===== src/Text/Split.antt =====
-- split and rsplit of texts.
use kos_db.Base.{
  ℕ, ◌≡◌, refl, arith, Bool, true, false, ◌||◌, List, [], ◌∷◌, ◌++◌, if◌then◌else◌, nat_eq,
}
use kos_db.Text.{Text}
use kos_db.Text.Case.{is_space}

-- t.split(c, 1)[1], of a text with that character: what follows the first c
unfoldable pub after_first : ℕ → Text → Text
after_first c [] = []
after_first c (b ∷ t) = let rest = after_first c t in if nat_eq b c then t else rest

unfoldable pub has_code : ℕ → Text → Bool
has_code c [] = false
has_code c (b ∷ t) = let rest = has_code c t in if nat_eq b c then true else rest

-- t.rsplit(c, 1)[-1]: what follows the last c, or all of it
unfoldable pub after_last : ℕ → Text → Text
unfolding has_code
after_last c [] = []
after_last c (b ∷ t) =
    let rest = after_last c t in if has_code c t then rest else if nat_eq b c then t else b ∷ t

-- a word that is being read, if there is one, and those behind it
abbrev close_word : Text → List Text → List Text
close_word [] ws = ws
close_word (c ∷ w) ws = (c ∷ w) ∷ ws

words_from : Text → Text → List Text
unfolding is_space
words_from word [] = close_word word []
words_from word (c ∷ t) =
    let more = words_from (word ++ c ∷ []) t in
    let rest = words_from [] t in if is_space c then close_word word rest else more

-- t.split()
unfoldable pub words : Text → List Text
unfolding words_from
words t = words_from [] t

pub has_code-append : (c : ℕ) (s t : Text) → has_code c (s ++ t) ≡ (has_code c s || has_code c t)
unfolding has_code
has_code-append c [] t = refl
has_code-append c (b ∷ s) t = ground (arith, has_code-append c s t)

-- The last c is found behind any beginning.
pub after_last-append :
    (c : ℕ) (s t : Text) → has_code c t ≡ true → after_last c (s ++ t) ≡ after_last c t
unfolding after_last
after_last-append c [] t h = refl
after_last-append c (b ∷ s) t h =
    rw (has_code-append c s t, h) ground (arith, after_last-append c s t h)

pub after_last-here : (c : ℕ) (t : Text) → has_code c t ≡ false → after_last c (c ∷ t) ≡ t
unfolding after_last
after_last-here c t h = rw h ground arith
