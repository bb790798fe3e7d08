-- ===== src/Text/Case.antt =====
-- lower, upper, strip and `in` of texts. Case is that of the ASCII letters.
use kos_db.Base.{ℕ, ◌+◌, ◌-◌, Bool, ◌&&◌, ◌||◌, [], ◌∷◌, leb, nat_eq, if◌then◌else◌, map}
use mathlib.Core.List.{reverse}
use kos_db.Text.{Text}
use kos_db.Text.Prefix.{starts_with}

unfoldable pub lower_code : ℕ → ℕ
lower_code c = if leb 65 c && leb c 90 then c + 32 else c

unfoldable pub upper_code : ℕ → ℕ
upper_code c = if leb 97 c && leb c 122 then c - 32 else c

-- s.lower()
unfoldable pub lower : Text → Text
unfolding lower_code
lower s = map lower_code s

-- s.upper()
unfoldable pub upper : Text → Text
unfolding upper_code
upper s = map upper_code s

-- c.isspace()
unfoldable pub is_space : ℕ → Bool
is_space c =
    nat_eq c 32
    || (leb 9 c && leb c 13)
    || (leb 28 c && leb c 31)
    || nat_eq c 133
    || nat_eq c 160
    || nat_eq c 5760
    || (leb 8192 c && leb c 8202)
    || nat_eq c 8232
    || nat_eq c 8233
    || nat_eq c 8239
    || nat_eq c 8287
    || nat_eq c 12288

unfoldable pub lstrip : Text → Text
unfolding is_space
lstrip [] = []
lstrip (c ∷ s) = if is_space c then lstrip s else c ∷ s

-- s.strip()
unfoldable pub strip : Text → Text
unfolding lstrip
strip s = reverse (lstrip (reverse (lstrip s)))

-- p in s
unfoldable pub contains : Text → Text → Bool
unfolding starts_with
contains p [] = starts_with p []
contains p (c ∷ s) = starts_with p (c ∷ s) || contains p s
