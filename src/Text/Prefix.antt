-- ===== src/Text/Prefix.antt =====
-- startswith and endswith.
use kos_db.Base.{◌≡◌, refl, ap₂, arith, Bool, true, false, ◌&&◌, [], ◌∷◌, ◌++◌, nat_eq}
use mathlib.Core.List.{reverse}
use kos_db.Text.{Text}

-- t.startswith(p)
unfoldable pub starts_with : Text → Text → Bool
starts_with [] t = true
starts_with (a ∷ p) [] = false
starts_with (a ∷ p) (b ∷ t) = nat_eq a b && starts_with p t

-- t.endswith(p)
unfoldable pub ends_with : Text → Text → Bool
unfolding starts_with
ends_with p t = starts_with (reverse p) (reverse t)

pub starts_with-append : (p t : Text) → starts_with p (p ++ t) ≡ true
unfolding starts_with
starts_with-append [] t = refl
starts_with-append (a ∷ p) t = ground (arith, starts_with-append p t)

-- What follows the prefix.
pub starts_with-rest : (p t : Text) → starts_with p t ≡ true → (s : Text) × (t ≡ p ++ s)
unfolding starts_with
starts_with-rest [] t h = (t, refl)
starts_with-rest (a ∷ p) [] h = cc
starts_with-rest (a ∷ p) (b ∷ t) h =
    let rest = starts_with-rest p t (ground (arith, h)) in
    (rest.0, ap₂ ◌∷◌ (ground (arith, h)) rest.1)

pub append-cancel : (p s t : Text) → p ++ s ≡ p ++ t → s ≡ t
append-cancel [] s t h = h
append-cancel (a ∷ p) s t h = append-cancel p s t cc
