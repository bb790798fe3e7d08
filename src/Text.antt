-- ===== src/Text.antt =====
-- Texts as lists of code points: keys of the store, names and cells of tables.
pub mod Prefix
pub mod Case
pub mod Split
pub mod Order
pub mod Numbers
use Prim.Native.Char.{code}
use Prim.Native.Nat.{◌/◌, ◌%◌}
use kos_db.Base.{
  ℕ, zero, suc, ◌+◌, String, ◌≡◌, ◌↔◌, refl, Bool, true, false, ◌&&◌, List, [], ◌∷◌, ◌++◌, arith,
  nat_eq, nat_eq_iff, ltb, Key, if◌then◌else◌,
}

abbrev pub Text : Type 0
Text = List ℕ

abbrev pub codes : String → Text
codes String.[] = []
codes (String.◌∷◌ c s) = code c ∷ codes s

abbrev pub text_same : Text → Text → Bool
text_same [] [] = true
text_same [] (b ∷ bs) = false
text_same (a ∷ xs) [] = false
text_same (a ∷ xs) (b ∷ bs) = nat_eq a b && text_same xs bs

pub text_same_iff : (a b : Text) → (text_same a b ≡ true) ↔ (a ≡ b)
text_same_iff [] [] = (λ h. refl, λ h. refl)
text_same_iff [] (b ∷ bs) = (λ h. cc, λ h. cc)
text_same_iff (a ∷ xs) [] = (λ h. cc, λ h. cc)
text_same_iff (a ∷ xs) (b ∷ bs) = ground (arith, text_same_iff xs bs, nat_eq_iff a b)

instance abbrev pub text_key : Key Text
text_key = record { same = text_same; same_iff = text_same_iff }

-- str(n) of a number, by its decimal digits.
pub digits_of : ℕ → ℕ → Text
digits_of zero n = []
digits_of (suc fuel) n =
    let rest = digits_of fuel (n / 10) in
    if ltb n 10 then (48 + n) ∷ [] else rest ++ (48 + n % 10) ∷ []

unfoldable pub str_nat : ℕ → Text
unfolding digits_of
str_nat n = digits_of (suc n) n

str_nat_example : str_nat 1203 ≡ codes "1203"
unfolding str_nat
str_nat_example = refl
