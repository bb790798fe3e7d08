-- ===== src/Text/Numbers.antt =====
-- Different numbers have different texts.
use Prim.Native.Nat.{◌/◌, ◌%◌}
use kos_db.Base.{
  ℕ, zero, suc, ◌+◌, ◌-◌, ◌*◌, ◌<◌, ◌≡◌, refl, sym, ap, ◌∙◌, [], ◌∷◌, ◌++◌, arith, ltb, Bool-cases,
  inl, inr,
}
use kos_db.Text.{Text, digits_of, str_nat}

-- int(s), behind digits that make the number `acc`
value_of : ℕ → Text → ℕ
value_of acc [] = acc
value_of acc (c ∷ s) = value_of (acc * 10 + (c - 48)) s

value_of-append :
    (acc c : ℕ) (s : Text) → value_of acc (s ++ c ∷ []) ≡ value_of acc s * 10 + (c - 48)
unfolding value_of
value_of-append acc c [] = refl
value_of-append acc c (b ∷ s) = value_of-append (acc * 10 + (b - 48)) c s

value_of-digits : (fuel n : ℕ) → n < fuel → value_of 0 (digits_of fuel n) ≡ n
unfolding value_of digits_of
value_of-digits zero n h = omega arith
value_of-digits (suc fuel) n h = elim (Bool-cases (ltb n 10)) [
  | inl small ↦ rw small (omega arith)
  | inr large ↦
      let rest = value_of-digits fuel (n / 10) (ground (arith, large, h)) in
      rw (large, value_of-append 0 (48 + n % 10) (digits_of fuel (n / 10)), rest) (omega arith)
]

pub str_nat-same : (m n : ℕ) → str_nat m ≡ str_nat n → m ≡ n
unfolding str_nat
str_nat-same m n h =
    sym (value_of-digits (suc m) m (omega arith))
    ∙ ap (value_of 0) h
    ∙ value_of-digits (suc n) n (omega arith)
