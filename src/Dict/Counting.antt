-- ===== src/Dict/Counting.antt =====
-- How often the values of a dict pass a test, and lists without repetition.
use kos_db.Base.{
  ℕ, suc, ◌≡◌, refl, sym, subst, ap, ◌∙◌, Bool, false, some, List, [], ◌∷◌, arith, Key, ◌==◌,
  if◌then◌else◌, Bool-cases, inl, inr, ==-refl,
}
use kos_db.Dict.{Dict, get, has, remove, get-remove, remove-absent, get-none}
use kos_db.Dict.Values.{values, keys}
use kos_db.Dict.Distinct.{IsDistinct, remove-IsDistinct}
use kos_db.Dict.Removal.{among}

-- How many elements pass the test.
abbrev pub count {ℓ} : {A : Type ℓ} → (A → Bool) → List A → ℕ
count p [] = 0
count p (x ∷ xs) = let rest = count p xs in if p x then suc rest else rest

module _ {ℓ} {K : Type ℓ} ⦃k : Key K⦄ where
  -- No element twice.
  abbrev pub IsOnce : List K → Type 0
  IsOnce [] = Unit
  IsOnce (x ∷ xs) = (among x xs ≡ false) × IsOnce xs

swap {ℓ} :
    {A : Type ℓ} (p : A → Bool) (v w : A) (xs : List A)
    → count p (w ∷ v ∷ xs) ≡ count p (v ∷ w ∷ xs)
swap p v w xs = elim (Bool-cases (p v)) [
  | inl passes ↦
      rw passes (elim (Bool-cases (p w)) [ inl too ↦ rw too refl | inr not_too ↦ rw not_too refl ])
  | inr not_v ↦ rw not_v refl
]

module _ {ℓ κ} {K : Type ℓ} {V : Type κ} ⦃k : Key K⦄ where
  has-keys : (a : K) (d : Dict K V) → among a (keys d) ≡ has a d
  unfolding keys has
  has-keys a [] = refl
  has-keys a ((b, v) ∷ d) = rw (has-keys a d) refl

  pub keys-IsOnce : (d : Dict K V) → IsDistinct d → IsOnce (keys d)
  unfolding keys
  keys-IsOnce [] h = tt
  keys-IsOnce ((a, v) ∷ d) h = (has-keys a d ∙ h.0, keys-IsOnce d h.1)

  count-remove :
      (p : V → Bool) (a : K) (v : V) (d : Dict K V)
      → IsDistinct d
      → get a d ≡ some v
      → count p (values d) ≡ count p (v ∷ values (remove a d))
  unfolding get values remove
  count-remove p a v [] h e = cc
  count-remove p a v ((b, w) ∷ d) h e = elim (Bool-cases (b == a)) [
    | inl same ↦
        let gone : remove a d ≡ d =
          remove-absent a d (subst (λ c. has c d ≡ false) ((k.same_iff b a).0 same) h.0) in
        let value : w ≡ v = ground (arith, rw same at e) in rw (same, gone, value) refl
    | inr other ↦
        let rest = count-remove p a v d h.1 (rw other at e) in
        rw (other, rest) (swap p v w (values (remove a d)))
  ]

  -- Dicts that have the same values for all keys have the same values, as often.
  pub counts_same :
      (p : V → Bool) (d e : Dict K V)
      → IsDistinct d
      → IsDistinct e
      → ((a : K) → get a d ≡ get a e)
      → count p (values d) ≡ count p (values e)
  unfolding get values
  counts_same p [] [] h g same = refl
  counts_same p [] ((a, v) ∷ e) h g same = ground (arith, same a, ==-refl a)
  counts_same p ((a, v) ∷ d) e h g same =
      let here : get a e ≡ some v = sym (same a) ∙ rw (==-refl a) refl in
      let rest = counts_same p d (remove a e) h.1 (remove-IsDistinct a e g) (λ b.
        elim (Bool-cases (a == b)) [
          | inl here ↦
              get-none b d (subst (λ c. has c d ≡ false) ((k.same_iff a b).0 here) h.0)
              ∙ sym (get-remove a b e ∙ rw here refl)
          | inr other ↦ (sym (rw other refl) ∙ same b) ∙ sym (get-remove a b e ∙ rw other refl)
        ]) in
      ap (λ n. if p v then suc n else n) rest ∙ sym (count-remove p a v e g here)
