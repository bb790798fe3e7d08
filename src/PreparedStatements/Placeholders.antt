-- ===== src/PreparedStatements/Placeholders.antt =====
-- prepared_statements.py: the marks of a parsed statement and its parameters.
use kos_db.Base.{
  ℕ, zero, suc, ◌+◌, ◌≡◌, refl, sym, ap, true, false, Option, none, some, List, [], ◌∷◌, ◌++◌,
  length, arith, nat_eq, ltb, Bool-cases, inl, inr,
}
use kos_db.Text.{Text}
use kos_db.PreparedStatements.{
  PreparedStatement, count_of, param_count, Scan, find_named, sub_named, count_marks, range_from,
  make_statement, parse_statement, is_start, is_part,
}

-- Names that are still being read have no mark yet, or have it already.
abbrev begun : Scan → ℕ
begun Scan.outside = 0
begun Scan.colon = 0
begun (Scan.inside name) = 1

-- No letter, digit, underscore or colon is a mark.
start-unmarked : (c : ℕ) → is_start c ≡ true → nat_eq c 63 ≡ false
start-unmarked c h = ground (arith, h)

part-unmarked : (c : ℕ) → is_part c ≡ true → nat_eq c 63 ≡ false
part-unmarked c h = ground (arith, h)

colon-unmarked : (c : ℕ) → nat_eq c 58 ≡ true → nat_eq c 63 ≡ false
colon-unmarked c h = ground (arith, h)

-- Replacing the names puts a mark for each of them beside the marks that are there.
count_marks-sub_named :
    (st : Scan) (sql : Text)
    → count_marks (sub_named st sql) + begun st ≡ length (find_named st sql) + count_marks sql
unfolding count_marks sub_named find_named
count_marks-sub_named Scan.outside [] = refl
count_marks-sub_named Scan.colon [] = refl
count_marks-sub_named (Scan.inside name) [] = refl
count_marks-sub_named Scan.outside (c ∷ sql) = elim (Bool-cases (nat_eq c 58)) [
  | inl e ↦ rw (e, colon-unmarked c e) (count_marks-sub_named Scan.colon sql)
  | inr e ↦ rw e (ground (arith, count_marks-sub_named Scan.outside sql))
]
count_marks-sub_named Scan.colon (c ∷ sql) = elim (Bool-cases (is_start c)) [
  | inl s ↦
      rw (s, start-unmarked c s) (ground (arith, count_marks-sub_named (Scan.inside (c ∷ [])) sql))
  | inr s ↦ elim (Bool-cases (nat_eq c 58)) [
    | inl e ↦ rw (s, e, colon-unmarked c e) (count_marks-sub_named Scan.colon sql)
    | inr e ↦ rw (s, e) (ground (arith, count_marks-sub_named Scan.outside sql))
  ]
]
count_marks-sub_named (Scan.inside name) (c ∷ sql) = elim (Bool-cases (is_part c)) [
  | inl s ↦ rw (s, part-unmarked c s) (count_marks-sub_named (Scan.inside (name ++ c ∷ [])) sql)
  | inr s ↦ elim (Bool-cases (nat_eq c 58)) [
    | inl e ↦ rw (s, e, colon-unmarked c e) (ground (arith, count_marks-sub_named Scan.colon sql))
    | inr e ↦
        rw (s, e)
          (elim (Bool-cases (nat_eq c 63)) [
            | inl q ↦ rw q (ground (arith, count_marks-sub_named Scan.outside sql))
            | inr q ↦ rw q (ground (arith, count_marks-sub_named Scan.outside sql))
          ])
  ]
]

pub length-range_from : (start n : ℕ) → length (range_from start n) ≡ n
unfolding range_from
length-range_from start zero = refl
length-range_from start (suc n) = ap suc (length-range_from (suc start) n)

-- One mark for each parameter.
abbrev pub IsMarked : PreparedStatement → Type 0
IsMarked stmt = count_marks stmt.parsed_sql ≡ param_count stmt

-- What is made of a text and its names.
abbrev pub IsOf : Text → Text → PreparedStatement → Type 0
IsOf id sql stmt = (stmt.statement_id ≡ id) × (stmt.original_sql ≡ sql) × IsMarked stmt

-- Whatever there is has the property.
abbrev pub IsAny {ℓ κ} : {A : Type ℓ} → (A → Type κ) → Option A → Type κ
IsAny P none = Unit
IsAny P (some a) = P a

not_positive : (n : ℕ) → ltb 0 n ≡ false → n ≡ 0
not_positive n h = ground (arith, h)

make_statement-IsOf :
    (id : Text) (now : ℕ) (sql : Text) (names : List Text)
    → find_named Scan.outside sql ≡ names
    → IsAny (IsOf id sql) (make_statement id now sql names)
unfolding make_statement param_count count_of
make_statement-IsOf id now sql [] e = (refl, refl, sym (length-range_from 0 (count_marks sql)))
make_statement-IsOf id now sql (name ∷ names) e = elim (Bool-cases (ltb 0 (count_marks sql))) [
  | inl mixed ↦ rw mixed tt
  | inr unmixed ↦ rw unmixed (refl, refl, marked unmixed)
]
  where
    marked :
        ltb 0 (count_marks sql) ≡ false
        → count_marks (sub_named Scan.outside sql) ≡ suc (length names)
    marked unmixed = omega (
      arith,
      count_marks-sub_named Scan.outside sql,
      ap length e,
      not_positive (count_marks sql) unmixed,
    )

pub parse_statement-IsOf :
    (id : Text) (now : ℕ) (sql : Text) → IsAny (IsOf id sql) (parse_statement id now sql)
unfolding parse_statement
parse_statement-IsOf id now sql = make_statement-IsOf id now sql (find_named Scan.outside sql) refl
