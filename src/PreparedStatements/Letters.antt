-- ===== src/PreparedStatements/Letters.antt =====
-- prepared_statements.py: statements that differ in the case of letters only.
use mathlib.Core.List.{reverse, reverse-cons}
use kos_db.Base.{
  ℕ, ◌<◌, ◌≡◌, refl, sym, ap, ◌∙◌, none, List, [], ◌∷◌, ◌++◌, length, arith, ◌&&◌, leb, Bool-cases,
  inl, inr, ok,
}
use kos_db.Dict.{get}
use kos_db.Text.{Text, text_key}
use kos_db.Text.Case.{lower, lower_code, is_space, strip, lstrip}
use kos_db.Text.Split.{words}
use kos_db.PreparedStatements.{
  Manager, Parameters, Value, Scan, find_named, normalize_sql, prepare, count_marks, join_words,
}
use kos_db.PreparedStatements.Execution.{execute}
use kos_db.PreparedStatements.Histories.{prepare_twice}
use kos_db.PreparedStatements.Binding.{IsPlain, execute-prepare}

-- Letters in another case make the same normal form.
is_space-lower_code : (c : ℕ) → is_space (lower_code c) ≡ is_space c
unfolding is_space lower_code
is_space-lower_code c = elim (Bool-cases (leb 65 c && leb c 90)) [
  | inl upper ↦ rw upper (ground (arith, upper))
  | inr other ↦ rw other refl
]

lower-lstrip : (s : Text) → lower (lstrip s) ≡ lstrip (lower s)
unfolding lower lstrip
lower-lstrip [] = refl
lower-lstrip (c ∷ s) = elim (Bool-cases (is_space c)) [
  | inl blank ↦ rw (is_space-lower_code c, blank) (lower-lstrip s)
  | inr other ↦ rw (is_space-lower_code c, other) refl
]

lower-append : (s t : Text) → lower (s ++ t) ≡ lower s ++ lower t
unfolding lower
lower-append [] t = refl
lower-append (c ∷ s) t = ap (λ r. lower_code c ∷ r) (lower-append s t)

lower-reverse : (s : Text) → lower (reverse s) ≡ reverse (lower s)
unfolding lower
lower-reverse [] = refl
lower-reverse (c ∷ s) =
    ap lower (reverse-cons c s)
    ∙ lower-append (reverse s) (c ∷ [])
    ∙ ap (λ r. r ++ lower_code c ∷ []) (lower-reverse s)
    ∙ sym (reverse-cons (lower_code c) (lower s))

lower-strip : (s : Text) → lower (strip s) ≡ strip (lower s)
unfolding strip
lower-strip s =
    lower-reverse (lstrip (reverse (lstrip s)))
    ∙ ap reverse (
        lower-lstrip (reverse (lstrip s))
        ∙ ap lstrip (lower-reverse (lstrip s) ∙ ap reverse (lower-lstrip s)))

normalize_sql-lower :
    (sql other : Text) → lower other ≡ lower sql → normalize_sql other ≡ normalize_sql sql
unfolding normalize_sql
normalize_sql-lower sql other same =
    ap (λ t. join_words (words t)) (lower-strip other ∙ ap strip same ∙ sym (lower-strip sql))

-- A statement without names is prepared, new and with room for it, and then another one that differs
-- from it in the case of letters only, be they in string literals: the second gets the identifier of
-- the first, and its execution with as many plain values as the first has `?` marks returns the text
-- of the first.
pub execute-prepare_other :
    (id later : Text) (now moment : ℕ) (sql other : Text) (values : List Value) (m : Manager)
    → lower other ≡ lower sql
    → get (normalize_sql sql) m.sql_to_id ≡ none
    → length m.statements < m.max_statements
    → find_named Scan.outside sql ≡ []
    → length values ≡ count_marks sql
    → IsPlain values
    → let second = prepare later moment other (prepare id now sql m).1 in
      (second.0 ≡ ok id)
      × ((execute id (Parameters.by_position values) second.1).0 ≡ ok (sql, values))
execute-prepare_other id later now moment sql other values m same new room names counts plain =
    let first = execute-prepare id now sql values m new room names counts plain in
    let normal = normalize_sql-lower sql other same in
    rw (prepare_twice id later now moment sql other id m normal first.0) (refl, first.1)
