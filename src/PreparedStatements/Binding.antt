-- ===== src/PreparedStatements/Binding.antt =====
-- prepared_statements.py: the values that are bound and the marks that they stand for.
use kos_db.Base.{
  ℕ, suc, ◌<◌, ◌≡◌, refl, sym, ap, ◌∙◌, subst, true, false, none, List, [], ◌∷◌, length, arith,
  nat_eq, leb, ==-refl, Bool-cases, Option-cases, inl, inr, Result, ok, err,
}
use kos_db.Dict.{Dict, get, put, get-put}
use kos_db.Text.{Text, text_key}
use kos_db.PreparedStatements.{
  PreparedStatement, Manager, Parameters, Value, Error, Scan, find_named, range_from, normalize_sql,
  prepare, make_room, add_statement, parse_statement, make_statement, count_of, param_count,
  count_marks,
}
use kos_db.PreparedStatements.Execution.{
  validate_value, prepend, bind_names, bind_values, bind_positions, bind_either, bind, bound_sql,
  execute,
}
use kos_db.PreparedStatements.Placeholders.{length-range_from}
use kos_db.PreparedStatements.Histories.{Reaches, Reaches-IsSound}

-- As many values as this, if there are any.
Counts : ℕ → Result Error (List Value) → Type 0
Counts n (ok values) = length values ≡ n
Counts n (err e) = Unit

prepend-Counts :
    (n : ℕ) (v : Result Error Value) (vs : Result Error (List Value))
    → Counts n vs
    → Counts (suc n) (prepend v vs)
unfolding prepend Counts
prepend-Counts n (err e) vs h = tt
prepend-Counts n (ok v) (err e) h = tt
prepend-Counts n (ok v) (ok vs) h = ap suc h

bind_names-Counts :
    (names : List Text) (given : Dict Text Value) → Counts (length names) (bind_names names given)
unfolding bind_names Counts
bind_names-Counts [] given = refl
bind_names-Counts (name ∷ names) given = elim (Option-cases (get name given)) [
  | inl missing ↦ rw (bind_names, missing) tt
  | inr v ↦
      rw (bind_names, v.1)
        (prepend-Counts (length names) (validate_value v.0) (bind_names names given)
          (bind_names-Counts names given))
]

bind_values-Counts : (values : List Value) → Counts (length values) (bind_values values)
unfolding bind_values Counts
bind_values-Counts [] = refl
bind_values-Counts (v ∷ vs) =
    prepend-Counts (length vs) (validate_value v) (bind_values vs) (bind_values-Counts vs)

bind_positions-Counts :
    (positions : List ℕ) (values : List Value)
    → Counts (length positions) (bind_positions positions values)
unfolding bind_positions Counts
bind_positions-Counts positions values =
    elim (Bool-cases (nat_eq (length values) (length positions))) [
      | inl same ↦
          rw (bind_positions, same)
            (subst (λ n. Counts n (bind_values values)) (ground (arith, same))
              (bind_values-Counts values))
      | inr other ↦ rw (bind_positions, other) tt
    ]

bind_either-Counts :
    (names : List Text) (positions : List ℕ) (given : Parameters)
    → Counts (count_of names positions) (bind_either names positions given)
unfolding bind_either Counts count_of
bind_either-Counts (name ∷ names) positions (Parameters.by_name given) =
    bind_names-Counts (name ∷ names) given
bind_either-Counts (name ∷ names) positions (Parameters.by_position given) = tt
bind_either-Counts (name ∷ names) positions Parameters.no_parameters = tt
bind_either-Counts [] (position ∷ positions) (Parameters.by_position given) =
    bind_positions-Counts (position ∷ positions) given
bind_either-Counts [] (position ∷ positions) (Parameters.by_name given) = tt
bind_either-Counts [] (position ∷ positions) Parameters.no_parameters = tt
bind_either-Counts [] [] given = refl

-- The marks of the text that is returned are as many as the values.
abbrev pub IsFilled : Result Error (Text × List Value) → Type 0
IsFilled (ok bound) = count_marks bound.0 ≡ length bound.1
IsFilled (err e) = Unit

bound_sql-IsFilled :
    (n : ℕ) (sql : Text) (values : Result Error (List Value))
    → count_marks sql ≡ n
    → Counts n values
    → IsFilled (bound_sql sql values)
unfolding bound_sql Counts
bound_sql-IsFilled n sql (ok values) h counts = h ∙ sym counts
bound_sql-IsFilled n sql (err e) h counts = tt

-- The text that a call of execute returns, for a manager that any history of calls has made, has as
-- many `?` marks as values come with it.
pub execute-IsFilled :
    {m : Manager} (id : Text) (given : Parameters) → Reaches m → IsFilled (execute id given m).0
unfolding execute bind param_count
execute-IsFilled {m} id given r = elim (Option-cases (get id m.statements)) [
  | inl missing ↦ rw (execute, missing) tt
  | inr there ↦
      rw (execute, there.1)
        (bound_sql-IsFilled (param_count there.0) there.0.parsed_sql (bind there.0 given)
          ((Reaches-IsSound r).marked id there.0 there.1)
          (bind_either-Counts there.0.parameter_names there.0.parameter_positions given))
]

-- Values that are bound as they are.
abbrev pub IsPlain : List Value → Type 0
IsPlain [] = Unit
IsPlain (v ∷ vs) = (validate_value v ≡ ok v) × IsPlain vs

bind_values_plain : (values : List Value) → IsPlain values → bind_values values ≡ ok values
unfolding bind_values prepend
bind_values_plain [] h = refl
bind_values_plain (v ∷ vs) h = rw (h.0, bind_values_plain vs h.1) refl

-- The statement of a text without names.
abbrev unnamed : Text → ℕ → Text → PreparedStatement
unnamed id now sql = record {
  statement_id = id;
  original_sql = sql;
  parsed_sql = sql;
  parameter_names = [];
  parameter_positions = range_from 0 (count_marks sql);
  created_at = now;
  use_count = 0;
}

make_room_free :
    (now : ℕ) (m : Manager)
    → leb m.max_statements (length m.statements) ≡ false
    → make_room now m ≡ m
unfolding make_room
make_room_free now m free = rw (make_room, free) refl

prepare-unnamed :
    (id : Text) (now : ℕ) (sql : Text) (m : Manager)
    → get (normalize_sql sql) m.sql_to_id ≡ none
    → length m.statements < m.max_statements
    → find_named Scan.outside sql ≡ []
    → prepare id now sql m ≡ (
      ok id,
      record m {
        statements = put id (unnamed id now sql) m.statements;
        sql_to_id = put (normalize_sql sql) id m.sql_to_id;
      },
    )
unfolding prepare add_statement parse_statement make_statement
prepare-unnamed id now sql m new room names =
    let free : leb m.max_statements (length m.statements) ≡ false = ground (arith, room) in
    rw (prepare, new)
      (ap (add_statement id now sql) (make_room_free now m free)
        ∙ rw (add_statement, free, parse_statement, names) refl)

-- Binding to positions of which there are as many.
bind_either_plain :
    (positions : List ℕ) (values : List Value)
    → length values ≡ length positions
    → IsPlain values
    → bind_either [] positions (Parameters.by_position values) ≡ ok values
unfolding bind_either bind_positions
bind_either_plain [] [] h plain = refl
bind_either_plain [] (v ∷ vs) h plain = ground (arith, h)
bind_either_plain (position ∷ positions) values h plain =
    let same : nat_eq (length values) (suc (length positions)) ≡ true = ground (arith, h) in
    rw same (bind_values_plain values plain)

-- A new text without names, for which there is room, is prepared under the new identifier, and its
-- execution with as many plain values as it has `?` marks returns the text and these values.
pub execute-prepare :
    (id : Text) (now : ℕ) (sql : Text) (values : List Value) (m : Manager)
    → get (normalize_sql sql) m.sql_to_id ≡ none
    → length m.statements < m.max_statements
    → find_named Scan.outside sql ≡ []
    → length values ≡ count_marks sql
    → IsPlain values
    → ((prepare id now sql m).0 ≡ ok id)
      × ((execute id (Parameters.by_position values) (prepare id now sql m).1).0 ≡ ok (sql, values))
unfolding execute bind bound_sql
execute-prepare id now sql values m new room names counts plain =
    rw (prepare-unnamed id now sql m new room names) (
      refl,
      rw (execute, get-put id id (unnamed id now sql) m.statements, ==-refl id)
          (ap (bound_sql sql) (
            bind_either_plain (range_from 0 (count_marks sql)) values
              (counts ∙ sym (length-range_from 0 (count_marks sql))) plain)),
    )
