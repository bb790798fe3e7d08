-- ===== src/PreparedStatements/Execution.antt =====
-- prepared_statements.py: binding of parameters, removal of statements, managers of sessions.
use kos_db.Base.{
  ℕ, suc, Bool, true, false, Option, none, some, List, [], ◌∷◌, ◌++◌, if◌then◌else◌, length, nat_eq,
  ltb, take, Result, ok, err,
}
use kos_db.Dict.{Dict, get, put, remove, has}
use kos_db.Dict.Values.{keys}
use kos_db.Text.{Text, text_key, codes}
use kos_db.PreparedStatements.{
  PreparedStatement, Manager, Value, Parameters, Error, unknown_statement, expected_dict,
  expected_list, missing_parameter, wrong_count, complex_value, drop_statement, param_count,
}

-- The warnings about dangerous values change nothing.
unfoldable pub validate_value : Value → Result Error Value
validate_value Value.null = ok Value.null
validate_value (Value.number n) = ok (Value.number n)
validate_value (Value.text t) = ok (Value.text t)
validate_value Value.complex = err complex_value
validate_value (Value.object t) = ok (Value.text t)

-- one more value in front, unless something was raised; the first error counts
unfoldable pub prepend : Result Error Value → Result Error (List Value) → Result Error (List Value)
prepend (err e) values = err e
prepend (ok v) (err e) = err e
prepend (ok v) (ok values) = ok (v ∷ values)

unfoldable pub bind_names : List Text → Dict Text Value → Result Error (List Value)
unfolding validate_value prepend
bind_names [] parameters = ok []
bind_names (name ∷ names) parameters =
    let rest = bind_names names parameters in
    elim (get name parameters) [
      | none ↦ err (missing_parameter name)
      | some v ↦ prepend (validate_value v) rest
    ]

unfoldable pub bind_values : List Value → Result Error (List Value)
unfolding validate_value prepend
bind_values [] = ok []
bind_values (v ∷ vs) = prepend (validate_value v) (bind_values vs)

unfoldable pub bind_positions : List ℕ → List Value → Result Error (List Value)
unfolding bind_values
bind_positions positions values =
    if nat_eq (length values) (length positions)
    then bind_values values
    else err (wrong_count (length positions) (length values))

-- What the names, or else the positions, are bound to.
unfoldable pub bind_either : List Text → List ℕ → Parameters → Result Error (List Value)
unfolding bind_names bind_positions
bind_either (name ∷ names) positions (Parameters.by_name given) = bind_names (name ∷ names) given
bind_either (name ∷ names) positions (Parameters.by_position given) = err expected_dict
bind_either (name ∷ names) positions Parameters.no_parameters = err expected_dict
bind_either [] (position ∷ positions) (Parameters.by_position given) =
    bind_positions (position ∷ positions) given
bind_either [] (position ∷ positions) (Parameters.by_name given) = err expected_list
bind_either [] (position ∷ positions) Parameters.no_parameters = err expected_list
bind_either [] [] given = ok []

unfoldable pub bind : PreparedStatement → Parameters → Result Error (List Value)
unfolding bind_either
bind stmt given = bind_either stmt.parameter_names stmt.parameter_positions given

unfoldable pub increment_use : PreparedStatement → PreparedStatement
increment_use stmt = record stmt { use_count = suc stmt.use_count }

unfoldable pub bound_sql : Text → Result Error (List Value) → Result Error (Text × List Value)
bound_sql sql (ok values) = ok (sql, values)
bound_sql sql (err e) = err e

-- (stmt.parsed_sql, bound_values), or what was raised; the use is counted first
unfoldable pub execute : Text → Parameters → Manager → Result Error (Text × List Value) × Manager
unfolding bind bound_sql increment_use
execute statement_id parameters m = elim (get statement_id m.statements) [
  | none ↦ (err (unknown_statement statement_id), m)
  | some stmt ↦ (
    bound_sql stmt.parsed_sql (bind stmt parameters),
    record m { statements = put statement_id (increment_use stmt) m.statements },
  )
]

unfoldable pub deallocate : Text → Manager → Bool × Manager
unfolding drop_statement
deallocate statement_id m =
    if has statement_id m.statements then (true, drop_statement statement_id m) else (false, m)

unfoldable pub deallocate_all : Manager → Manager
deallocate_all m = record m { statements = []; sql_to_id = [] }

unfoldable pub get_statement : Text → Manager → Option PreparedStatement
get_statement statement_id m = get statement_id m.statements

pub record Info : Type 0 where
  pub id : Text
  pub sql : Text
  pub params : ℕ
  pub use_count : ℕ
  pub created_at : ℕ

-- sql[:100] + '...' of a longer text
unfoldable pub shortened : Text → Text
shortened sql = if ltb 100 (length sql) then take 100 sql ++ codes "..." else sql

unfoldable pub list_statements : Dict Text PreparedStatement → List Info
unfolding shortened
list_statements [] = []
list_statements ((id, stmt) ∷ statements) =
    record {
      id = stmt.statement_id;
      sql = shortened stmt.original_sql;
      params = param_count stmt;
      use_count = stmt.use_count;
      created_at = stmt.created_at;
    }
    ∷ list_statements statements

unfoldable pub new_manager : ℕ → ℕ → Manager
new_manager max_statements ttl = record {
  max_statements = max_statements;
  ttl = ttl;
  statements = [];
  sql_to_id = [];
}

abbrev Sessions : Type 0
Sessions = Dict Text Manager

unfoldable pub get_session_manager : Text → Sessions → Manager × Sessions
unfolding new_manager
get_session_manager session_id sessions = elim (get session_id sessions) [
  | some m ↦ (m, sessions)
  | none ↦ (new_manager 100 3600, put session_id (new_manager 100 3600) sessions)
]

-- The manager that was emptied goes with it, for those who still hold it.
unfoldable pub remove_session_manager : Text → Sessions → Option Manager × Sessions
unfolding deallocate_all
remove_session_manager session_id sessions = elim (get session_id sessions) [
  | none ↦ (none, sessions)
  | some m ↦ (some (deallocate_all m), remove session_id sessions)
]

unfoldable pub list_session_managers : Sessions → List Text
list_session_managers sessions = keys sessions
