-- ===== src/PreparedStatements.antt =====
-- prepared_statements.py: PreparedStatementManager. Identifiers and times are arguments of prepare.
pub mod Execution
pub mod Placeholders
pub mod Binding
pub mod Letters
pub mod Invariant
pub mod Histories
mod Examples
use kos_db.Base.{
  ℕ, zero, suc, ◌+◌, Bool, true, false, not, ◌&&◌, ◌||◌, Option, none, some, List, [], ◌∷◌, ◌++◌,
  if◌then◌else◌, length, nat_eq, ltb, leb, Result, ok, err,
}
use kos_db.Dict.{Dict, get, put, remove, has}
use kos_db.Text.{Text, text_key, codes}
use kos_db.Text.Case.{lower, strip}
use kos_db.Text.Split.{words}

pub record PreparedStatement : Type 0 where
  pub statement_id : Text
  pub original_sql : Text
  pub parsed_sql : Text
  pub parameter_names : List Text
  pub parameter_positions : List ℕ
  pub created_at : ℕ
  pub use_count : ℕ

pub record Manager : Type 0 where
  pub max_statements : ℕ
  -- in seconds; None and 0 are no limit
  pub ttl : ℕ
  pub statements : Dict Text PreparedStatement
  pub sql_to_id : Dict Text Text

-- Values of parameters; the text of an object of another type is its `str`.
pub data Value : Type 0 where
  null : Value
  number : ℕ → Value
  text : Text → Value
  complex : Value
  object : Text → Value

-- A dict for names, a list for positions, or something else.
pub data Parameters : Type 0 where
  by_name : Dict Text Value → Parameters
  by_position : List Value → Parameters
  no_parameters : Parameters

pub data Error : Type 0 where
  too_many mixed expected_dict expected_list complex_value : Error
  unknown_statement missing_parameter : Text → Error
  wrong_count : ℕ → ℕ → Error

-- [a-zA-Z_] and [a-zA-Z0-9_]
abbrev pub is_start : ℕ → Bool
is_start c = (leb 97 c && leb c 122) || (leb 65 c && leb c 90) || nat_eq c 95

abbrev pub is_part : ℕ → Bool
is_part c = is_start c || (leb 48 c && leb c 57)

-- len(names) or len(positions)
unfoldable pub count_of : List Text → List ℕ → ℕ
count_of [] positions = length positions
count_of (name ∷ names) positions = suc (length names)

unfoldable pub param_count : PreparedStatement → ℕ
unfolding count_of
param_count stmt = count_of stmt.parameter_names stmt.parameter_positions

-- Where the search for named parameters stands: outside, behind a colon, or in a name.
pub data Scan : Type 0 where
  outside colon : Scan
  inside : Text → Scan

-- NAMED_PARAM_PATTERN.findall
unfoldable pub find_named : Scan → Text → List Text
find_named Scan.outside [] = []
find_named Scan.colon [] = []
find_named (Scan.inside name) [] = name ∷ []
find_named Scan.outside (c ∷ sql) =
    let from_colon = find_named Scan.colon sql in
    let from_here = find_named Scan.outside sql in if nat_eq c 58 then from_colon else from_here
find_named Scan.colon (c ∷ sql) =
    let in_name = find_named (Scan.inside (c ∷ [])) sql in
    let from_colon = find_named Scan.colon sql in
    let from_here = find_named Scan.outside sql in
    if is_start c then in_name else if nat_eq c 58 then from_colon else from_here
find_named (Scan.inside name) (c ∷ sql) =
    let in_name = find_named (Scan.inside (name ++ c ∷ [])) sql in
    let from_colon = find_named Scan.colon sql in
    let from_here = find_named Scan.outside sql in
    if is_part c then in_name else if nat_eq c 58 then name ∷ from_colon else name ∷ from_here

-- NAMED_PARAM_PATTERN.sub('?', sql); the mark of a name is written at its first letter.
unfoldable pub sub_named : Scan → Text → Text
sub_named Scan.outside [] = []
sub_named Scan.colon [] = 58 ∷ []
sub_named (Scan.inside name) [] = []
sub_named Scan.outside (c ∷ sql) =
    let from_colon = sub_named Scan.colon sql in
    let from_here = sub_named Scan.outside sql in if nat_eq c 58 then from_colon else c ∷ from_here
sub_named Scan.colon (c ∷ sql) =
    let in_name = sub_named (Scan.inside (c ∷ [])) sql in
    let from_colon = sub_named Scan.colon sql in
    let from_here = sub_named Scan.outside sql in
    if is_start c then 63 ∷ in_name else if nat_eq c 58 then 58 ∷ from_colon else 58 ∷ c ∷ from_here
sub_named (Scan.inside name) (c ∷ sql) =
    let in_name = sub_named (Scan.inside (name ++ c ∷ [])) sql in
    let from_colon = sub_named Scan.colon sql in
    let from_here = sub_named Scan.outside sql in
    if is_part c then in_name else if nat_eq c 58 then from_colon else c ∷ from_here

-- len(POSITIONAL_PATTERN.findall(sql))
unfoldable pub count_marks : Text → ℕ
count_marks [] = 0
count_marks (c ∷ sql) = let rest = count_marks sql in if nat_eq c 63 then suc rest else rest

-- list(range(start, start + n))
unfoldable pub range_from : ℕ → ℕ → List ℕ
range_from start zero = []
range_from start (suc n) = start ∷ range_from (suc start) n

-- ' '.join(words)
unfoldable pub join_words : List Text → Text
join_words [] = []
join_words (word ∷ []) = word
join_words (word ∷ next ∷ ws) = word ++ 32 ∷ join_words (next ∷ ws)

unfoldable pub normalize_sql : Text → Text
unfolding join_words
normalize_sql sql = join_words (words (lower (strip sql)))

-- the identifiers of the statements that were made too long ago
unfoldable pub expired : ℕ → ℕ → Dict Text PreparedStatement → List Text
expired now ttl [] = []
expired now ttl ((statement_id, stmt) ∷ statements) =
    let rest = expired now ttl statements in
    if ltb (stmt.created_at + ttl) now then statement_id ∷ rest else rest

-- the pop of deallocate and of the cleanup
unfoldable pub drop_statement : Text → Manager → Manager
unfolding normalize_sql
drop_statement statement_id m = elim (get statement_id m.statements) [
  | none ↦ m
  | some stmt ↦ record m {
    statements = remove statement_id m.statements;
    sql_to_id = remove (normalize_sql stmt.original_sql) m.sql_to_id;
  }
]

unfoldable pub drop_all : List Text → Manager → Manager
drop_all [] m = m
drop_all (statement_id ∷ ids) m = drop_all ids (drop_statement statement_id m)

unfoldable pub cleanup_expired : ℕ → Manager → Manager
unfolding expired drop_all
cleanup_expired now m = if nat_eq m.ttl 0 then m else drop_all (expired now m.ttl m.statements) m

-- The statement of a text with these names, unless it has both kinds of parameters.
unfoldable pub make_statement : Text → ℕ → Text → List Text → Option PreparedStatement
unfolding sub_named count_marks range_from
make_statement statement_id now sql [] = some record {
  statement_id = statement_id;
  original_sql = sql;
  parsed_sql = sql;
  parameter_names = [];
  parameter_positions = range_from 0 (count_marks sql);
  created_at = now;
  use_count = 0;
}
make_statement statement_id now sql (name ∷ names) =
    if ltb 0 (count_marks sql)
    then none
    else some record {
      statement_id = statement_id;
      original_sql = sql;
      parsed_sql = sub_named Scan.outside sql;
      parameter_names = name ∷ names;
      parameter_positions = [];
      created_at = now;
      use_count = 0;
    }

unfoldable pub parse_statement : Text → ℕ → Text → Option PreparedStatement
unfolding find_named make_statement
parse_statement statement_id now sql =
    make_statement statement_id now sql (find_named Scan.outside sql)

unfoldable pub add_statement : Text → ℕ → Text → Manager → Result Error Text × Manager
unfolding parse_statement normalize_sql
add_statement fresh_id now sql m =
    if leb m.max_statements (length m.statements)
    then (err too_many, m)
    else elim (parse_statement fresh_id now sql) [
      | none ↦ (err mixed, m)
      | some stmt ↦ (
        ok fresh_id,
        record m {
          statements = put fresh_id stmt m.statements;
          sql_to_id = put (normalize_sql sql) fresh_id m.sql_to_id;
        },
      )
    ]

-- What is done before the capacity is checked again.
unfoldable pub make_room : ℕ → Manager → Manager
unfolding cleanup_expired
make_room now m = if leb m.max_statements (length m.statements) then cleanup_expired now m else m

-- `fresh_id` is str(uuid.uuid4())[:16]
unfoldable pub prepare : Text → ℕ → Text → Manager → Result Error Text × Manager
unfolding normalize_sql make_room add_statement
prepare fresh_id now sql m = elim (get (normalize_sql sql) m.sql_to_id) [
  | some statement_id ↦ (ok statement_id, m)
  | none ↦ add_statement fresh_id now sql (make_room now m)
]
