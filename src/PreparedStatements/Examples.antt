-- ===== src/PreparedStatements/Examples.antt =====
-- prepared_statements.py: runs of a manager, and instances of its theorems.
use kos_db.Base.{arith, ◌≡◌, refl, List, [], ◌∷◌, ok}
use kos_db.Dict.{get, has}
use kos_db.Text.{Text, codes}
use kos_db.PreparedStatements.{
  Manager, Parameters, Value, Scan, Error, prepare, normalize_sql, sub_named, find_named,
  count_marks, param_count,
}
use kos_db.PreparedStatements.Execution.{new_manager, execute, deallocate, list_statements}
use kos_db.PreparedStatements.Invariant.{IsKnown}
use kos_db.PreparedStatements.Histories.{Reaches, prepare-IsKnown}
use kos_db.PreparedStatements.Letters.{execute-prepare_other}
use kos_db.PreparedStatements.Binding.{IsFilled, execute-IsFilled, execute-prepare}

abbrev one_id : Text
one_id = codes "1f"

abbrev two_id : Text
two_id = codes "2e"

abbrev insert : Text
insert = codes "INSERT INTO t VALUES (?, ?)"

abbrev by_name : Text
by_name = codes "SELECT * FROM t WHERE a = :a AND b = :b_2"

abbrev bob : Text
bob = codes "SELECT * FROM t WHERE name = 'Bob'"

abbrev lower_bob : Text
lower_bob = codes "SELECT * FROM t WHERE name = 'bob'"

abbrev named_marks : Text
named_marks = codes "SELECT * FROM t WHERE a = ? AND b = ?"

sub_named_run : sub_named Scan.outside by_name ≡ named_marks
unfolding sub_named
sub_named_run = refl

abbrev values : List Value
values = Value.number 1 ∷ Value.null ∷ []

abbrev start : Manager
unfolding new_manager
start = new_manager 2 3600

execute-prepare_example :
    ((prepare one_id 10 insert start).0 ≡ ok one_id)
    × ((execute one_id (Parameters.by_position values) (prepare one_id 10 insert start).1).0
        ≡ ok (insert, values))
unfolding start new_manager find_named count_marks get normalize_sql
    kos_db.PreparedStatements.Execution.validate_value
execute-prepare_example =
    execute-prepare one_id 10 insert values start refl (omega arith) refl refl (refl, (refl, tt))

execute-prepare_other_example :
    let second = prepare two_id 20 lower_bob (prepare one_id 10 bob start).1 in
    (second.0 ≡ ok one_id)
    × ((execute one_id (Parameters.by_position []) second.1).0 ≡ ok (bob, []))
unfolding start new_manager find_named count_marks get normalize_sql kos_db.Text.Case.lower
execute-prepare_other_example =
    execute-prepare_other one_id two_id 10 20 bob lower_bob [] start refl refl (omega arith) refl
      refl tt

execute-IsFilled_example :
    IsFilled
      (execute one_id
        (Parameters.by_position values)
        (prepare one_id 10 insert (new_manager 2 3600)).1).0
unfolding has new_manager
execute-IsFilled_example =
    execute-IsFilled one_id (Parameters.by_position values)
      (Reaches.prepared one_id 10 insert refl (Reaches.init 2 3600))

prepare-IsKnown_example :
    IsKnown (prepare one_id 10 insert (new_manager 2 3600)).1 (normalize_sql insert) one_id
unfolding has new_manager prepare get
prepare-IsKnown_example = prepare-IsKnown one_id 10 insert one_id refl (Reaches.init 2 3600) refl
