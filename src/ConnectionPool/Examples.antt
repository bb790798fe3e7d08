-- ===== src/ConnectionPool/Examples.antt =====
-- Runs of small pools.
use kos_db.Base.{ℕ, ◌≢◌, Bool, true, Option, some, [], ◌∷◌}
use kos_db.Dict.{get, put}
use kos_db.Text.{Text, codes, str_nat}
use kos_db.ConnectionPool.{Pool, Lent, conn_id_of, get_connection}
use kos_db.ConnectionPool.Maintenance.{new_pool}
use kos_db.ConnectionPool.Invariant.{IsFair}
use kos_db.ConnectionPool.Clients.{Reaches, opened, asked, Reaches-IsFair, get_connection-ends}

-- Raw connections are numbers; all of them are valid.
abbrev numbered : ℕ → Option (Option ℕ)
numbered n = some (some n)

abbrev sound : ℕ → ℕ → Bool
sound now raw = true

abbrev main : Text
main = codes "main"

abbrev first_id : Text
first_id = conn_id_of main 1

abbrev one : Pool ℕ
one = new_pool numbered 0 1 1 300 main

abbrev asked_one : Pool ℕ
asked_one = (get_connection numbered sound 5 one).1

one-Reaches : Reaches numbered sound asked_one (first_id ∷ [])
unfolding get_connection new_pool get put str_nat
one-Reaches = asked 5 (opened 0 1 1 300 main)

Reaches-IsFair_example : IsFair asked_one (first_id ∷ [])
Reaches-IsFair_example = Reaches-IsFair numbered sound one-Reaches

get_connection-ends_example : (get_connection numbered sound 6 asked_one).0 ≢ Lent.blocked
get_connection-ends_example = get_connection-ends numbered sound 6 one-Reaches
