-- ===== src/PreparedStatements/Histories.antt =====
-- prepared_statements.py: the managers that a history reaches.
use kos_db.Base.{
  ℕ, ◌≡◌, refl, sym, ap, ◌∙◌, subst, Bool, false, some, List, [], ◌∷◌, length, arith, nat_eq, leb,
  ==-refl, ◌==◌, Bool-cases, Option-cases, inl, inr, Result, ok, err, if-both,
}
use kos_db.Dict.{get, has, get-put, has-remove}
use kos_db.Text.{Text, text_key}
use kos_db.PreparedStatements.{
  Manager, Parameters, Error, normalize_sql, expired, drop_statement, drop_all, cleanup_expired,
  make_room, parse_statement, add_statement, prepare,
}
use kos_db.PreparedStatements.Execution.{execute, deallocate, deallocate_all, new_manager}
use kos_db.PreparedStatements.Invariant.{
  IsKnown, IsSound, drop_statement-IsSound, cleanup_expired-IsSound, execute-IsSound,
  add_statement-IsSound,
}

make_room-IsSound : (now : ℕ) (m : Manager) → IsSound m → IsSound (make_room now m)
unfolding make_room
make_room-IsSound now m s =
    if-both IsSound (leb m.max_statements (length m.statements)) (cleanup_expired-IsSound now m s) s

-- An identifier is unknown.
abbrev pub IsFresh : Text → Manager → Type 0
IsFresh id m = has id m.statements ≡ false

drop_statement-IsFresh :
    (id j : Text) (m : Manager) → IsFresh id m → IsFresh id (drop_statement j m)
unfolding drop_statement
drop_statement-IsFresh id j m fresh = elim (Option-cases (get j m.statements)) [
  | inl missing ↦ rw (drop_statement, missing) fresh
  | inr there ↦
      rw (drop_statement, there.1)
        (has-remove j id m.statements ∙ if-both (λ b. b ≡ false) (j == id) refl fresh)
]

drop_all-IsFresh :
    (id : Text) (ids : List Text) (m : Manager) → IsFresh id m → IsFresh id (drop_all ids m)
unfolding drop_all
drop_all-IsFresh id [] m fresh = fresh
drop_all-IsFresh id (j ∷ ids) m fresh =
    drop_all-IsFresh id ids (drop_statement j m) (drop_statement-IsFresh id j m fresh)

make_room-IsFresh :
    (id : Text) (now : ℕ) (m : Manager) → IsFresh id m → IsFresh id (make_room now m)
unfolding make_room cleanup_expired
make_room-IsFresh id now m fresh =
    let cleaned = drop_all-IsFresh id (expired now m.ttl m.statements) m fresh in
    if-both (IsFresh id) (leb m.max_statements (length m.statements))
      (if-both (IsFresh id) (nat_eq m.ttl 0) fresh cleaned) fresh

-- The identifier is new to the manager.
pub prepare-IsSound :
    (id : Text) (now : ℕ) (sql : Text) (m : Manager)
    → has id m.statements ≡ false
    → IsSound m
    → IsSound (prepare id now sql m).1
unfolding prepare
prepare-IsSound id now sql m fresh s = elim (Option-cases (get (normalize_sql sql) m.sql_to_id)) [
  | inr known ↦ rw (prepare, known.1) s
  | inl unknown ↦
      rw (prepare, unknown)
        (add_statement-IsSound id now sql (make_room now m) (make_room-IsFresh id now m fresh)
          (make_room-IsSound now m s))
]

deallocate-IsSound : (id : Text) (m : Manager) → IsSound m → IsSound (deallocate id m).1
unfolding deallocate
deallocate-IsSound id m s =
    if-both (λ (r : Bool × Manager). IsSound r.1) (has id m.statements)
      (drop_statement-IsSound id m s) s

-- What calls can make of a new manager; the identifiers of uuid4 are new.
pub data Reaches : Manager → Type 0 where
  init : (max_statements ttl : ℕ) → Reaches (new_manager max_statements ttl)
  prepared :
      {m : Manager} (id : Text) (now : ℕ) (sql : Text)
      → IsFresh id m
      → Reaches m
      → Reaches (prepare id now sql m).1
  executed :
      {m : Manager} (id : Text) (given : Parameters) → Reaches m → Reaches (execute id given m).1
  deallocated : {m : Manager} (id : Text) → Reaches m → Reaches (deallocate id m).1
  emptied : {m : Manager} → Reaches m → Reaches (deallocate_all m)

pub Reaches-IsSound : {m : Manager} → Reaches m → IsSound m
unfolding new_manager deallocate_all get
Reaches-IsSound (init max_statements ttl) = record {
  marked = λ id stmt h. cc;
  fits = omega arith;
  known = λ sql id h. cc;
}
Reaches-IsSound (prepared id now sql fresh r) =
    prepare-IsSound id now sql _ fresh (Reaches-IsSound r)
Reaches-IsSound (executed id given r) = execute-IsSound id given _ (Reaches-IsSound r)
Reaches-IsSound (deallocated id r) = deallocate-IsSound id _ (Reaches-IsSound r)
Reaches-IsSound (emptied r) = record {
  marked = λ id stmt h. cc;
  fits = omega arith;
  known = λ sql id h. cc;
}

-- The identifier that was returned is the entry of the text.
abbrev IsRegistered : Text → Result Error Text × Manager → Type 0
IsRegistered sql (ok id, m) = get sql m.sql_to_id ≡ some id
IsRegistered sql (err e, m) = Unit

add_statement-IsRegistered :
    (id : Text) (now : ℕ) (sql : Text) (m : Manager)
    → IsRegistered (normalize_sql sql) (add_statement id now sql m)
unfolding add_statement
add_statement-IsRegistered id now sql m =
    elim (Bool-cases (leb m.max_statements (length m.statements))) [
      | inl full ↦ rw (add_statement, full) tt
      | inr room ↦ elim (Option-cases (parse_statement id now sql)) [
        | inl refused ↦ rw (add_statement, room, refused) tt
        | inr stmt ↦
            rw (add_statement, room, stmt.1)
              (get-put (normalize_sql sql) (normalize_sql sql) id m.sql_to_id
                ∙ rw (==-refl (normalize_sql sql)) refl)
      ]
    ]

prepare-IsRegistered :
    (id : Text) (now : ℕ) (sql : Text) (m : Manager)
    → IsRegistered (normalize_sql sql) (prepare id now sql m)
unfolding prepare
prepare-IsRegistered id now sql m = elim (Option-cases (get (normalize_sql sql) m.sql_to_id)) [
  | inr known ↦ rw (prepare, known.1) known.1
  | inl unknown ↦ rw (prepare, unknown) (add_statement-IsRegistered id now sql (make_room now m))
]

-- A second text with the same normal form gets what is registered.
prepare_registered :
    (id : Text) (now : ℕ) (sql statement_id : Text) (r : Result Error Text × Manager)
    → IsRegistered (normalize_sql sql) r
    → r.0 ≡ ok statement_id
    → prepare id now sql r.1 ≡ (ok statement_id, r.1)
unfolding prepare
prepare_registered id now sql statement_id (ok found, m) registered h =
    rw (prepare, registered) (ap (λ (o : Result Error Text). (o, m)) h)
prepare_registered id now sql statement_id (err e, m) registered h = cc

-- When a text was prepared, any other text with the same normal form gets the first text's statement
-- and changes nothing.
pub prepare_twice :
    (id later : Text) (now moment : ℕ) (sql other statement_id : Text) (m : Manager)
    → normalize_sql other ≡ normalize_sql sql
    → (prepare id now sql m).0 ≡ ok statement_id
    → prepare later moment other (prepare id now sql m).1
      ≡ (ok statement_id, (prepare id now sql m).1)
prepare_twice id later now moment sql other statement_id m same h =
    prepare_registered later moment other statement_id (prepare id now sql m)
      (subst (λ text. IsRegistered text (prepare id now sql m)) (sym same)
        (prepare-IsRegistered id now sql m))
      h

-- What prepare returns, for a manager that any history of calls has made, is an identifier of a
-- statement that was made for a text with the same normal form.
pub prepare-IsKnown :
    {m : Manager} (id : Text) (now : ℕ) (sql statement_id : Text)
    → IsFresh id m
    → Reaches m
    → (prepare id now sql m).0 ≡ ok statement_id
    → IsKnown (prepare id now sql m).1 (normalize_sql sql) statement_id
prepare-IsKnown {m} id now sql statement_id fresh r h =
    (Reaches-IsSound (prepared id now sql fresh r)).known (normalize_sql sql) statement_id
      (registered (prepare id now sql m) (prepare-IsRegistered id now sql m) h)
  where
    registered :
        (p : Result Error Text × Manager)
        → IsRegistered (normalize_sql sql) p
        → p.0 ≡ ok statement_id
        → get (normalize_sql sql) p.1.sql_to_id ≡ some statement_id
    registered (ok found, n) there e = cc
    registered (err e', n) there e = cc
