-- ===== src/PreparedStatements/Invariant.antt =====
-- prepared_statements.py: what holds of a manager, and that its operations keep it.
use kos_db.Base.{
  ℕ, ◌≤◌, ◌<◌, ◌≡◌, refl, sym, ap, ◌∙◌, subst, true, false, Option, none, some, List, [], ◌∷◌,
  length, arith, nat_eq, leb, ◌==◌, Bool-cases, Option-cases, inl, inr, if-both,
}
use kos_db.Dict.{
  Dict, get, put, remove, has, get-put, get-remove, has-of_get, length-put, length-remove,
}
use kos_db.Text.{Text, text_key, text_same_iff}
use kos_db.PreparedStatements.{
  PreparedStatement, Manager, Parameters, normalize_sql, expired, drop_statement, drop_all,
  cleanup_expired, make_room, parse_statement, add_statement, prepare,
}
use kos_db.PreparedStatements.Execution.{increment_use, execute}
use kos_db.PreparedStatements.Placeholders.{IsMarked, IsOf, IsAny, parse_statement-IsOf}

-- The statement that an identifier stands for was made for a text of this normal form.
abbrev pub IsKnown : Manager → Text → Text → Type 0
IsKnown m sql id =
    (stmt : PreparedStatement) × (get id m.statements ≡ some stmt)
    × (normalize_sql stmt.original_sql ≡ sql)

-- Statements are well marked, and texts lead to statements that were made for them.
pub record IsSound (m : Manager) : Type 0 where
  pub marked :
      (id : Text) (stmt : PreparedStatement) → get id m.statements ≡ some stmt → IsMarked stmt
  pub fits : length m.statements ≤ m.max_statements
  pub known : (sql id : Text) → get sql m.sql_to_id ≡ some id → IsKnown m sql id

normal_or : Text → Option PreparedStatement → Text
normal_or sql none = sql
normal_or sql (some stmt) = normalize_sql stmt.original_sql

one_normal :
    (id j : Text) (statements : Dict Text PreparedStatement) (a b : PreparedStatement)
    → id == j ≡ true
    → get id statements ≡ some a
    → get j statements ≡ some b
    → normalize_sql a.original_sql ≡ normalize_sql b.original_sql
unfolding normal_or
one_normal id j statements a b e here there =
    ap (normal_or []) (sym here ∙ ap (λ k. get k statements) ((text_same_iff id j).0 e) ∙ there)

get-put_same :
    (id j : Text) (stmt : PreparedStatement) (statements : Dict Text PreparedStatement)
    → id == j ≡ true
    → get j (put id stmt statements) ≡ some stmt
get-put_same id j stmt statements e = get-put id j stmt statements ∙ rw e refl

get-put_other :
    (id j : Text) (stmt : PreparedStatement) (statements : Dict Text PreparedStatement)
    → id == j ≡ false
    → get j (put id stmt statements) ≡ get j statements
get-put_other id j stmt statements e = get-put id j stmt statements ∙ rw e refl

-- The removal of a statement and of the entry of its text.
removed :
    (id : Text) (m : Manager) (stmt : PreparedStatement)
    → get id m.statements ≡ some stmt
    → IsSound m
    → IsSound record m {
      statements = remove id m.statements;
      sql_to_id = remove (normalize_sql stmt.original_sql) m.sql_to_id;
    }
removed id m stmt there s = record {
  marked = λ j t h. ground (arith, get-remove id j m.statements, s.marked j t, h);
  fits = ground (arith, length-remove id m.statements, s.fits);
  known = λ sql j h.
      let old = s.known sql j (was sql j h) in (old.0, others sql j h old.0 old.1 old.2, old.2);
}
  where
    was :
        (sql j : Text)
        → get sql (remove (normalize_sql stmt.original_sql) m.sql_to_id) ≡ some j
        → get sql m.sql_to_id ≡ some j
    was sql j h = ground (arith, get-remove (normalize_sql stmt.original_sql) sql m.sql_to_id, h)

    others :
        (sql j : Text)
        → get sql (remove (normalize_sql stmt.original_sql) m.sql_to_id) ≡ some j
        → (t : PreparedStatement) → get j m.statements ≡ some t
        → normalize_sql t.original_sql ≡ sql
        → get j (remove id m.statements) ≡ some t
    others sql j h t here same = elim (Bool-cases (id == j)) [
      | inl e ↦ ground (
        arith,
        get-remove (normalize_sql stmt.original_sql) sql m.sql_to_id,
        h,
        text_same_iff (normalize_sql stmt.original_sql) sql,
        one_normal id j m.statements stmt t e there here ∙ same,
      )
      | inr e ↦ get-remove id j m.statements ∙ rw e here
    ]

pub drop_statement-IsSound : (id : Text) (m : Manager) → IsSound m → IsSound (drop_statement id m)
unfolding drop_statement
drop_statement-IsSound id m s = elim (Option-cases (get id m.statements)) [
  | inl none_there ↦ rw (drop_statement, none_there) s
  | inr there ↦ rw (drop_statement, there.1) (removed id m there.0 there.1 s)
]

drop_all-IsSound : (ids : List Text) (m : Manager) → IsSound m → IsSound (drop_all ids m)
unfolding drop_all
drop_all-IsSound [] m s = s
drop_all-IsSound (id ∷ ids) m s =
    drop_all-IsSound ids (drop_statement id m) (drop_statement-IsSound id m s)

pub cleanup_expired-IsSound : (now : ℕ) (m : Manager) → IsSound m → IsSound (cleanup_expired now m)
unfolding cleanup_expired
cleanup_expired-IsSound now m s =
    if-both IsSound (nat_eq m.ttl 0) s (drop_all-IsSound (expired now m.ttl m.statements) m s)

pub execute-IsSound :
    (id : Text) (given : Parameters) (m : Manager) → IsSound m → IsSound (execute id given m).1
unfolding execute increment_use kos_db.PreparedStatements.param_count
execute-IsSound id given m s = elim (Option-cases (get id m.statements)) [
  | inl none_there ↦ rw (execute, none_there) s
  | inr there ↦
      rw (execute, there.1)
        record {
          marked = λ j t h. elim (Bool-cases (id == j)) [
            | inl e ↦
                subst (IsAny IsMarked)
                  (sym (get-put_same id j (increment_use there.0) m.statements e) ∙ h)
                  (s.marked id there.0 there.1)
            | inr e ↦ s.marked j t (sym (get-put id j _ m.statements ∙ rw e refl) ∙ h)
          ];
          fits = ground (
            arith,
            length-put id (increment_use there.0) m.statements,
            has-of_get id there.0 m.statements there.1,
            s.fits,
          );
          known = λ sql j h. elim (Bool-cases (id == j)) [
            | inl e ↦
                let old = s.known sql j h in
                (
                  increment_use there.0,
                  get-put_same id j (increment_use there.0) m.statements e,
                  one_normal id j m.statements there.0 old.0 e there.1 old.1 ∙ old.2,
                )
            | inr e ↦
                let old = s.known sql j h in
                (old.0, get-put id j _ m.statements ∙ rw e old.1, old.2)
          ];
        }
]

-- A statement and the entry of its text, under a new identifier.
added :
    (id sql : Text) (m : Manager) (stmt : PreparedStatement)
    → has id m.statements ≡ false
    → length m.statements < m.max_statements
    → IsOf id sql stmt
    → IsSound m
    → IsSound record m {
      statements = put id stmt m.statements;
      sql_to_id = put (normalize_sql sql) id m.sql_to_id;
    }
added id sql m stmt fresh room made s = record {
  marked = λ j t h. elim (Bool-cases (id == j)) [
    | inl e ↦ subst (IsAny IsMarked) (sym (get-put_same id j stmt m.statements e) ∙ h) made.2
    | inr e ↦ s.marked j t (sym (get-put_other id j stmt m.statements e) ∙ h)
  ];
  fits = ground (arith, length-put id stmt m.statements, fresh, room);
  known = λ text j h. elim (Bool-cases (id == j)) [
    | inl e ↦ (stmt, get-put_same id j stmt m.statements e, own text j e h)
    | inr e ↦
        let old = s.known text j (was text j e h) in
        (old.0, get-put_other id j stmt m.statements e ∙ old.1, old.2)
  ];
}
  where
    was :
        (text j : Text)
        → id == j ≡ false
        → get text (put (normalize_sql sql) id m.sql_to_id) ≡ some j
        → get text m.sql_to_id ≡ some j
    was text j e h =
        ground (arith, get-put (normalize_sql sql) text id m.sql_to_id, text_same_iff id j, h, e)

    own :
        (text j : Text)
        → id == j ≡ true
        → get text (put (normalize_sql sql) id m.sql_to_id) ≡ some j
        → normalize_sql stmt.original_sql ≡ text
    own text j e h = elim (Bool-cases (normalize_sql sql == text)) [
      | inl q ↦ ap normalize_sql made.1 ∙ (text_same_iff (normalize_sql sql) text).0 q
      | inr q ↦
          let old =
            s.known text j
              (sym (get-put (normalize_sql sql) text id m.sql_to_id ∙ rw q refl) ∙ h) in
          ground (arith, has-of_get j old.0 m.statements old.1, fresh, text_same_iff id j, e)
    ]

pub add_statement-IsSound :
    (id : Text) (now : ℕ) (sql : Text) (m : Manager)
    → has id m.statements ≡ false
    → IsSound m
    → IsSound (add_statement id now sql m).1
unfolding add_statement
add_statement-IsSound id now sql m fresh s =
    elim (Bool-cases (leb m.max_statements (length m.statements))) [
      | inl full ↦ rw (add_statement, full) s
      | inr room ↦ elim (Option-cases (parse_statement id now sql)) [
        | inl refused ↦ rw (add_statement, room, refused) s
        | inr stmt ↦
            rw (add_statement, room, stmt.1)
              (added id sql m stmt.0 fresh (ground (arith, room))
                (subst (IsAny (IsOf id sql)) stmt.1 (parse_statement-IsOf id now sql)) s)
      ]
    ]
