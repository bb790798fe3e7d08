-- ===== src/Database/Updates/Rows/Loop.antt =====
-- database.py, update: what the loop and the statement do to the rows.
use kos_db.Base.{
  ◌≡◌, refl, ◌∙◌, ap, suc, Bool, true, false, ◌||◌, Option, none, some, List, [], ◌∷◌, ◌++◌, arith,
  append-nil, append_assoc, if◌then◌else◌, Bool-cases, Option-cases, inl, inr, ==-refl, length,
}
use kos_db.Dict.{get, has, get-none}
use kos_db.Dict.Distinct.{IsDistinct}
use kos_db.Text.{Text, text_key, text_same_iff, codes}
use kos_db.Text.Prefix.{starts_with}
use kos_db.Level.{Level}
use kos_db.Database.{Database, Schema, Row, Blob, Entry, schema_key, get_current, updated}
use kos_db.Database.Rows.{update_row}
use kos_db.Database.Rows.Insert.{IsOpen, starts_with-indexed}
use kos_db.Database.Tables.{row_prefix, get_committed}
use kos_db.Database.Queries.Entries.{
  get-table_entries, table_entries-IsDistinct, has-table_entries, row_key-plain,
  schema_key-underscore,
}
use kos_db.Database.Queries.{matches, as_row, scan, table_entries}
use kos_db.Database.Queries.Delete.{get_current-log_rows}
use kos_db.Database.Updates.Rows.{IsPlain, update_one-plain}
use kos_db.Database.Updates.{Outcome, update_one, update_entries, close_update, update}

not_idx : (k : Text) → starts_with (codes "_i") k ≡ false → starts_with (codes "_idx:") k ≡ false
unfolding starts_with
not_idx [] h = refl
not_idx (a ∷ []) h = ground arith
not_idx (a ∷ b ∷ k) h = ground (arith, h)

not_index :
    (k : Text) → starts_with (codes "_i") k ≡ false → starts_with (codes "_index:") k ≡ false
unfolding starts_with
not_index [] h = refl
not_index (a ∷ []) h = ground arith
not_index (a ∷ b ∷ k) h = ground (arith, h)

module _ (L : Level Blob) where
  -- What the update makes of a stored value.
  abbrev pub set_value : Row → Row → Option Blob → Option Blob → Option Blob
  set_value set_clause condition none other = other
  set_value set_clause condition (some b) other = elim (as_row b) [
    | none ↦ other
    | some row ↦
        if matches condition row then some (Blob.row (update_row row set_clause)) else other
  ]

  -- The rows, updated.
  unfoldable pub set_rows : Row → List (Text × Row) → List Row
  set_rows set_clause [] = []
  set_rows set_clause ((key, row) ∷ found) = update_row row set_clause ∷ set_rows set_clause found

  abbrev skips : Text → Text → Bool
  skips t key =
      starts_with (schema_key t) key
      || starts_with (codes "_idx:") key
      || starts_with (codes "_index:") key

  -- No key of an index is in the list.
  abbrev AllPlain : List (Text × Blob) → Type 0
  AllPlain [] = Unit
  AllPlain ((key, value) ∷ entries) = (starts_with (codes "_i") key ≡ false) × AllPlain entries

  update_entries-plain :
      (t : Text) (sc : Schema) (set_clause condition : Row) (before : List Row)
      (entries : List (Text × Blob)) (found : List (Text × Row)) (k : Text) (d : Database L)
      → IsOpen L d
      → IsPlain sc set_clause
      → AllPlain entries
      → IsDistinct entries
      → scan t condition entries ≡ some found
      → starts_with (codes "_i") k ≡ false
      → let end = update_entries L t sc set_clause condition before entries d in
        (end.0 ≡ Outcome.finished (before ++ set_rows set_clause found))
        × (get_current L k end.1 ≡ (
            if starts_with (schema_key t) k
            then get_current L k d
            else set_value set_clause condition (get k entries) (get_current L k d)))
  unfolding update_entries scan set_rows get
  update_entries-plain t sc set_clause condition before [] found k d o plain all distinct h ki =
      let empty : found ≡ [] = cc in (rw (empty, append-nil before) refl, ground arith)
  update_entries-plain t sc set_clause condition before ((j, b) ∷ entries) found k d o plain all
        distinct h ki =
      let rest = update_entries-plain t sc set_clause condition before entries in
      elim (Bool-cases (starts_with (schema_key t) j)) [
        | inl skip ↦
            let end = rest found k d o plain all.1 distinct.1 (rw skip at h) ki in
            rw skip
              (end.0, end.1 ∙ ground (arith, text_same_iff j k, get-none j entries distinct.0))
        | inr own ↦ elim (Option-cases (as_row b)) [
          | inl e ↦ ground (arith, e)
          | inr e ↦ elim (Option-cases (scan t condition entries)) [
            | inl f ↦ ground (arith, e.1, f)
            | inr f ↦
                rw (own, not_idx j all.0, not_index j all.0, e.1)
                  elim (Bool-cases (matches condition e.0)) [
                    | inl m ↦
                        let one =
                          update_one-plain L t sc set_clause (length before) j k e.0 d o plain ki in
                        let row = update_row e.0 set_clause in
                        let d' = (update_one L t sc set_clause (length before) j e.0 d).1 in
                        let end =
                          update_entries-plain t sc set_clause condition (before ++ row ∷ [])
                            entries f.0 k d' one.1.is_open plain all.1 distinct.1 f.1 ki in
                        let same : (j, e.0) ∷ f.0 ≡ found = ground (arith, own, e.1, f.1, m, h) in
                        rw (m, one.0, ← same)
                          (
                            end.0
                                ∙ rw (append_assoc before (row ∷ []) (set_rows set_clause f.0))
                                    refl,
                            end.1
                                ∙ rw (one.1.current) (
                                    ground (
                                      arith,
                                      own,
                                      e.1,
                                      m,
                                      text_same_iff j k,
                                      get-none j entries distinct.0,
                                    )),
                          )
                    | inr m ↦
                        let same : f.0 ≡ found = ground (arith, own, e.1, f.1, m, h) in
                        let end = rest f.0 k d o plain all.1 distinct.1 f.1 ki in
                        rw (m, ← same)
                          (
                            end.0,
                            end.1
                                ∙ ground (
                                  arith,
                                  own,
                                  e.1,
                                  m,
                                  text_same_iff j k,
                                  get-none j entries distinct.0,
                                ),
                          )
                  ]
          ]
        ]
      ]

  AllPlain-iterator :
      (t : Text) (entries : List (Text × Blob))
      → starts_with (codes "_") t ≡ false
      → ((k : Text) → has k entries ≡ true → starts_with (row_prefix L t) k ≡ true)
      → AllPlain entries
  unfolding has
  AllPlain-iterator t [] plain own = tt
  AllPlain-iterator t ((j, b) ∷ entries) plain own = (
    starts_with-indexed L j (row_key-plain t j plain (own j (rw (==-refl j) refl))),
    AllPlain-iterator t entries plain (λ k h. own k (ground (arith, h))),
  )

  update-shape :
      (t : Text) (set_clause condition : Row) (sc : Schema) (d : Database L) (rows : List Row)
      → IsOpen L d
      → get_committed L (schema_key t) d ≡ some (Blob.schema sc)
      → (update_entries L t sc set_clause condition [] (table_entries L t d) d).0
        ≡ Outcome.finished rows
      → update L t set_clause condition d
        ≡ close_update L t set_clause condition
            (Outcome.finished rows)
            (update_entries L t sc set_clause condition [] (table_entries L t d) d).1
  unfolding update
  update-shape t set_clause condition sc d rows (s, o) known e = simp (o, known, e, update)

  length-set_rows :
      (set_clause : Row) (found : List (Text × Row))
      → length (set_rows set_clause found) ≡ length found
  unfolding set_rows
  length-set_rows set_clause [] = refl
  length-set_rows set_clause ((key, row) ∷ found) = ap suc (length-set_rows set_clause found)

  -- Updating columns other than the primary key and UNIQUE ones, of a table whose name does not
  -- begin with an underscore, that the store knows and whose values are rows: the reply counts the
  -- rows found, every matching row of the store reads with the new values, and every other key but
  -- those of indexes reads as before.
  pub update-reads :
      (t k : Text) (set_clause condition : Row) (sc : Schema) (found : List (Text × Row))
      (d : Database L)
      → IsOpen L d
      → starts_with (codes "_") t ≡ false
      → get_committed L (schema_key t) d ≡ some (Blob.schema sc)
      → scan t condition (table_entries L t d) ≡ some found
      → IsPlain sc set_clause
      → starts_with (codes "_i") k ≡ false
      → ((update L t set_clause condition d).0 ≡ updated (length found) t)
        × (get_current L k (update L t set_clause condition d).1 ≡ (
            if starts_with (row_prefix L t) k
            then set_value set_clause condition (get_committed L k d) (get_current L k d)
            else get_current L k d))
  unfolding close_update
  update-reads t k set_clause condition sc found d o name known h plain ki =
      let entries = table_entries L t d in
      let end =
        update_entries-plain t sc set_clause condition [] entries found k d o plain
          (AllPlain-iterator t entries name (λ j held. has-table_entries L t j d o held))
          (table_entries-IsDistinct L t d o) h ki in
      let rows = set_rows set_clause found in
      let e = (update_entries L t sc set_clause condition [] entries d).1 in
      rw (update-shape t set_clause condition sc d rows o known end.0) (
        rw (length-set_rows set_clause found) refl,
        get_current-log_rows L k (Entry.update t set_clause condition rows) rows e
            ∙ end.1
            ∙ rw (get-table_entries L t k d o)
                (ground (arith, row_key-plain t k name, schema_key-underscore t k)),
      )
