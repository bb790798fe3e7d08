-- ===== src/Database/Select/Indexed.antt =====
-- database.py, _select_with_where_index: what the index finds is what a scan of the table finds.
use kos_db.Base.{
  ◌≡◌, refl, sym, ap, ◌∙◌, subst, Bool, true, false, Option, none, some, List, [], ◌∷◌, arith, ◌==◌,
  inl, inr, Bool-cases, Option-cases,
}
use kos_db.Dict.{get, get-none, has-of_none}
use kos_db.Dict.Removal.{among}
use kos_db.Text.{Text, text_key, text_same, text_same_iff, codes}
use kos_db.Text.Prefix.{starts_with, starts_with-append, starts_with-rest}
use kos_db.Level.{Level}
use kos_db.Database.{Database, Schema, Row, Blob, make_key}
use kos_db.Database.Rows.{idx_prefix, stored_keys}
use kos_db.Database.Rows.Insert.{IsOpen}
use kos_db.Database.Tables.{row_prefix, get_committed}
use kos_db.Database.Queries.{scan, rows_of, table_entries}
use kos_db.Database.Queries.Entries.{
  get-table_entries, table_entries-IsDistinct, row_key-plain, schema_key-underscore,
}
use kos_db.Database.Select.{
  find_index_col, row_keys_of, legacy_key, fetch, select_legacy, select_entries,
  select_with_where_index, if_complete,
}
use kos_db.Database.Select.Members.{
  hit_of, rows_of-values, get-scan, has-scan, scan-IsDistinct, fetched, fetch-fetched,
  fetched-IsDistinct, get-fetched, get-fetched_other, if-none,
}
use kos_db.Dict.Counting.{count, counts_same}
use kos_db.Database.Select.Complete.{
  IsComplete, ArePlain, AllRows, get_current-idle, fetch_complete, among-entries, row_keys-IsOnce,
}

module _ (L : Level Blob) where
  -- The same under the key of a row.
  get-entries_row :
      (t col value j : Text) (condition : Row) (found : List (Text × Row)) (d : Database L)
      → IsOpen L d
      → d.transaction_active ≡ false
      → starts_with (codes "_") t ≡ false
      → IsComplete L t col d
      → AllRows L t d
      → get col condition ≡ some value
      → text_same value (codes "None") ≡ false
      → scan t condition (table_entries L t d) ≡ some found
      → get
          (make_key t j)
          (fetched L t condition (row_keys_of (stored_keys L (idx_prefix t col value) d)) d)
        ≡ get (make_key t j) found
  unfolding make_key
  get-entries_row t col value j condition found d o idle name complete all e named h =
      let js = row_keys_of (stored_keys L (idx_prefix t col value) d) in
      let k = make_key t j in
      let own : starts_with (row_prefix L t) k ≡ true = starts_with-append (row_prefix L t) j in
      let plain_key = schema_key-underscore t k (row_key-plain t k name own) in
      let scanned : get k found ≡ hit_of condition (get_committed L k d) =
        get-scan t k condition (table_entries L t d) found (table_entries-IsDistinct L t d o) h
          plain_key
        ∙ ap (hit_of condition) (get-table_entries L t k d o ∙ rw own refl) in
      let there = among-entries L t col value j condition in
      get-fetched L t j condition js d
      ∙ rw (get_current-idle L k d idle)
          (elim (Option-cases (hit_of condition (get_committed L k d))) [
            | inl missing ↦
                if-none L (among j js) (hit_of condition (get_committed L k d)) missing
                ∙ sym missing
                ∙ sym scanned
            | inr hit ↦ rw (there hit.0 d o complete all e named hit.1) (sym scanned)
          ])

  -- What the index names is, key by key, what a scan finds.
  get-entries :
      (t col value k : Text) (condition : Row) (found : List (Text × Row)) (d : Database L)
      → IsOpen L d
      → d.transaction_active ≡ false
      → starts_with (codes "_") t ≡ false
      → IsComplete L t col d
      → AllRows L t d
      → get col condition ≡ some value
      → text_same value (codes "None") ≡ false
      → scan t condition (table_entries L t d) ≡ some found
      → get k (fetched L t condition (row_keys_of (stored_keys L (idx_prefix t col value) d)) d)
        ≡ get k found
  unfolding make_key
  get-entries t col value k condition found d o idle name complete all e named h =
      let js = row_keys_of (stored_keys L (idx_prefix t col value) d) in
      elim (Bool-cases (starts_with (row_prefix L t) k)) [
        | inr apart ↦
            get-fetched_other L t k condition js d (λ j.
              ground (
                arith,
                starts_with-append (row_prefix L t) j,
                text_same_iff (make_key t j) k,
                apart,
              ))
            ∙ sym (
                get-none k found (
                  has-scan t k condition (table_entries L t d) found h (
                    has-of_none k (table_entries L t d)
                      (get-table_entries L t k d o ∙ rw apart refl))))
        | inl own ↦
            let rest = starts_with-rest (row_prefix L t) k own in
            subst (λ i. get i (fetched L t condition js d) ≡ get i found) (sym rest.1)
              (get-entries_row t col value rest.0 condition found d o idle name complete all e named
                h)
      ]

  select_with_where_index-column :
      (t col value : Text) (condition : Row) (sc : Schema) (d : Database L)
      → find_index_col sc condition ≡ some col
      → elim sc.primary_key [ none ↦ false | some pk ↦ pk == col ] ≡ false
      → get col condition ≡ some value
      → select_with_where_index L t condition sc d ≡ select_entries L t condition col value d
  unfolding select_with_where_index
  select_with_where_index-column t col value condition sc d f other e =
      simp (f, e, other, select_with_where_index)

  fetch-or_legacy :
      (t col value : Text) (condition : Row) (ks : List Text) (d : Database L)
      → d.transaction_active ≡ false
      → AllRows L t d
      → get_committed L (legacy_key t col) d ≡ none
      → elim ks as (λ x. Option (List Row)) [
        | [] ↦ select_legacy L t condition col value d
        | j ∷ js ↦ if_complete (fetch L t condition (row_keys_of (j ∷ js)) d)
      ]
        ≡ some (fetch L t condition (row_keys_of ks) d).0
  unfolding select_legacy row_keys_of fetch
  fetch-or_legacy t col value condition [] d idle all no_legacy = rw (no_legacy, select_legacy) refl
  fetch-or_legacy t col value condition (j ∷ js) d idle all no_legacy =
      rw (fetch_complete L t condition (row_keys_of (j ∷ js)) d idle all) refl

  select_entries-fetch :
      (t col value : Text) (condition : Row) (d : Database L)
      → d.transaction_active ≡ false
      → AllRows L t d
      → get_committed L (legacy_key t col) d ≡ none
      → select_entries L t condition col value d
        ≡ some (fetch L t condition (row_keys_of (stored_keys L (idx_prefix t col value) d)) d).0
  unfolding select_entries
  select_entries-fetch t col value condition d =
      fetch-or_legacy t col value condition (stored_keys L (idx_prefix t col value) d) d

  -- Outside a transaction, for a table whose name does not begin with an underscore and whose
  -- values are rows: when the index of the column has an entry for every row with a value, neither
  -- row keys nor those that the entries of the value name have a NUL, and no aggregated index is left
  -- from older versions, a condition on the column, with another value than the text None, has an
  -- answer by the index, and it has the rows that a scan of the table finds, each as often: of
  -- whichever rows, both have the same number.
  pub select-index :
      (p : Row → Bool) (t col value : Text) (condition : Row) (sc : Schema)
      (found : List (Text × Row)) (d : Database L)
      → IsOpen L d
      → d.transaction_active ≡ false
      → starts_with (codes "_") t ≡ false
      → IsComplete L t col d
      → ArePlain L t col value d
      → AllRows L t d
      → get_committed L (legacy_key t col) d ≡ none
      → find_index_col sc condition ≡ some col
      → elim sc.primary_key [ none ↦ false | some pk ↦ pk == col ] ≡ false
      → get col condition ≡ some value
      → text_same value (codes "None") ≡ false
      → scan t condition (table_entries L t d) ≡ some found
      → (rows : List Row) × (select_with_where_index L t condition sc d ≡ some rows)
        × (count p rows ≡ count p (rows_of found))
  select-index p t col value condition sc found d o idle name complete plain all no_legacy f other e
        named h =
      let js = row_keys_of (stored_keys L (idx_prefix t col value) d) in
      (
        (fetch L t condition js d).0,
        select_with_where_index-column t col value condition sc d f other e
            ∙ select_entries-fetch t col value condition d idle all no_legacy,
        ap (count p) (fetch-fetched L t condition js d (fetch_complete L t condition js d idle all))
            ∙ counts_same p (fetched L t condition js d) found
                (fetched-IsDistinct L t condition js d (row_keys-IsOnce L t col value d o plain))
                (scan-IsDistinct t condition (table_entries L t d) found
                  (table_entries-IsDistinct L t d o) h)
                (λ k.
                  get-entries t col value k condition found d o idle name complete all e named h)
            ∙ ap (count p) (sym (rows_of-values found)),
      )
