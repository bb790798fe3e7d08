-- ===== src/Database/Select/Statement.antt =====
-- database.py, select: the choice of the path, pagination and columns. Limit and offset are
-- natural numbers.
use kos_db.Base.{ℕ, Bool, Option, none, some, List, [], ◌∷◌, if◌then◌else◌, length, map, take, drop}
use kos_db.Dict.{get, put}
use kos_db.Dict.Removal.{among}
use kos_db.Text.{Text, text_key, text_same, codes}
use kos_db.Level.{Level}
use kos_db.Database.{Database, Schema, Row, Blob, schema_key}
use kos_db.Database.Tables.{get_committed}
use kos_db.Database.Queries.{scan, rows_of, table_entries}
use kos_db.Database.Select.{can_use_index, Sort, select_with_where_index, select_with_index}

-- What select returns: the rows as they are (raw), or what the formatting is given.
pub data Selected : Type 0 where
  no_selection : Selected
  table_unknown : Text → Selected
  failed : Selected
  rows : List Row → Selected
  answer : List Text → List Row → ℕ → Selected

-- columns, or those of the schema with id in front
unfoldable pub output_columns : Option (List Text) → Schema → List Text
output_columns wanted sc =
    let all_columns =
      if among (codes "id") sc.columns then sc.columns else codes "id" ∷ sc.columns in
    elim wanted [
      | none ↦ all_columns
      | some columns ↦ if among (codes "*") columns then all_columns else columns
    ]

-- {col: row.get(col, "NULL") for col in columns}
unfoldable pub filter_row : List Text → Row → Row
filter_row columns row = from [] columns
  where
    from : Row → List Text → Row
    from filtered [] = filtered
    from filtered (col ∷ columns) =
        from (put col (elim (get col row) [ none ↦ codes "NULL" | some value ↦ value ]) filtered)
          columns

-- results[start:start + limit]
unfoldable pub paginate : Option ℕ → Option ℕ → List Row → List Row
paginate none offset results = results
paginate (some limit) offset results =
    take limit (drop (elim offset [ none ↦ 0 | some start ↦ start ]) results)

module _ (L : Level Blob) where
  -- All rows of the table that match, in the order of their keys.
  unfoldable pub select_scan : Text → Row → Database L → Option (List Row)
  unfolding scan rows_of table_entries
  select_scan table_name condition d =
      elim (scan table_name condition (table_entries L table_name d)) [
        | none ↦ none
        | some found ↦ some (rows_of found)
      ]

module _ (L : Level Blob) (sort_results : Sort) where
  -- The rows, before pagination.
  unfoldable pub select_rows :
      Text → Row → Option Text → Bool → Schema → Database L → Option (List Row)
  unfolding can_use_index select_with_where_index select_with_index select_scan
  select_rows table_name condition order_by order_desc sc d =
      let scanned = select_scan L table_name condition d in
      if can_use_index sc condition
      then select_with_where_index L table_name condition sc d
      else elim order_by [
        | none ↦ scanned
        | some [] ↦ scanned
        | some (c ∷ col) ↦
            if text_same (c ∷ col) (codes "id")
            then elim scanned [
              | none ↦ none
              | some results ↦ sort_results (codes "id") order_desc results
            ]
            else select_with_index L sort_results table_name condition (c ∷ col) order_desc d
      ]

  unfoldable pub present :
      Option (List Text) → Bool → Option ℕ → Option ℕ → Schema → Option (List Row) → Selected
  unfolding output_columns filter_row paginate
  present columns raw limit offset sc none = failed
  present columns raw limit offset sc (some results) =
      let page = paginate limit offset results in
      let wanted = output_columns columns sc in
      if raw then rows page else answer wanted (map (filter_row wanted) page) (length results)

  unfoldable pub select :
      Text
      → Option (List Text)
      → Row
      → Option Text
      → Bool
      → Bool
      → Option ℕ
      → Option ℕ
      → Database L
      → Selected
  unfolding select_rows present get_committed
  select table_name columns condition order_by order_desc raw limit offset d = elim d.opened [
    | none ↦ if raw then rows [] else no_selection
    | some s ↦ elim (get_committed L (schema_key table_name) d) [
      | none ↦ if raw then rows [] else table_unknown table_name
      | some stored ↦ elim stored [
        | Blob.schema sc ↦
            present columns raw limit offset sc
              (select_rows table_name condition order_by order_desc sc d)
        | Blob.row r ↦ failed
        | Blob.index_mark ↦ failed
        | Blob.legacy_index m ↦ failed
      ]
    ]
  ]
