-- ===== src/Database/Queries/Entries.antt =====
-- database.py: what the iterator over a table's keys gives.
use kos_db.Base.{◌≡◌, refl, false, [], ◌∷◌, ◌++◌, none, if◌then◌else◌, true, arith}
use kos_db.Dict.{get, has, has-get}
use kos_db.Dict.Distinct.{IsDistinct}
use kos_db.Text.{Text, text_key, codes}
use kos_db.Text.Prefix.{starts_with}
use kos_db.Level.{Level}
use kos_db.Database.{Database, Blob, schema_key}
use kos_db.Database.Rows.Insert.{IsOpen}
use kos_db.Database.Tables.{row_prefix, get_committed}
use kos_db.Database.Queries.{table_entries}

-- A key of a row does not begin with an underscore when the name of its table does not.
pub row_key-plain :
    (t k : Text)
    → starts_with (codes "_") t ≡ false
    → starts_with (t ++ codes ":") k ≡ true
    → starts_with (codes "_") k ≡ false
unfolding starts_with
row_key-plain t [] h own = refl
row_key-plain [] (b ∷ k) h own = ground (arith, own)
row_key-plain (a ∷ t) (b ∷ k) h own = ground (arith, own, h)

pub schema_key-underscore :
    (t k : Text) → starts_with (codes "_") k ≡ false → starts_with (schema_key t) k ≡ false
unfolding starts_with schema_key
schema_key-underscore t [] h = refl
schema_key-underscore t (b ∷ k) h = ground (arith, h)

module _ (L : Level Blob) where
  pub get-table_entries :
      (t k : Text) (d : Database L)
      → IsOpen L d
      → get k (table_entries L t d)
        ≡ (if starts_with (row_prefix L t) k then get_committed L k d else none)
  unfolding table_entries get_committed
  get-table_entries t k d o = rw (o.1) (L.get-iterator k (row_prefix L t) o.0)

  pub table_entries-IsDistinct :
      (t : Text) (d : Database L) → IsOpen L d → IsDistinct (table_entries L t d)
  unfolding table_entries
  table_entries-IsDistinct t d o = rw (o.1) (L.iterator-IsDistinct (row_prefix L t) o.0)

  pub has-table_entries :
      (t k : Text) (d : Database L)
      → IsOpen L d
      → has k (table_entries L t d) ≡ true
      → starts_with (row_prefix L t) k ≡ true
  has-table_entries t k d o held =
      let stored = has-get k (table_entries L t d) held in
      ground (arith, stored.1, get-table_entries t k d o)
