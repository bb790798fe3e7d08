-- ===== src/Database/Select/Keys.antt =====
-- database.py: the keys of index entries, and conditions on one column.
use kos_db.Base.{
  ◌≡◌, refl, ◌∙◌, ap, true, false, some, List, [], ◌∷◌, ◌++◌, arith, append_assoc, Option-cases,
  inl, inr, ==-refl,
}
use kos_db.Dict.{get}
use kos_db.Dict.Removal.{among}
use kos_db.Text.{Text, text_key, text_same, text_same_iff, codes}
use kos_db.Text.Split.{has_code, after_last, after_last-append, after_last-here}
use kos_db.Database.{Row}
use kos_db.Database.Rows.{idx_key}
use kos_db.Database.Queries.{str_cell, matches}
use kos_db.Database.Select.{row_keys_of}

pub after_last-idx_key :
    (t col value row_key : Text)
    → has_code 0 row_key ≡ false
    → after_last 0 (idx_key t col value row_key) ≡ row_key
unfolding idx_key has_code
after_last-idx_key t col value row_key h =
    let start = codes "_idx:" ++ t ++ codes ":" ++ col ++ 0 ∷ [] ++ value in
    ap (after_last 0) (append_assoc start (0 ∷ []) row_key)
    ∙ after_last-append 0 start (0 ∷ row_key) refl
    ∙ after_last-here 0 row_key h

pub matches-get :
    (col value : Text) (condition row : Row)
    → matches condition row ≡ true
    → get col condition ≡ some value
    → str_cell col row ≡ value
unfolding matches get
matches-get col value [] row h e = cc
matches-get col value ((c, v) ∷ condition) row h e = ground (
  arith,
  text_same_iff c col,
  text_same_iff (str_cell c row) v,
  h,
  e,
  matches-get col value condition row,
)

-- A row whose cell reads as this value, which is not that of a missing cell, has the value.
pub str_cell-get :
    (col value : Text) (row : Row)
    → str_cell col row ≡ value
    → text_same value (codes "None") ≡ false
    → get col row ≡ some value
unfolding str_cell
str_cell-get col value row h named = elim (Option-cases (get col row)) [
  | inl missing ↦ ground (arith, missing, h, named, text_same_iff value (codes "None"))
  | inr found ↦ ground (arith, found.1, h)
]

pub among-row_keys_of :
    (k : Text) (ks : List Text) → among k ks ≡ true → among (after_last 0 k) (row_keys_of ks) ≡ true
unfolding row_keys_of
among-row_keys_of k [] h = cc
among-row_keys_of k (j ∷ ks) h =
    ground (arith, text_same_iff j k, ==-refl (after_last 0 k), among-row_keys_of k ks)
