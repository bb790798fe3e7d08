-- ===== src/Database/Updates/Duplicates.antt =====
-- database.py, _check_unique_violation: a row with the value of another row.
use mathlib.Core.List.{reverse, reverse-reverse, reverse-append}
use kos_db.Base.{
  Bool, ◌≡◌, refl, sym, subst, ap, ◌∙◌, true, false, not, some, List, [], ◌∷◌, ◌++◌, ◌==◌, ◌&&◌,
  ◌||◌, Bool-cases, Option-cases, inl, inr, arith,
}
use kos_db.Dict.{get}
use kos_db.Dict.Values.{keys}
use kos_db.Dict.Removal.{among}
use kos_db.Database.Tables.Deletes.{among-stored_keys}
use kos_db.Database.Select.Keys.{after_last-idx_key}
use kos_db.Database.Select.Complete.{IsComplete}
use kos_db.Text.{Text, text_key, text_same, text_same_iff, codes}
use kos_db.Text.Prefix.{starts_with, ends_with, starts_with-append, starts_with-rest}
use kos_db.Text.Split.{after_first, has_code, after_last, after_last-append, after_last-here}
use kos_db.Level.{Level}
use kos_db.Database.{Database, Schema, Row, Blob, make_key, transaction_put}
use kos_db.Database.Rows.{check_unique_violation, clashes, idx_key, idx_prefix, stored_keys}
use kos_db.Database.Rows.Insert.{IsOpen, put-IsOpen}
use kos_db.Database.Tables.{get_committed, is_some}

module _ (L : Level Blob) where
  get_committed-put :
      (j k : Text) (b : Blob) (d : Database L)
      → IsOpen L d
      → j == k ≡ false
      → get_committed L k (transaction_put L j b d) ≡ get_committed L k d
  unfolding get_committed transaction_put
  get_committed-put j k b d (s, o) other = elim (Bool-cases d.transaction_active) [
    | inl active ↦ rw (active, transaction_put) refl
    | inr idle ↦ rw (idle, transaction_put, o) (Level.read-write L j k b s ∙ rw other refl)
  ]

  -- The entry of another row key clashes.
  ends_with-entry :
      (t col value other row_key : Text)
      → has_code 0 other ≡ false
      → has_code 0 row_key ≡ false
      → text_same other row_key ≡ false
      → ends_with (0 ∷ row_key) (idx_key t col value other) ≡ false
  unfolding ends_with has_code
  ends_with-entry t col value other row_key plain plain2 apart =
      let k = idx_key t col value other in
      elim (Bool-cases (ends_with (0 ∷ row_key) k)) [
        | inr no_end ↦ no_end
        | inl end ↦
            let rest = starts_with-rest (reverse (0 ∷ row_key)) (reverse k) end in
            let shape : k ≡ reverse rest.0 ++ 0 ∷ row_key =
              sym (reverse-reverse k)
              ∙ ap reverse rest.1
              ∙ reverse-append (reverse (0 ∷ row_key)) rest.0
              ∙ ap (λ x. reverse rest.0 ++ x) (reverse-reverse (0 ∷ row_key)) in
            let same : other ≡ row_key =
              sym (after_last-idx_key t col value other plain)
              ∙ ap (after_last 0) shape
              ∙ after_last-append 0 (reverse rest.0) (0 ∷ row_key) refl
              ∙ after_last-here 0 row_key plain2 in
            ground (arith, apart, text_same_iff other row_key, same)
      ]

  clashes-among :
      (prefix row_key k : Text) (ks : List Text)
      → among k ks ≡ true
      → starts_with prefix k ≡ true
      → ends_with (0 ∷ row_key) k ≡ false
      → clashes prefix row_key ks ≡ true
  unfolding clashes
  clashes-among prefix row_key k [] there own apart = cc
  clashes-among prefix row_key k (j ∷ ks) there own apart = elim (Bool-cases (j == k)) [
    | inl same ↦
        subst
          (λ i.
            ((starts_with prefix i && not (ends_with (0 ∷ row_key) i)) || clashes prefix row_key ks)
            ≡ true)
          (sym ((text_same_iff j k).0 same)) (rw (own, apart) refl)
    | inr other ↦
        ground (arith, clashes-among prefix row_key k ks (sym (rw other refl) ∙ there) own apart)
  ]

  or_true : (b : Bool) → (b || true) ≡ true
  or_true true = refl
  or_true false = refl

  check-clashes :
      (t row_key col value : Text) (row : Row) (unique : List Text) (d : Database L)
      → among col unique ≡ true
      → get col row ≡ some value
      → clashes (idx_prefix t col value) row_key (stored_keys L (idx_prefix t col value) d) ≡ true
      → (clash : Text × Text) × (check_unique_violation L t row row_key unique d ≡ some clash)
  unfolding check_unique_violation
  check-clashes t row_key col value row [] d there cell clash = cc
  check-clashes t row_key col value row (c ∷ unique) d there cell clash =
      elim (Bool-cases (c == col)) [
        | inl same ↦
            let one = sym ((text_same_iff c col).0 same) in
            let cell_c = subst (λ x. get x row ≡ some value) one cell in
            let clash_c =
              subst
                (λ x.
                  clashes (idx_prefix t x value) row_key (stored_keys L (idx_prefix t x value) d)
                  ≡ true)
                one clash in
            (
              (c, value),
              rw
                  (
                    cell_c,
                    check_unique_violation,
                    clash_c,
                    or_true (clashes (idx_prefix t c value) row_key (keys d.transaction_changes)),
                  )
                  refl,
            )
        | inr other ↦
            let later =
              check-clashes t row_key col value row unique d (sym (rw other refl) ∙ there) cell
                clash in
            elim (Option-cases (get c row)) [
              | inl missing ↦ rw (check_unique_violation, missing) later
              | inr found ↦
                  elim (Bool-cases (
                    clashes (idx_prefix t c found.0) row_key (keys d.transaction_changes)
                    || clashes (idx_prefix t c found.0) row_key
                        (stored_keys L (idx_prefix t c found.0) d))) [
                          | inl here ↦
                              rw (check_unique_violation, found.1, here) ((c, found.0), refl)
                          | inr apart ↦ rw (check_unique_violation, found.1, apart) later
                        ]
            ]
      ]

  -- A written row has in a UNIQUE column a value of another row: the check finds a clash.
  pub other-clashes :
      (t key col value other : Text) (sc : Schema) (row other_row : Row) (d : Database L)
      → IsOpen L d
      → starts_with (codes "_idx:") key ≡ false
      → has_code 0 (after_first 58 key) ≡ false
      → among col sc.unique ≡ true
      → get col row ≡ some value
      → IsComplete L t col d
      → get_committed L (make_key t other) d ≡ some (Blob.row other_row)
      → get col other_row ≡ some value
      → text_same other (after_first 58 key) ≡ false
      → (clash : Text × Text) × (check_unique_violation L t row
            (after_first 58 key)
            sc.unique
            (transaction_put L key (Blob.row row) d)
          ≡ some clash)
  unfolding idx_key idx_prefix starts_with
  other-clashes t key col value other sc row other_row d o no_index plain_key is_unique cell
        complete stored other_cell apart =
      let written = transaction_put L key (Blob.row row) d in
      let prefix = idx_prefix t col value in
      let entry = idx_key t col value other in
      let row_key = after_first 58 key in
      let own : starts_with prefix entry ≡ true = starts_with-append prefix other in
      let differ : key == entry ≡ false = elim (Bool-cases (key == entry)) [
        | inr distinct ↦ distinct
        | inl same ↦
            let index : starts_with (codes "_idx:") key ≡ true =
              subst (λ k. starts_with (codes "_idx:") k ≡ true)
                (sym ((text_same_iff key entry).0 same)) refl in
            ground (arith, no_index, index)
      ] in
      let kept : is_some L (get_committed L entry written) ≡ true =
        ap (is_some L) (get_committed-put key entry (Blob.row row) d o differ)
        ∙ complete.entry other value other_row stored other_cell in
      let there : among entry (stored_keys L prefix written) ≡ true =
        among-stored_keys L prefix entry written (put-IsOpen L key (Blob.row row) d o)
        ∙ ground (arith, own, kept) in
      check-clashes t row_key col value row sc.unique written is_unique cell (
        clashes-among prefix row_key entry (stored_keys L prefix written) there own (
          ends_with-entry t col value other row_key (complete.plain other (rw stored refl))
            plain_key apart))
