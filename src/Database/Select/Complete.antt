-- ===== src/Database/Select/Complete.antt =====
-- database.py: indexes that have an entry for every row, and the row keys that they name.
use kos_db.Base.{
  ◌≡◌, refl, sym, ap, ◌∙◌, subst, true, false, none, some, List, [], ◌∷◌, arith, ==-refl, ◌==◌, ◌⊎◌,
  inl, inr, Bool-cases,
}
use kos_db.Dict.{get}
use kos_db.Dict.Removal.{among}
use kos_db.Text.{Text, text_key, text_same, text_same_iff, codes}
use kos_db.Text.Prefix.{starts_with, starts_with-append, starts_with-rest}
use kos_db.Text.Split.{has_code, after_last}
use kos_db.Level.{Level}
use kos_db.Database.{Database, Row, Blob, make_key, get_current}
use kos_db.Database.Rows.{idx_prefix, idx_key, stored_keys}
use kos_db.Database.Rows.Insert.{IsOpen}
use kos_db.Database.Tables.{get_committed, is_some}
use kos_db.Database.Tables.Deletes.{among-stored_keys}
use kos_db.Database.Queries.{matches, as_row}
use kos_db.Database.Select.{row_keys_of, fetch}
use kos_db.Database.Select.Keys.{after_last-idx_key, matches-get, str_cell-get, among-row_keys_of}
use kos_db.Database.Select.Members.{hit_of}
use kos_db.Dict.Counting.{IsOnce, keys-IsOnce}

module _ (L : Level Blob) where
  -- Every row that has the column has its index entry.
  pub record IsComplete (t col : Text) (d : Database L) : Type 0 where
    pub entry :
        (row_key value : Text) (row : Row)
        → get_committed L (make_key t row_key) d ≡ some (Blob.row row)
        → get col row ≡ some value
        → is_some L (get_committed L (idx_key t col value row_key) d) ≡ true
    -- no NUL in the keys of rows
    pub plain :
        (row_key : Text)
        → is_some L (get_committed L (make_key t row_key) d) ≡ true
        → has_code 0 row_key ≡ false

  -- What is stored under the table's prefix is rows.
  abbrev pub AllRows : Text → Database L → Type 0
  AllRows t d =
      (row_key : Text)
      → (get_committed L (make_key t row_key) d ≡ none)
        ⊎ ((row : Row) × (get_committed L (make_key t row_key) d ≡ some (Blob.row row)))

  pub get_current-idle :
      (k : Text) (d : Database L)
      → d.transaction_active ≡ false
      → get_current L k d ≡ get_committed L k d
  unfolding get_current get_committed
  get_current-idle k d idle = rw idle refl

  pub fetch_complete :
      (t : Text) (condition : Row) (row_keys : List Text) (d : Database L)
      → d.transaction_active ≡ false
      → AllRows t d
      → (fetch L t condition row_keys d).1 ≡ true
  unfolding fetch as_row
  fetch_complete t condition [] d idle all = refl
  fetch_complete t condition (j ∷ row_keys) d idle all =
      let rest = fetch_complete t condition row_keys d idle all in
      ground (arith, rest, get_current-idle (make_key t j) d idle, all j)

  -- The entries of the value name row keys without a NUL.
  abbrev pub ArePlain : Text → Text → Text → Database L → Type 0
  ArePlain t col value d =
      (row_key : Text)
      → is_some L (get_committed L (idx_key t col value row_key) d) ≡ true
      → has_code 0 row_key ≡ false

  -- A row of the table that the condition on the column fits is behind an entry of the index.
  pub among-entries :
      (t col value j : Text) (condition row : Row) (d : Database L)
      → IsOpen L d
      → IsComplete t col d
      → AllRows t d
      → get col condition ≡ some value
      → text_same value (codes "None") ≡ false
      → hit_of condition (get_committed L (make_key t j) d) ≡ some row
      → among j (row_keys_of (stored_keys L (idx_prefix t col value) d)) ≡ true
  unfolding as_row idx_key idx_prefix
  among-entries t col value j condition row d o complete all e named hit = elim (all j) [
    | inl absent ↦ ground (arith, absent, hit)
    | inr stored ↦
        let row = stored.0 in
        let key = idx_key t col value j in
        let met : matches condition row ≡ true = ground (arith, stored.1, hit) in
        let cell = str_cell-get col value row (matches-get col value condition row met e) named in
        let entry = complete.entry j value row stored.1 cell in
        let prefixed : starts_with (idx_prefix t col value) key ≡ true =
          starts_with-append (idx_prefix t col value) j in
        let among_keys : among key (stored_keys L (idx_prefix t col value) d) ≡ true =
          among-stored_keys L (idx_prefix t col value) key d o ∙ ground (arith, prefixed, entry) in
        subst (λ x. among x (row_keys_of (stored_keys L (idx_prefix t col value) d)) ≡ true)
          (after_last-idx_key t col value j (complete.plain j (rw stored.1 refl)))
          (among-row_keys_of key (stored_keys L (idx_prefix t col value) d) among_keys)
  ]

  -- The key is that of an entry of the value.
  abbrev IsEntry : Text → Text → Text → Text → Type 0
  IsEntry t col value k = (j : Text) × (k ≡ idx_key t col value j) × (has_code 0 j ≡ false)

  among-entry :
      (t col value j : Text) (ks : List Text)
      → ((k : Text) → among k ks ≡ true → IsEntry t col value k)
      → among j (row_keys_of ks) ≡ true
      → among (idx_key t col value j) ks ≡ true
  unfolding row_keys_of
  among-entry t col value j [] entries h = cc
  among-entry t col value j (k ∷ ks) entries h =
      let first = entries k (rw (==-refl k) refl) in
      let named : after_last 0 k ≡ first.0 =
        ap (after_last 0) first.1 ∙ after_last-idx_key t col value first.0 first.2 in
      let later : among j (row_keys_of ks) ≡ true → among (idx_key t col value j) ks ≡ true =
        among-entry t col value j ks (λ i i_there. entries i (ground (arith, i_there))) in
      elim (Bool-cases (after_last 0 k == j)) [
        | inl same ↦
            let here : k ≡ idx_key t col value j =
              first.1
              ∙ ap (idx_key t col value) (sym named ∙ (text_same_iff (after_last 0 k) j).0 same) in
            ground (arith, here, text_same_iff k (idx_key t col value j))
        | inr other ↦ ground (arith, later (ground (arith, h, other)))
      ]

  row_keys_of-IsOnce :
      (t col value : Text) (ks : List Text)
      → ((k : Text) → among k ks ≡ true → IsEntry t col value k)
      → IsOnce ks
      → IsOnce (row_keys_of ks)
  unfolding row_keys_of
  row_keys_of-IsOnce t col value [] entries once = tt
  row_keys_of-IsOnce t col value (k ∷ ks) entries once =
      let first = entries k (rw (==-refl k) refl) in
      let later = λ (i : Text) (i_there : among i ks ≡ true). entries i (ground (arith, i_there)) in
      let named : after_last 0 k ≡ first.0 =
        ap (after_last 0) first.1 ∙ after_last-idx_key t col value first.0 first.2 in
      let again : among (after_last 0 k) (row_keys_of ks) ≡ true → among k ks ≡ true = λ h.
        subst (λ i. among i ks ≡ true) (ap (idx_key t col value) named ∙ sym first.1)
          (among-entry t col value (after_last 0 k) ks later h) in
      (ground (arith, again, once.0), row_keys_of-IsOnce t col value ks later once.1)

  stored_keys-IsOnce : (p : Text) (d : Database L) → IsOpen L d → IsOnce (stored_keys L p d)
  unfolding stored_keys
  stored_keys-IsOnce p d o =
      rw o.1 (keys-IsOnce (Level.iterator L p o.0) (Level.iterator-IsDistinct L p o.0))

  -- The row keys that the entries of a value name, each once.
  pub row_keys-IsOnce :
      (t col value : Text) (d : Database L)
      → IsOpen L d
      → ArePlain t col value d
      → IsOnce (row_keys_of (stored_keys L (idx_prefix t col value) d))
  unfolding idx_key idx_prefix
  row_keys-IsOnce t col value d o plain =
      row_keys_of-IsOnce t col value (stored_keys L (idx_prefix t col value) d)
        (λ k there.
          let shape = among-stored_keys L (idx_prefix t col value) k d o in
          let own : starts_with (idx_prefix t col value) k ≡ true = ground (arith, shape, there) in
          let rest = starts_with-rest (idx_prefix t col value) k own in
          let stored : is_some L (get_committed L k d) ≡ true = ground (arith, shape, there) in
          (
            rest.0,
            rest.1,
            plain rest.0 (subst (λ i. is_some L (get_committed L i d) ≡ true) rest.1 stored),
          ))
        (stored_keys-IsOnce (idx_prefix t col value) d o)
