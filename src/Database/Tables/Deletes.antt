-- ===== src/Database/Tables/Deletes.antt =====
-- database.py: what deleting keys does to a session.
use kos_db.Base.{
  ◌≡◌, refl, ◌∙◌, Bool, ◌&&◌, none, List, [], ◌∷◌, arith, if◌then◌else◌, ◌==◌, Bool-cases,
  Option-cases, inl, inr,
}
use kos_db.Dict.{Dict, get, has, get-put, has-of_get, has-of_none}
use kos_db.Dict.Values.{keys}
use kos_db.Dict.Removal.{among}
use kos_db.Text.{Text, text_key}
use kos_db.Text.Prefix.{starts_with}
use kos_db.Level.{Level}
use kos_db.Database.{Database, Blob, get_current, transaction_delete}
use kos_db.Database.Rows.{stored_keys}
use kos_db.Database.Rows.Insert.{IsOpen}
use kos_db.Database.Tables.{get_committed, is_some, delete_keys}

module _ {V : Type 0} where
  among-keys : (k : Text) (d : Dict Text V) → among k (keys d) ≡ has k d
  unfolding keys has
  among-keys k [] = refl
  among-keys k ((j, v) ∷ d) = ground (arith, among-keys k d)

module _ (L : Level Blob) where
  open L use {Store, read, erase}

  pub delete-IsOpen : (j : Text) (d : Database L) → IsOpen L d → IsOpen L (transaction_delete L j d)
  unfolding transaction_delete
  delete-IsOpen j d o = elim (Bool-cases d.transaction_active) [
    | inl active ↦ rw active o
    | inr idle ↦ rw idle (erase j o.0, rw o.1 refl)
  ]

  pub get_current-delete :
      (j k : Text) (d : Database L)
      → IsOpen L d
      → get_current L k (transaction_delete L j d) ≡ (if j == k then none else get_current L k d)
  unfolding get_current transaction_delete
  get_current-delete j k d o = elim (Bool-cases d.transaction_active) [
    | inl active ↦ rw (active, o.1, get-put j k none d.transaction_changes) ground arith
    | inr idle ↦ rw (idle, o.1) (L.read-erase j k o.0)
  ]

  -- What the store holds, when a transaction is active and when none is.
  get_committed-delete :
      (j k : Text) (d : Database L)
      → IsOpen L d
      → get_committed L k (transaction_delete L j d) ≡ (
          if d.transaction_active
          then get_committed L k d
          else if j == k
          then none
          else get_committed L k d)
  unfolding get_committed transaction_delete
  get_committed-delete j k d o = elim (Bool-cases d.transaction_active) [
    | inl active ↦ rw active refl
    | inr idle ↦ rw (idle, o.1) (L.read-erase j k o.0)
  ]

  transaction_active-delete :
      (j : Text) (d : Database L)
      → (transaction_delete L j d).transaction_active ≡ d.transaction_active
  unfolding transaction_delete
  transaction_active-delete j d = elim (Bool-cases d.transaction_active) [
    | inl active ↦ rw active refl
    | inr idle ↦ rw idle refl
  ]

  -- What deleting keys does to the session.
  pub record Deletes (ks : List Text) (d e : Database L) : Type 0 where
    pub is_open : IsOpen L e
    pub same_mode : e.transaction_active ≡ d.transaction_active
    pub current : (k : Text) → get_current L k e ≡ (if among k ks then none else get_current L k d)
    pub committed :
        (k : Text)
        → get_committed L k e ≡ (
            if d.transaction_active
            then get_committed L k d
            else if among k ks
            then none
            else get_committed L k d)

  pub delete_keys-Deletes :
      (ks : List Text) (d : Database L) → IsOpen L d → Deletes ks d (delete_keys L ks d)
  unfolding delete_keys
  delete_keys-Deletes [] d o = record {
    is_open = o;
    same_mode = refl;
    current = λ k. refl;
    committed = λ k. ground arith;
  }
  delete_keys-Deletes (j ∷ ks) d o =
      let e = transaction_delete L j d in
      let rest = delete_keys-Deletes ks e (delete-IsOpen j d o) in
      record {
        is_open = rest.is_open;
        same_mode = rest.same_mode ∙ transaction_active-delete j d;
        current = λ k. rest.current k ∙ rw (get_current-delete j k d o) ground arith;
        committed = λ k.
            rest.committed k
            ∙ rw (get_committed-delete j k d o, transaction_active-delete j d) ground arith;
      }

  -- A key is in the iterator's range and the store has it.
  abbrev pub is_stored : Text → Text → Database L → Bool
  is_stored p k d = starts_with p k && is_some L (get_committed L k d)

  pub among-stored_keys :
      (p k : Text) (d : Database L) → IsOpen L d → among k (stored_keys L p d) ≡ is_stored p k d
  unfolding stored_keys get_committed
  among-stored_keys p k d (s, o) =
      let entries = L.iterator p s in
      let law = L.get-iterator k p s in
      rw (o, among-keys k entries)
        elim (Option-cases (get k entries)) [
          | inl e ↦ ground (arith, has-of_none k entries e, law, e)
          | inr e ↦ ground (arith, has-of_get k e.0 entries e.1, law, e.1)
        ]
