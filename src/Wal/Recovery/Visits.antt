-- ===== src/Wal/Recovery/Visits.antt =====
-- write_ahead_log.py, undo: the records that its callback gets.
use mathlib.Core.List.{reverse, reverse-cons}
use kos_db.Base.{
  ℕ, ◌≡◌, refl, sym, ap, ◌∙◌, List, [], ◌∷◌, ◌++◌, append_assoc, append-nil, nat_key, nat_eq, arith,
  if◌then◌else◌, Bool-cases, inl, inr,
}
use kos_db.Wal.{LogRecord}
use kos_db.Wal.Recovery.{is_data, undo_records, undo_groups}

module _ {D : Type 0} where
  -- The data records of a log, and the records of one transaction, in log order.
  abbrev pub data_of : List (LogRecord D) → List (LogRecord D)
  data_of [] = []
  data_of (r ∷ rs) = if is_data r.record_type then r ∷ data_of rs else data_of rs

  abbrev pub of_txn : ℕ → List (LogRecord D) → List (LogRecord D)
  of_txn t [] = []
  of_txn t (r ∷ rs) = if nat_eq r.txn_id t then r ∷ of_txn t rs else of_txn t rs

  -- A callback that notes the records it is called with.
  abbrev pub note : LogRecord D → List (LogRecord D) → List (LogRecord D)
  note r seen = seen ++ r ∷ []

  pub data_of-append : (xs ys : List (LogRecord D)) → data_of (xs ++ ys) ≡ data_of xs ++ data_of ys
  data_of-append [] ys = refl
  data_of-append (x ∷ xs) ys = ground (arith, data_of-append xs ys)

  pub of_txn-append :
      (t : ℕ) (xs ys : List (LogRecord D)) → of_txn t (xs ++ ys) ≡ of_txn t xs ++ of_txn t ys
  of_txn-append t [] ys = refl
  of_txn-append t (x ∷ xs) ys = ground (arith, of_txn-append t xs ys)

  pub data_of-reverse : (xs : List (LogRecord D)) → data_of (reverse xs) ≡ reverse (data_of xs)
  data_of-reverse [] = refl
  data_of-reverse (x ∷ xs) =
      ap data_of (reverse-cons x xs)
      ∙ data_of-append (reverse xs) (x ∷ [])
      ∙ elim (Bool-cases (is_data x.record_type)) [
        | inl yes_data ↦ rw yes_data (rw (data_of-reverse xs) (sym (reverse-cons x (data_of xs))))
        | inr no_data ↦ rw no_data (append-nil _ ∙ data_of-reverse xs)
      ]

  pub undo_records-note :
      (rs seen : List (LogRecord D)) → undo_records note rs seen ≡ seen ++ data_of rs
  unfolding undo_records
  undo_records-note [] seen = sym (append-nil seen)
  undo_records-note (r ∷ rs) seen = elim (Bool-cases (is_data r.record_type)) [
    | inl yes_data ↦
        rw yes_data
          (undo_records-note rs (seen ++ r ∷ []) ∙ append_assoc seen (r ∷ []) (data_of rs))
    | inr no_data ↦ rw no_data (undo_records-note rs seen)
  ]

  -- What undo visits of the groups.
  abbrev pub visited : List (List (LogRecord D)) → List (LogRecord D)
  visited [] = []
  visited (g ∷ gs) = reverse (data_of g) ++ visited gs

  pub undo_groups-note :
      (gs : List (List (LogRecord D))) (seen : List (LogRecord D))
      → undo_groups note gs seen ≡ seen ++ visited gs
  unfolding undo_groups
  undo_groups-note [] seen = sym (append-nil seen)
  undo_groups-note (g ∷ gs) seen =
      undo_groups-note gs (undo_records note (reverse g) seen)
      ∙ ap (λ l. l ++ visited gs)
          (undo_records-note (reverse g) seen ∙ ap (◌++◌ seen) (data_of-reverse g))
      ∙ append_assoc seen (reverse (data_of g)) (visited gs)
