-- ===== src/Wal/Recovery/Undo.antt =====
-- undo takes back what the open transactions did, and nothing else.
use mathlib.Core.List.{reverse, reverse-cons}
use kos_db.Base.{
  subst, ℕ, ◌≡◌, refl, sym, ap, ◌∙◌, Bool, true, false, List, [], ◌∷◌, ◌++◌, append_assoc,
  append-nil, nat_key, nat_eq, nat_eq_iff, arith, if◌then◌else◌, All, All-append, Bool-cases, inl,
  inr,
}
use kos_db.Dict.{Dict, has, get, put, get-put, get-none}
use kos_db.Dict.Distinct.{IsDistinct, put-IsDistinct}
use kos_db.Dict.Values.{values}
use kos_db.Wal.{LogRecord}
use kos_db.Wal.Analysis.{Analysis}
use kos_db.Wal.Recovery.{or_empty, group_records, undo}
use kos_db.Wal.Recovery.Visits.{data_of, of_txn, note, of_txn-append, visited, undo_groups-note}

module _ {D : Type 0} where
  abbrev listed : ℕ → Dict ℕ (List (LogRecord D)) → List (LogRecord D)
  listed t d = or_empty (get t d)

  -- A group holds records of its own transaction.
  abbrev AllOf : ℕ → List (LogRecord D) → Type 0
  AllOf t = All (λ r. r.txn_id ≡ t)

  abbrev AreGroups : Dict ℕ (List (LogRecord D)) → Type 0
  AreGroups [] = Unit
  AreGroups ((t, g) ∷ d) = AllOf t g × AreGroups d

  AreGroups-get : (t : ℕ) (d : Dict ℕ (List (LogRecord D))) → AreGroups d → AllOf t (listed t d)
  unfolding get
  AreGroups-get t [] h = tt
  AreGroups-get t ((u, g) ∷ d) h = elim (Bool-cases (nat_eq u t)) [
    | inl same ↦ rw same (subst (λ k. AllOf k g) ((nat_eq_iff u t).0 same) h.0)
    | inr other ↦ rw other (AreGroups-get t d h.1)
  ]

  AreGroups-put :
      (t : ℕ) (g : List (LogRecord D)) (d : Dict ℕ (List (LogRecord D)))
      → AllOf t g
      → AreGroups d
      → AreGroups (put t g d)
  unfolding put
  AreGroups-put t g [] a h = (a, tt)
  AreGroups-put t g ((u, k) ∷ d) a h = elim (Bool-cases (nat_eq u t)) [
    | inl same ↦ rw same (subst (λ v. AllOf v g) (sym ((nat_eq_iff u t).0 same)) a, h.1)
    | inr other ↦ rw other (h.0, AreGroups-put t g d a h.1)
  ]

  record Grouped (d : Dict ℕ (List (LogRecord D))) : Type 0 where
    groups : AreGroups d
    distinct : IsDistinct d

  Grouped-put :
      (r : LogRecord D) (d : Dict ℕ (List (LogRecord D)))
      → Grouped d
      → Grouped (put r.txn_id (listed r.txn_id d ++ r ∷ []) d)
  Grouped-put r d h = record {
    groups =
        AreGroups-put r.txn_id _ d
          (All-append (λ s. s.txn_id ≡ r.txn_id) (listed r.txn_id d) (r ∷ [])
            (AreGroups-get r.txn_id d h.groups) (refl, tt))
          h.groups;
    distinct = put-IsDistinct r.txn_id _ d h.distinct;
  }

  group_records-Grouped :
      (active : Dict ℕ ℕ) (rs : List (LogRecord D)) (d : Dict ℕ (List (LogRecord D)))
      → Grouped d
      → Grouped (group_records active rs d)
  unfolding group_records
  group_records-Grouped active [] d h = h
  group_records-Grouped active (r ∷ rs) d h = elim (Bool-cases (has r.txn_id active)) [
    | inl open_txn ↦ rw open_txn (group_records-Grouped active rs _ (Grouped-put r d h))
    | inr ended ↦ rw ended (group_records-Grouped active rs d h)
  ]

  listed-put :
      (t : ℕ) (r : LogRecord D) (d : Dict ℕ (List (LogRecord D)))
      → listed t (put r.txn_id (listed r.txn_id d ++ r ∷ []) d) ≡ listed t d ++ of_txn t (r ∷ [])
  listed-put t r d = simp get-put (elim (Bool-cases (nat_eq r.txn_id t)) [
    | inl same ↦ rw (same, (nat_eq_iff r.txn_id t).0 same) refl
    | inr other ↦ rw other (sym (append-nil (listed t d)))
  ])

  of_txn-open :
      (t : ℕ) (r : LogRecord D) (rs : List (LogRecord D)) (b : Bool)
      → (nat_eq r.txn_id t ≡ true → b ≡ true)
      → of_txn t (r ∷ []) ++ (if b then of_txn t rs else []) ≡ (if b then of_txn t (r ∷ rs) else [])
  of_txn-open t r rs true h = elim (Bool-cases (nat_eq r.txn_id t)) [
    | inl same ↦ rw same refl
    | inr other ↦ rw other refl
  ]
  of_txn-open t r rs false h = elim (Bool-cases (nat_eq r.txn_id t)) [
    | inl same ↦ cc (h same)
    | inr other ↦ rw other refl
  ]

  of_txn-ended :
      (t : ℕ) (r : LogRecord D) (rs : List (LogRecord D)) (b : Bool)
      → (nat_eq r.txn_id t ≡ true → b ≡ false)
      → (if b then of_txn t rs else []) ≡ (if b then of_txn t (r ∷ rs) else [])
  of_txn-ended t r rs true h = elim (Bool-cases (nat_eq r.txn_id t)) [
    | inl same ↦ cc (h same)
    | inr other ↦ rw other refl
  ]
  of_txn-ended t r rs false h = refl

  -- The group of an open transaction is its part of the log.
  listed-group_records :
      (t : ℕ) (active : Dict ℕ ℕ) (rs : List (LogRecord D)) (d : Dict ℕ (List (LogRecord D)))
      → listed t (group_records active rs d)
        ≡ listed t d ++ (if has t active then of_txn t rs else [])
  unfolding group_records
  listed-group_records t active [] d = elim (Bool-cases (has t active)) [
    | inl p ↦ rw p (sym (append-nil (listed t d)))
    | inr p ↦ rw p (sym (append-nil (listed t d)))
  ]
  listed-group_records t active (r ∷ rs) d = elim (Bool-cases (has r.txn_id active)) [
    | inl open_txn ↦ rw open_txn (
        listed-group_records t active rs (put r.txn_id (listed r.txn_id d ++ r ∷ []) d)
        ∙ ap (λ l. l ++ (if has t active then of_txn t rs else [])) (listed-put t r d)
        ∙ append_assoc (listed t d) (of_txn t (r ∷ [])) _
        ∙ ap (◌++◌ (listed t d)) (
            of_txn-open t r rs (has t active)
              (λ e. ap (λ k. has k active) (sym ((nat_eq_iff r.txn_id t).0 e)) ∙ open_txn)))
    | inr ended ↦ rw ended (
        listed-group_records t active rs d
        ∙ ap (◌++◌ (listed t d)) (
            of_txn-ended t r rs (has t active)
              (λ e. ap (λ k. has k active) (sym ((nat_eq_iff r.txn_id t).0 e)) ∙ ended)))
  ]

  of_txn-AllOf : (t : ℕ) (g : List (LogRecord D)) → AllOf t g → of_txn t g ≡ g
  of_txn-AllOf t [] h = refl
  of_txn-AllOf t (r ∷ rs) h =
      rw ((nat_eq_iff r.txn_id t).1 h.0) (ap (◌∷◌ r) (of_txn-AllOf t rs h.1))

  of_txn-other :
      (t u : ℕ) (g : List (LogRecord D)) → AllOf u g → nat_eq u t ≡ false → of_txn t g ≡ []
  of_txn-other t u [] h ne = refl
  of_txn-other t u (r ∷ rs) h ne = rw (h.0) (rw ne (of_txn-other t u rs h.1 ne))

  of_txn-data_of : (t : ℕ) (g : List (LogRecord D)) → of_txn t (data_of g) ≡ data_of (of_txn t g)
  of_txn-data_of t [] = refl
  of_txn-data_of t (r ∷ rs) = ground (arith, of_txn-data_of t rs)

  of_txn-reverse : (t : ℕ) (g : List (LogRecord D)) → of_txn t (reverse g) ≡ reverse (of_txn t g)
  of_txn-reverse t [] = refl
  of_txn-reverse t (r ∷ rs) =
      ap (of_txn t) (reverse-cons r rs)
      ∙ of_txn-append t (reverse rs) (r ∷ [])
      ∙ elim (Bool-cases (nat_eq r.txn_id t)) [
        | inl same ↦ rw same (rw (of_txn-reverse t rs) (sym (reverse-cons r (of_txn t rs))))
        | inr other ↦ rw other (append-nil _ ∙ of_txn-reverse t rs)
      ]

  -- The part of one group that belongs to a transaction.
  of_txn-group :
      (t : ℕ) (g : List (LogRecord D))
      → of_txn t (reverse (data_of g)) ≡ reverse (data_of (of_txn t g))
  of_txn-group t g = of_txn-reverse t (data_of g) ∙ ap reverse (of_txn-data_of t g)

  of_txn-visited :
      (t : ℕ) (d : Dict ℕ (List (LogRecord D)))
      → AreGroups d
      → IsDistinct d
      → of_txn t (visited (values d)) ≡ reverse (data_of (listed t d))
  unfolding get values has
  of_txn-visited t [] h k = refl
  of_txn-visited t ((u, g) ∷ d) h k =
      of_txn-append t (reverse (data_of g)) (visited (values d)) ∙ elim (Bool-cases (nat_eq u t)) [
        | inl same ↦ rw same (
            rw
              (
                of_txn-group t g,
                of_txn-visited t d h.1 k.1,
                of_txn-AllOf t g (subst (λ v. AllOf v g) ((nat_eq_iff u t).0 same) h.0),
                get-none t d (ap (λ v. has v d) (sym ((nat_eq_iff u t).0 same)) ∙ k.0),
              )
              (append-nil _))
        | inr other ↦
            rw other
              (rw (of_txn-group t g, of_txn-other t u g h.0 other) (of_txn-visited t d h.1 k.1))
      ]

  -- The records of a transaction with which undo calls its callback are, if the analysis found the
  -- transaction open, the inserts, updates and deletes that the log holds of it, each once and
  -- the newest first; of any other transaction there are none.
  pub of_txn-undo :
      (a : Analysis) (log : List (LogRecord D)) (t : ℕ)
      → of_txn t (undo note a log [])
        ≡ (if has t a.active then reverse (data_of (of_txn t log)) else [])
  unfolding undo get
  of_txn-undo a log t =
      let groups = group_records a.active log [] in
      let grouped = group_records-Grouped a.active log [] (record { groups = tt; distinct = tt }) in
      ap (of_txn t) (undo_groups-note (values groups) [])
      ∙ of_txn-visited t groups grouped.groups grouped.distinct
      ∙ ap (λ l. reverse (data_of l)) (listed-group_records t a.active log [])
      ∙ elim (Bool-cases (has t a.active)) [ inl p ↦ rw p refl | inr p ↦ rw p refl ]
