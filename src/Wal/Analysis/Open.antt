-- ===== src/Wal/Analysis/Open.antt =====
-- The analysis of a log finds the transactions that the manager holds open.
use kos_db.Base.{
  subst, String, length, ℕ, suc, ◌≡◌, refl, sym, ap, ◌∙◌, true, ◌||◌, List, [], ◌∷◌, ◌++◌, nat_eq,
  nat_key, arith,
}
use kos_db.Dict.{Dict, has, has-put, has-remove}
use kos_db.Dict.Values.{keys}
use kos_db.Wal.{read_log, numbered, LogRecord}
use kos_db.Wal.Manager.{Call, begins, checkpoints, commits, aborts, IsClock, new_manager, run}
use kos_db.Wal.Refinement.{read_log-journal}
use kos_db.Wal.Journal.{Journal, blank_journal, journal, journal_step, record_of}
use kos_db.Wal.Analysis.{
  Analysis, blank_analysis, add_active, analyze_type, analyze_from, analyze, member,
}

pub analyze_from-append :
    {D : Type 0} (a : Analysis) (rs ss : List (LogRecord D))
    → analyze_from a (rs ++ ss) ≡ analyze_from (analyze_from a rs) ss
unfolding analyze_from
analyze_from-append a [] ss = refl
analyze_from-append a (r ∷ rs) ss = analyze_from-append (analyze_type r.record_type r a) rs ss

-- Two dicts have the same keys.
abbrev SameKeys : {V W : Type 0} → Dict ℕ V → Dict ℕ W → Type 0
SameKeys d e = (t : ℕ) → has t d ≡ has t e

has-keys : {V : Type 0} (t : ℕ) (d : Dict ℕ V) → member t (keys d) ≡ has t d
unfolding keys has
has-keys t [] = refl
has-keys t ((u, v) ∷ d) = ap (λ b. nat_eq u t || b) (has-keys t d)

-- A checkpoint that lists keys of the dict adds none.
add_active-present :
    (lsn : ℕ) (ts : List ℕ) (d : Dict ℕ ℕ)
    → ((t : ℕ) → member t ts ≡ true → has t d ≡ true)
    → add_active lsn ts d ≡ d
unfolding add_active
add_active-present lsn [] d h = refl
add_active-present lsn (t ∷ ts) d h =
    rw (h t (ground arith)) (add_active-present lsn ts d (λ u m. h u (ground arith)))

module _ {D : Type 0} (compute_checksum : LogRecord D → String) (byte_size : LogRecord D → ℕ) where
  -- The record that a call adds to a journal.
  abbrev pub added : Journal D → ℕ → Call D → LogRecord D
  added j now call =
      numbered compute_checksum byte_size (suc (length j.records))
        (record_of compute_checksum byte_size now j call)

  -- The analysis after one more record.
  abbrev pub analyze_next : Journal D → ℕ → Call D → Analysis → Analysis
  analyze_next j now call a = analyze_type (added j now call).record_type (added j now call) a

  step-SameKeys :
      (j : Journal D) (a : Analysis) (now : ℕ) (call : Call D)
      → SameKeys a.active j.active
      → SameKeys
          (analyze_next j now call a).active
          (journal_step compute_checksum byte_size j (now, call)).active
  unfolding analyze_type journal_step
  step-SameKeys j a now begins h t = simp has-put (rw (h t))
  step-SameKeys j a now checkpoints h t =
      rw
        (add_active-present (suc (length j.records)) (keys j.active) a.active
          (λ u m. h u ∙ sym (has-keys u j.active) ∙ m))
        (h t)
  step-SameKeys j a now (commits u) h t = simp has-remove (rw (h t))
  step-SameKeys j a now (aborts u) h t = simp has-remove (rw (h t))
  step-SameKeys j a now _ h t = h t

  -- Every call of the history is allowed when it is made.
  abbrev pub AllAllowed : (Journal D → Call D → Type 0) → Journal D → List (ℕ × Call D) → Type 0
  AllAllowed Allowed j [] = Unit
  AllAllowed Allowed j ((now, call) ∷ calls) =
      Allowed j call
      × AllAllowed Allowed (journal_step compute_checksum byte_size j (now, call)) calls

  pub analyze_from-journal_step :
      (a : Analysis) (j : Journal D) (now : ℕ) (call : Call D)
      → analyze_from a (journal_step compute_checksum byte_size j (now, call)).records
        ≡ analyze_next j now call (analyze_from a j.records)
  unfolding journal_step analyze_from
  analyze_from-journal_step a j now call = analyze_from-append a j.records (added j now call ∷ [])

  -- An invariant of the journal and of the analysis of its records holds after every history.
  pub journal_induction :
      (P : Journal D → Analysis → Type 0) (Allowed : Journal D → Call D → Type 0)
      → ((j : Journal D) (a : Analysis) (now : ℕ) (call : Call D)
          → Allowed j call
          → P j a
          → P (journal_step compute_checksum byte_size j (now, call)) (analyze_next j now call a))
      → (j : Journal D) (a : Analysis) (calls : List (ℕ × Call D)) → AllAllowed Allowed j calls
      → P j (analyze_from a j.records)
      → P
          (journal compute_checksum byte_size j calls)
          (analyze_from a (journal compute_checksum byte_size j calls).records)
  unfolding journal
  journal_induction P Allowed keep j a [] allowed h = h
  journal_induction P Allowed keep j a ((now, call) ∷ calls) allowed h =
      journal_induction P Allowed keep (journal_step compute_checksum byte_size j (now, call)) a
        calls allowed.1
        (subst (P (journal_step compute_checksum byte_size j (now, call)))
          (sym (analyze_from-journal_step a j now call))
          (keep j (analyze_from a j.records) now call allowed.0 h))

  pub AllAllowed-any :
      (j : Journal D) (calls : List (ℕ × Call D)) → AllAllowed (λ _ _. Unit {0}) j calls
  AllAllowed-any j [] = tt
  AllAllowed-any j ((now, call) ∷ calls) =
      (tt, AllAllowed-any (journal_step compute_checksum byte_size j (now, call)) calls)

  -- After any calls of the transaction manager over a new log, under a clock that does not run
  -- backwards, the analysis of the whole log finds open exactly the transactions that the manager
  -- holds open.
  pub analyze-open :
      (start max_log_size : ℕ) (calls : List (ℕ × Call D))
      → IsClock start calls
      → let m =
          run compute_checksum byte_size
            (new_manager compute_checksum byte_size start max_log_size)
            calls in
        (t : ℕ) → has t (analyze 0 (read_log 0 m.wal)).active ≡ has t m.active
  unfolding analyze has
  analyze-open start max_log_size calls clock t =
      let (log, open_txns) =
        read_log-journal compute_checksum byte_size start max_log_size calls clock in
      rw (log, open_txns)
        (journal_induction (λ j a. SameKeys a.active j.active) (λ _ _. Unit {0})
          (λ j a now call _ h. step-SameKeys j a now call h) blank_journal blank_analysis calls
          (AllAllowed-any blank_journal calls) (λ u. refl) t)
