-- ===== src/Wal/Recovery/Redo.antt =====
-- What redo applies, after histories of the transaction manager.
use kos_db.Base.{
  length-append, String, length, ℕ, suc, ◌≤◌, ◌<◌, ◌≡◌, refl, ap, ◌∙◌, Bool, true, false, ◌&&◌,
  List, [], ◌∷◌, ◌++◌, nat_key, arith, if◌then◌else◌, All, All-append, All-mono, Bool-cases, inl,
  inr, leb,
}
use kos_db.Dict.{has}
use kos_db.Wal.{LogRecord, from_lsn, read_log}
use kos_db.Wal.Manager.{Call, checkpoints, IsClock, new_manager, run}
use kos_db.Wal.Refinement.{read_log-journal}
use kos_db.Wal.Journal.{Journal, blank_journal, journal, journal_step}
use kos_db.Wal.Analysis.{Analysis, blank_analysis, analyze_type, analyze_from, analyze, member}
use kos_db.Wal.Analysis.Open.{analyze_from-journal_step, added, AllAllowed, journal_induction}
use kos_db.Wal.Recovery.{is_data, redo_loop, redo}
use kos_db.Wal.Recovery.Visits.{note}
use kos_db.Wal.Recovery.Settled.{IsProper, IsSettled, step-IsSettled}

module _ {D : Type 0} where
  IsSettled-blank :
      IsSettled
        (blank_journal {D = D})
        (analyze_from blank_analysis (blank_journal {D = D}).records)
  unfolding analyze_from has
  IsSettled-blank = record {
    open_known = λ t h. cc;
    committed_known = λ t h. cc;
    committed_closed = λ t h. cc;
    aborted_known = λ t h. cc;
    aborted_closed = λ t h. cc;
    one_end = λ t h. cc;
  }

  All-noted :
      (P : LogRecord D → Type 0) (r : LogRecord D) (seen : List (LogRecord D)) (b c : Bool)
      → (c ≡ true → P r)
      → All P seen
      → All P (if b && c then note r seen else seen)
  All-noted P r seen true true p h = All-append P seen (r ∷ []) h (p refl, tt)
  All-noted P r seen true false p h = h
  All-noted P r seen false c p h = h

  -- What redo visits belongs to committed transactions.
  redo_loop-committed :
      (committed : List ℕ) (rs seen : List (LogRecord D))
      → All (λ r. member r.txn_id committed ≡ true) seen
      → All (λ r. member r.txn_id committed ≡ true) (redo_loop note committed rs seen)
  unfolding redo_loop
  redo_loop-committed committed [] seen h = h
  redo_loop-committed committed (r ∷ rs) seen h = redo_loop-committed committed rs _ (
      All-noted (λ s. member s.txn_id committed ≡ true) r seen (is_data r.record_type)
        (member r.txn_id committed) (λ p. p) h)

  -- Nothing is visited of a log whose data records are older than the checkpoint.
  redo_loop-old :
      (committed : List ℕ) (start : ℕ) (rs seen : List (LogRecord D))
      → All (λ r. is_data r.record_type ≡ true → r.lsn < start) rs
      → redo_loop note committed (from_lsn start rs) seen ≡ seen
  unfolding redo_loop from_lsn
  redo_loop-old committed start [] seen h = refl
  redo_loop-old committed start (r ∷ rs) seen h = elim (Bool-cases (leb start r.lsn)) [
    | inl p ↦ rw p (elim (Bool-cases (is_data r.record_type)) [
      | inl d ↦ absurd (ground (arith, h.0 d))
      | inr d ↦ rw (d, redo_loop) (redo_loop-old committed start rs seen h.1)
    ])
    | inr p ↦ rw p (redo_loop-old committed start rs seen h.1)
  ]

module _ {D : Type 0} (compute_checksum : LogRecord D → String) (byte_size : LogRecord D → ℕ) where
  -- If clients end only open transactions and the clock does not run backwards, then what redo applies
  -- after any history belongs to transactions that were committed, and neither to one that
  -- is still open nor to one that was aborted.
  pub redo-committed :
      (start max_log_size : ℕ) (calls : List (ℕ × Call D))
      → IsClock start calls
      → AllAllowed compute_checksum byte_size IsProper blank_journal calls
      → let m =
          run compute_checksum byte_size
            (new_manager compute_checksum byte_size start max_log_size)
            calls in
        let a = analyze 0 (read_log 0 m.wal) in
        All
          (λ r.
            (member r.txn_id a.committed ≡ true)
            × (has r.txn_id m.active ≡ false)
            × (member r.txn_id a.aborted ≡ false))
          (redo note a (read_log 0 m.wal) [])
  unfolding redo analyze
  redo-committed start max_log_size calls clock proper =
      let (log, open_txns) =
        read_log-journal compute_checksum byte_size start max_log_size calls clock in
      rw (log, open_txns)
        (let j = journal compute_checksum byte_size blank_journal calls in
          let settled =
            journal_induction compute_checksum byte_size IsSettled IsProper
              (step-IsSettled compute_checksum byte_size) blank_journal blank_analysis calls proper
              IsSettled-blank in
          All-mono
            (redo_loop note (analyze_from blank_analysis j.records).committed
              (from_lsn (analyze_from blank_analysis j.records).last_checkpoint_lsn j.records) [])
            (λ r committed. (
              committed,
              settled.committed_closed r.txn_id committed,
              settled.one_end r.txn_id committed,
            ))
            (redo_loop-committed (analyze_from blank_analysis j.records).committed
              (from_lsn (analyze_from blank_analysis j.records).last_checkpoint_lsn j.records) []
              tt))

  -- No record has a number past the length of the journal.
  abbrev IsNumbered : Journal D → Type 0
  IsNumbered j = All (λ r. r.lsn ≤ length j.records) j.records

  step-IsNumbered :
      (j : Journal D) (now : ℕ) (call : Call D)
      → IsNumbered j
      → IsNumbered (journal_step compute_checksum byte_size j (now, call))
  unfolding journal_step
  step-IsNumbered j now call h =
      let more = length-append j.records (added compute_checksum byte_size j now call ∷ []) in
      All-append _ j.records _ (All-mono j.records (λ r le. omega (arith, more)) h)
        (omega (arith, more), tt)

  journal-IsNumbered :
      (j : Journal D) (calls : List (ℕ × Call D))
      → IsNumbered j
      → IsNumbered (journal compute_checksum byte_size j calls)
  unfolding journal
  journal-IsNumbered j [] h = h
  journal-IsNumbered j ((now, call) ∷ calls) h =
      journal-IsNumbered (journal_step compute_checksum byte_size j (now, call)) calls
        (step-IsNumbered j now call h)

  journal-append :
      (j : Journal D) (calls : List (ℕ × Call D)) (last : ℕ × Call D)
      → journal compute_checksum byte_size j (calls ++ last ∷ [])
        ≡ journal_step compute_checksum byte_size (journal compute_checksum byte_size j calls) last
  unfolding journal
  journal-append j [] last = refl
  journal-append j (call ∷ calls) last =
      journal-append (journal_step compute_checksum byte_size j call) calls last

  redo-checkpoint_step :
      (j : Journal D) (now : ℕ)
      → IsNumbered j
      → let j' = journal_step compute_checksum byte_size j (now, checkpoints) in
        redo note (analyze_from blank_analysis j'.records) j'.records [] ≡ []
  unfolding redo
  redo-checkpoint_step j now h =
      let j' = journal_step compute_checksum byte_size j (now, checkpoints) in
      let a' = analyze_from blank_analysis j'.records in
      let cut : a'.last_checkpoint_lsn ≡ suc (length j.records) =
        ap (λ (a : Analysis). a.last_checkpoint_lsn)
          (analyze_from-journal_step compute_checksum byte_size blank_analysis j now checkpoints)
        ∙ unfold analyze_type in refl in
      rw cut (
        redo_loop-old a'.committed (suc (length j.records)) j'.records [] (
          unfold journal_step in
          All-append (λ r. is_data r.record_type ≡ true → r.lsn < suc (length j.records)) j.records
            _ (All-mono j.records (λ r le _. omega arith) h) ((λ e. cc), tt)))

  -- A checkpoint cuts redo off from all that was committed before it: after any calls and then a
  -- checkpoint, under a clock that does not run backwards, redo applies nothing.
  pub redo-checkpoint :
      (start max_log_size now : ℕ) (calls : List (ℕ × Call D))
      → IsClock start (calls ++ (now, checkpoints) ∷ [])
      → let m =
          run compute_checksum byte_size
            (new_manager compute_checksum byte_size start max_log_size)
            (calls ++ (now, checkpoints) ∷ []) in
        let a = analyze 0 (read_log 0 m.wal) in redo note a (read_log 0 m.wal) [] ≡ []
  unfolding analyze
  redo-checkpoint start max_log_size now calls clock =
      let (log, open_txns) =
        read_log-journal compute_checksum byte_size start max_log_size
          (calls ++ (now, checkpoints) ∷ []) clock in
      rw log (
        rw (journal-append blank_journal calls (now, checkpoints)) (
          redo-checkpoint_step (journal compute_checksum byte_size blank_journal calls) now
            (journal-IsNumbered blank_journal calls tt)))
