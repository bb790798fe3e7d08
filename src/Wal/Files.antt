-- ===== src/Wal/Files.antt =====
-- The log directory as one sequence of records: rotation does not show.
use kos_db.Base.{
  ℕ, suc, ◌+◌, ◌≤◌, ◌<◌, String, ◌≡◌, refl, sym, ap, ◌∙◌, true, false, List, [], ◌∷◌, ◌++◌,
  append_assoc, append-nil, All-mono, All-append, ltb, arith, if◌then◌else◌,
}
use kos_db.Wal.{
  LogRecord, FileName, before, Directory, touch_file, append_record, all_records, WriteAheadLog,
  open_new_log, rotate_if_needed, numbered, write_bytes, write_record, open_wal, create_wal,
}
use kos_db.Wal.Directories.{
  before_trans, before_newer, AllBefore, touch_file-new, append_record-last, all_records-append,
  IsOpen,
}

module _ {D : Type 0} (compute_checksum : LogRecord D → String) (byte_size : LogRecord D → ℕ) where
  -- What a step of the log keeps: an open log, and the records, with new ones at the end.
  abbrev pub Extends : List (LogRecord D) → WriteAheadLog D → WriteAheadLog D → Type 0
  Extends rs w w' = IsOpen w' × (all_records w'.directory ≡ all_records w.directory ++ rs)

  AllBefore-newer :
      (now : ℕ) (w : WriteAheadLog D) (o : IsOpen w)
      → w.current_log_path.stamp ≤ now
      → w.current_log_path.first < w.current_lsn
      → AllBefore (record { stamp = now; first = w.current_lsn }) w.directory
  AllBefore-newer now w o le lt = rw o.split (
      All-append (λ f. before f.0 newer ≡ true) o.older ((w.current_log_path, o.last) ∷ [])
        (All-mono o.older (λ f h. before_trans f.0 w.current_log_path newer h current_before)
          o.sorted)
        (current_before, tt))
    where
      newer : FileName
      newer = record { stamp = now; first = w.current_lsn }

      current_before : before w.current_log_path newer ≡ true
      current_before = before_newer w.current_log_path now w.current_lsn le lt

  open_new_log-Extends :
      (now : ℕ) (w : WriteAheadLog D)
      → IsOpen w
      → w.current_log_path.stamp ≤ now
      → w.current_log_path.first < w.current_lsn
      → Extends [] w (open_new_log compute_checksum byte_size now w)
  unfolding open_new_log all_records
  open_new_log-Extends now w o le lt =
      let newer : FileName = record { stamp = now; first = w.current_lsn } in
      let all_before = AllBefore-newer now w o le lt in
      let touched = touch_file-new newer w.directory all_before in
      (
        record {
          older = w.directory;
          last = [];
          split = touched;
          sorted = all_before;
          named = omega arith;
        },
        ap all_records touched ∙ all_records-append w.directory ((newer, []) ∷ []),
      )

  write_bytes-Extends :
      (r : LogRecord D) (w : WriteAheadLog D)
      → IsOpen w
      → Extends (r ∷ []) w (write_bytes compute_checksum byte_size r w)
  unfolding write_bytes all_records
  write_bytes-Extends r w o =
      let path = w.current_log_path in
      let appended =
        ap (append_record path r) o.split ∙ append_record-last path r o.older o.last o.sorted in
      (
        record {
          older = o.older;
          last = o.last ++ r ∷ [];
          split = appended;
          sorted = o.sorted;
          named = o.named;
        },
        ap all_records appended
            ∙ all_records-append o.older ((path, o.last ++ r ∷ []) ∷ [])
            ∙ simp append-nil (
                rw (ap all_records o.split ∙ all_records-append o.older ((path, o.last) ∷ []))
                  (simp (append-nil, append_assoc))),
      )

  rotate-Extends :
      (now record_size : ℕ) (w : WriteAheadLog D)
      → IsOpen w
      → w.current_log_path.stamp ≤ now
      → w.current_log_path.first < w.current_lsn
      → Extends [] w (rotate_if_needed compute_checksum byte_size now record_size w)
  unfolding rotate_if_needed
  rotate-Extends now record_size w o le lt =
      elim (ltb w.max_log_size (w.current_log_size + record_size + 4))
        as (λ b. Extends [] w (if b then open_new_log compute_checksum byte_size now w else w)) [
          | true ↦ open_new_log-Extends now w o le lt
          | false ↦ (o, sym (append-nil (all_records w.directory)))
        ]

  -- Writing puts the numbered record at the end of the log, whether or not a new file is opened.
  pub write_record-Extends :
      (now : ℕ) (r : LogRecord D) (w : WriteAheadLog D)
      → IsOpen w
      → w.current_log_path.stamp ≤ now
      → Extends
          (numbered compute_checksum byte_size (suc w.current_lsn) r ∷ [])
          w
          (write_record compute_checksum byte_size now r w)
  unfolding write_record
  write_record-Extends now r w o le =
      let r' = numbered compute_checksum byte_size (suc w.current_lsn) r in
      let w' : WriteAheadLog D = record w { current_lsn = suc w.current_lsn } in
      let o' : IsOpen w' = record {
        older = o.older;
        last = o.last;
        split = o.split;
        sorted = o.sorted;
        named = omega arith;
      } in
      let (opened, same) = rotate-Extends now (byte_size r') w' o' le (omega arith) in
      let (written, more) =
        write_bytes-Extends r' (rotate_if_needed compute_checksum byte_size now (byte_size r') w')
          opened in
      (written, more ∙ ap (λ l. l ++ r' ∷ []) (same ∙ append-nil (all_records w.directory)))

  pub write_record-lsn :
      (now : ℕ) (r : LogRecord D) (w : WriteAheadLog D)
      → (write_record compute_checksum byte_size now r w).current_lsn ≡ suc w.current_lsn
  unfolding write_record
  write_record-lsn now r w = ground arith

  pub write_record-txn_id :
      (now : ℕ) (r : LogRecord D) (w : WriteAheadLog D)
      → (write_record compute_checksum byte_size now r w).current_txn_id ≡ w.current_txn_id
  unfolding write_record
  write_record-txn_id now r w = ground arith

  -- The name of the current file is never ahead of the clock.
  pub write_record-stamp :
      (now : ℕ) (r : LogRecord D) (w : WriteAheadLog D)
      → w.current_log_path.stamp ≤ now
      → (write_record compute_checksum byte_size now r w).current_log_path.stamp ≤ now
  unfolding write_record
  write_record-stamp now r w le = ground arith

  -- A log may be opened over any directory whose files have older names.
  pub open_wal-Extends :
      (now max_log_size recovered : ℕ) (d : Directory D)
      → AllBefore (record { stamp = now; first = recovered }) d
      → IsOpen (open_wal compute_checksum byte_size now max_log_size recovered d)
        × (all_records (open_wal compute_checksum byte_size now max_log_size recovered d).directory
            ≡ all_records d)
  unfolding open_wal all_records
  open_wal-Extends now max_log_size recovered d h =
      let touched = touch_file-new (record { stamp = now; first = recovered }) d h in
      (
        record { older = d; last = []; split = touched; sorted = h; named = omega arith },
        ap all_records touched
            ∙ all_records-append d ((record { stamp = now; first = recovered }, []) ∷ [])
            ∙ append-nil (all_records d),
      )

  pub create_wal-IsOpen :
      (now max_log_size : ℕ) → IsOpen (create_wal compute_checksum byte_size now max_log_size)
  unfolding create_wal touch_file
  create_wal-IsOpen now max_log_size = record {
    older = [];
    last = [];
    split = refl;
    sorted = tt;
    named = omega arith;
  }

  pub create_wal-records :
      (now max_log_size : ℕ)
      → all_records (create_wal compute_checksum byte_size now max_log_size).directory ≡ []
  unfolding create_wal touch_file all_records
  create_wal-records now max_log_size = refl
