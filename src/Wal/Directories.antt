-- ===== src/Wal/Directories.antt =====
-- write_ahead_log.py: the names of log files, and directories in the order of these names.
use kos_db.Base.{
  ℕ, ◌≤◌, ◌<◌, ◌≡◌, refl, sym, ap, ◌∙◌, true, false, List, [], ◌∷◌, ◌++◌, append_assoc, All, arith,
}
use kos_db.Dict.{Dict}
use kos_db.Wal.{
  LogRecord, FileName, before, same_name, Directory, touch_file, append_record, all_records,
  WriteAheadLog,
}

pub before_trans : (a b c : FileName) → before a b ≡ true → before b c ≡ true → before a c ≡ true
unfolding before
before_trans a b c p q = ground arith

pub before_asymm : (a b : FileName) → before a b ≡ true → before b a ≡ false
unfolding before
before_asymm a b p = ground arith

pub before_ne : (a b : FileName) → before a b ≡ true → same_name a b ≡ false
unfolding before same_name
before_ne a b p = ground arith

pub same_name_refl : (a : FileName) → same_name a a ≡ true
unfolding same_name
same_name_refl a = ground arith

pub before_newer :
    (a : FileName) (now lsn : ℕ)
    → a.stamp ≤ now
    → a.first < lsn
    → before a (record { stamp = now; first = lsn }) ≡ true
unfolding before
before_newer a now lsn le lt = ground arith

module _ {D : Type 0} where
  -- Every file of the directory is older than the name.
  abbrev pub AllBefore : FileName → Directory D → Type 0
  AllBefore name d = All (λ f. before f.0 name ≡ true) d

  pub touch_file-new :
      (name : FileName) (d : Directory D)
      → AllBefore name d
      → touch_file name d ≡ d ++ (name, []) ∷ []
  unfolding touch_file
  touch_file-new name [] h = refl
  touch_file-new name ((n, rs) ∷ d) h =
      ground (arith, before_asymm n name h.0, before_ne n name h.0, touch_file-new name d h.1)

  pub append_record-last :
      (name : FileName) (r : LogRecord D) (older : Directory D) (rs : List (LogRecord D))
      → AllBefore name older
      → append_record name r (older ++ (name, rs) ∷ []) ≡ older ++ (name, rs ++ r ∷ []) ∷ []
  unfolding append_record
  append_record-last name r [] rs h = ground (arith, same_name_refl name)
  append_record-last name r ((n, os) ∷ older) rs h =
      ground (arith, before_ne n name h.0, append_record-last name r older rs h.1)

  pub all_records-append :
      (d e : Directory D) → all_records (d ++ e) ≡ all_records d ++ all_records e
  unfolding all_records
  all_records-append [] e = refl
  all_records-append ((n, rs) ∷ d) e =
      ap (◌++◌ rs) (all_records-append d e) ∙ sym (append_assoc rs (all_records d) (all_records e))

  -- The file that is written is the last of the directory.
  pub record IsOpen (w : WriteAheadLog D) : Type 0 where
    pub older : Directory D
    pub last : List (LogRecord D)
    pub split : w.directory ≡ older ++ (w.current_log_path, last) ∷ []
    pub sorted : AllBefore w.current_log_path older
    pub named : w.current_log_path.first ≤ w.current_lsn

  -- The count of transactions and their first numbers do not bear on the files.
  pub IsOpen-relabel :
      (w : WriteAheadLog D) (txn_id : ℕ) (starts : Dict ℕ ℕ)
      → IsOpen w
      → IsOpen (record w { current_txn_id = txn_id; txn_start_lsn = starts })
  IsOpen-relabel w txn_id starts o = record {
    older = o.older;
    last = o.last;
    split = o.split;
    sorted = o.sorted;
    named = o.named;
  }
