-- ===== src/Wal/Recovery/Settled.antt =====
-- write_ahead_log.py: transactions that have ended, in the journal and in the analysis.
use kos_db.Base.{
  String, ℕ, ◌≤◌, ◌≡◌, refl, sym, ap, ◌∙◌, true, false, ◌||◌, List, nat_key, nat_eq, nat_eq_iff,
  arith, Bool-cases, inl, inr,
}
use kos_db.Dict.{has, has-put, has-remove}
use kos_db.Wal.{LogRecord}
use kos_db.Wal.Manager.{Call, begins, commits, aborts}
use kos_db.Wal.Journal.{Journal, journal_step}
use kos_db.Wal.Analysis.{Analysis, analyze_type, member, add}
use kos_db.Wal.Analysis.Open.{analyze_next}

-- The client ends only transactions that are open.
abbrev pub IsProper : {D : Type 0} → Journal D → Call D → Type 0
IsProper j (commits t) = has t j.active ≡ true
IsProper j (aborts t) = has t j.active ≡ true
IsProper j _ = Unit

-- Transactions that have ended are known and are not open, and none has ended in both ways.
pub record IsSettled {D : Type 0} (j : Journal D) (a : Analysis) : Type 0 where
  pub open_known : (t : ℕ) → has t j.active ≡ true → t ≤ j.last_txn
  pub committed_known : (t : ℕ) → member t a.committed ≡ true → t ≤ j.last_txn
  pub committed_closed : (t : ℕ) → member t a.committed ≡ true → has t j.active ≡ false
  pub aborted_known : (t : ℕ) → member t a.aborted ≡ true → t ≤ j.last_txn
  pub aborted_closed : (t : ℕ) → member t a.aborted ≡ true → has t j.active ≡ false
  pub one_end : (t : ℕ) → member t a.committed ≡ true → member t a.aborted ≡ false

pub member-add : (x t : ℕ) (s : List ℕ) → member t (add x s) ≡ (nat_eq x t || member t s)
unfolding add
member-add x t s = elim (Bool-cases (member x s)) [
  | inl old ↦ rw old (elim (Bool-cases (nat_eq x t)) [
    | inl same ↦ rw same (ap (λ u. member u s) (sym ((nat_eq_iff x t).0 same)) ∙ old)
    | inr other ↦ rw other refl
  ])
  | inr new ↦ rw new refl
]

module _ {D : Type 0} (compute_checksum : LogRecord D → String) (byte_size : LogRecord D → ℕ) where
  pub step-IsSettled :
      (j : Journal D) (a : Analysis) (now : ℕ) (call : Call D)
      → IsProper j call
      → IsSettled j a
      → IsSettled
          (journal_step compute_checksum byte_size j (now, call))
          (analyze_next compute_checksum byte_size j now call a)
  unfolding journal_step analyze_type
  step-IsSettled j a now begins p h = record {
    open_known = λ t. simp has-put (ground (arith, h.open_known t));
    committed_known = λ t m. omega (arith, h.committed_known t m);
    committed_closed =
        λ t m. simp has-put (ground (arith, h.committed_known t m, h.committed_closed t m));
    aborted_known = λ t m. omega (arith, h.aborted_known t m);
    aborted_closed =
        λ t m. simp has-put (ground (arith, h.aborted_known t m, h.aborted_closed t m));
    one_end = h.one_end;
  }
  step-IsSettled j a now (commits u) p h = record {
    open_known = λ t. simp has-remove (ground (arith, h.open_known t));
    committed_known = λ t. simp member-add (ground (arith, h.committed_known t, h.open_known u));
    committed_closed = λ t. simp (member-add, has-remove) (ground (arith, h.committed_closed t));
    aborted_known = h.aborted_known;
    aborted_closed = λ t m. simp has-remove (ground (arith, h.aborted_closed t m));
    one_end = λ t. simp member-add (ground (arith, h.one_end t, h.aborted_closed t));
  }
  step-IsSettled j a now (aborts u) p h = record {
    open_known = λ t. simp has-remove (ground (arith, h.open_known t));
    committed_known = h.committed_known;
    committed_closed = λ t m. simp has-remove (ground (arith, h.committed_closed t m));
    aborted_known = λ t. simp member-add (ground (arith, h.aborted_known t, h.open_known u));
    aborted_closed = λ t. simp (member-add, has-remove) (ground (arith, h.aborted_closed t));
    one_end = λ t m. simp member-add (ground (arith, h.one_end t m, h.committed_closed t m));
  }
  step-IsSettled j a now _ p h = record {
    open_known = h.open_known;
    committed_known = h.committed_known;
    committed_closed = h.committed_closed;
    aborted_known = h.aborted_known;
    aborted_closed = h.aborted_closed;
    one_end = h.one_end;
  }
