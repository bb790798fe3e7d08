-- ===== src/Database/Changes.antt =====
-- database.py: series of changes in and out of a transaction.
use kos_db.Base.{
  ◌≡◌, refl, sym, ap, ◌∙◌, true, false, Option, none, some, List, [], ◌∷◌, ◌++◌, append_assoc,
  append-nil, arith, if◌then◌else◌, ◌==◌,
}
use kos_db.Dict.{Dict, get, put, get-put, get-none}
use kos_db.Dict.Distinct.{IsDistinct, put-IsDistinct}
use kos_db.Text.{Text, text_key, text_same_iff}
use kos_db.Level.{Level, batched}
use kos_db.Database.{
  Database, Blob, Entry, get_current, log_binlog_async, transaction_put, transaction_delete,
  begin_transaction, commit_transaction,
}

-- What the statements of a session do to the store and to the binary log.
pub data Change : Type 0 where
  put_key : Text → Blob → Change
  delete_key : Text → Change
  log : Entry → Change

-- What a dict of pending changes makes of a value that was found.
abbrev overlay {ℓ} : {B : Type ℓ} → Option (Option B) → Option B → Option B
overlay none found = found
overlay (some change) found = change

-- In a dict without repeated keys the order of a batch does not matter.
batched-get :
    {B : Type 0} (k : Text) (changes : Dict Text (Option B)) (found : Option B)
    → IsDistinct changes
    → batched k changes found ≡ overlay (get k changes) found
unfolding get
batched-get k [] found h = refl
batched-get k ((j, c) ∷ changes) found h = ground (
  arith,
  text_same_iff j k,
  batched-get k changes c h.1,
  batched-get k changes found h.1,
  get-none j changes h.0,
)

module _ (L : Level Blob) where
  open L use {Store, read}

  unfoldable pub change : Change → Database L → Database L
  change (put_key k b) d = transaction_put L k b d
  change (delete_key k) d = transaction_delete L k d
  change (log e) d = log_binlog_async L e d

  unfoldable pub run : List Change → Database L → Database L
  unfolding change
  run [] d = d
  run (c ∷ cs) d = run cs (change c d)

  -- `t` is in a transaction, `d` is not, and both show the same.
  pub record Follows (t d : Database L) : Type 0 where
    active : t.transaction_active ≡ true
    direct : d.transaction_active ≡ false
    base : Store
    reached : Store
    open_t : t.opened ≡ some base
    open_d : d.opened ≡ some reached
    same : (k : Text) → overlay (get k t.transaction_changes) (read k base) ≡ read k reached
    logged : t.binlog_queue ++ t.transaction_binlog ≡ d.binlog_queue
    distinct : IsDistinct t.transaction_changes

  overlay-put :
      (j k : Text) (c : Option Blob) (changes : Dict Text (Option Blob))
      (found reached : Option Blob)
      → overlay (get k changes) found ≡ reached
      → overlay (get k (put j c changes)) found ≡ (if j == k then c else reached)
  overlay-put j k c changes found reached h = rw (get-put j k c changes) ground (arith, h)

  change-Follows : (c : Change) (t d : Database L) → Follows t d → Follows (change c t) (change c d)
  unfolding change transaction_put transaction_delete log_binlog_async
  change-Follows (put_key k b) t d f =
      rw (f.active, f.direct)
        record {
          active = refl;
          direct = refl;
          base = f.base;
          reached = L.write k b f.reached;
          open_t = f.open_t;
          open_d = rw f.open_d;
          same = λ j.
              overlay-put k j (some b) t.transaction_changes (read j f.base) (read j f.reached)
                (f.same j)
              ∙ sym (L.read-write k j b f.reached);
          logged = f.logged;
          distinct = put-IsDistinct k (some b) t.transaction_changes f.distinct;
        }
  change-Follows (delete_key k) t d f =
      rw (f.active, f.direct)
        record {
          active = refl;
          direct = refl;
          base = f.base;
          reached = L.erase k f.reached;
          open_t = f.open_t;
          open_d = rw f.open_d;
          same = λ j.
              overlay-put k j none t.transaction_changes (read j f.base) (read j f.reached)
                (f.same j)
              ∙ sym (L.read-erase k j f.reached);
          logged = f.logged;
          distinct = put-IsDistinct k none t.transaction_changes f.distinct;
        }
  change-Follows (log e) t d f =
      rw (f.active, f.direct)
        record {
          active = refl;
          direct = refl;
          base = f.base;
          reached = f.reached;
          open_t = f.open_t;
          open_d = f.open_d;
          same = f.same;
          logged =
              sym (append_assoc t.binlog_queue t.transaction_binlog (e ∷ []))
              ∙ ap (λ q. q ++ e ∷ []) f.logged;
          distinct = f.distinct;
        }

  pub run-Follows :
      (cs : List Change) (t d : Database L) → Follows t d → Follows (run cs t) (run cs d)
  unfolding run
  run-Follows [] t d f = f
  run-Follows (c ∷ cs) t d f = run-Follows cs (change c t) (change c d) (change-Follows c t d f)

  pub begin-Follows :
      (d : Database L) (s : Store)
      → d.transaction_active ≡ false
      → d.opened ≡ some s
      → Follows (begin_transaction L d).1 d
  unfolding begin_transaction get
  begin-Follows d s idle o =
      rw (o, idle)
        record {
          active = refl;
          direct = refl;
          base = s;
          reached = s;
          open_t = refl;
          open_d = refl;
          same = λ k. refl;
          logged = append-nil d.binlog_queue;
          distinct = tt;
        }

  pub commit-view :
      (k : Text) (t d : Database L)
      → Follows t d
      → get_current L k (commit_transaction L true t).1 ≡ get_current L k d
  unfolding commit_transaction get_current
  commit-view k t d f =
      rw (f.active, f.open_t, f.open_d, f.direct)
        (L.read-write_batch k t.transaction_changes f.base
          ∙ batched-get k t.transaction_changes (read k f.base) f.distinct
          ∙ f.same k)

  pub pending-view :
      (k : Text) (t d : Database L) → Follows t d → get_current L k t ≡ get_current L k d
  unfolding get_current
  pending-view k t d f = rw (f.active, f.open_t, f.open_d, f.direct, ← f.same k) ground arith

  pub commit-log :
      (t d : Database L)
      → Follows t d
      → (commit_transaction L true t).1.binlog_queue ≡ d.binlog_queue
  unfolding commit_transaction
  commit-log t d f = rw (f.active, f.open_t) f.logged
