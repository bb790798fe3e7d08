-- ===== src/Database/Select/Pending.antt =====
-- database.py, select of a whole table in a transaction: pending writes are not seen.
use kos_db.Base.{◌≡◌, ◌∙◌, sym, Bool, false, Option, none, some, List, [], ℕ, ap}
use kos_db.Text.{Text}
use kos_db.Level.{Level}
use kos_db.Database.{Database, Blob, begin_transaction}
use kos_db.Database.Changes.{Change, run}
use kos_db.Database.Transactions.{run-pending}
use kos_db.Database.Tables.{get_committed}
use kos_db.Database.Queries.{table_entries}
use kos_db.Database.Select.{can_use_index, Sort}
use kos_db.Database.Select.Statement.{select_scan, select_rows, select}

module _ (L : Level Blob) (sort_results : Sort) where
  -- Without a condition and an order, the result depends on the store alone.
  select-opened :
      (t : Text) (columns : Option (List Text)) (desc raw : Bool) (limit offset : Option ℕ)
      (d e : Database L)
      → d.opened ≡ e.opened
      → select L sort_results t columns [] none desc raw limit offset d
        ≡ select L sort_results t columns [] none desc raw limit offset e
  unfolding select select_rows select_scan table_entries get_committed can_use_index
  select-opened t columns desc raw limit offset d e h =
      ap
        (λ o.
          select L sort_results t columns [] none desc raw limit offset (record d { opened = o }))
        h

  -- A SELECT of a whole table, without a condition and an order, gives during a transaction what it
  -- gave before the transaction, whatever puts, deletes and log entries the transaction has made.
  pub select-pending :
      (t : Text) (columns : Option (List Text)) (desc raw : Bool) (limit offset : Option ℕ)
      (cs : List Change) (d : Database L) (s : Level.Store L)
      → d.transaction_active ≡ false
      → d.opened ≡ some s
      → select L sort_results t columns [] none desc raw limit offset
          (run L cs (begin_transaction L d).1)
        ≡ select L sort_results t columns [] none desc raw limit offset d
  select-pending t columns desc raw limit offset cs d s idle o =
      let during = run L cs (begin_transaction L d).1 in
      select-opened t columns desc raw limit offset during d
        ((run-pending L cs d s idle o).1 ∙ sym o)
