-- ===== src/Database/Users/Revoked.antt =====
-- database.py, delete_user: what a deleted user can still do.
use kos_db.Base.{◌≡◌, refl, false, arith, Option-cases, inl, inr}
use kos_db.Text.{Text, text_key}
use kos_db.Level.{Level}
use kos_db.Database.Users.{
  Record, user_deleted, users_prefix, privileges_prefix, find_entry, keys_of, erase_all,
  get_user_privileges, any_allows, check_privilege, delete_user,
}
use kos_db.Database.Users.Entries.{among-keys_of, privileges_of-none, read-erase_all}

module _ (L : Level Record) where
  open L use {Store, read, erase, iterator}

  -- A user that was deleted has no privilege left, on any database and table.
  pub delete_user-revokes :
      (username db_name table_name required : Text) (s : Store)
      → (delete_user L username s).0 ≡ user_deleted username
      → check_privilege L username db_name table_name required (delete_user L username s).1 ≡ false
  unfolding delete_user check_privilege get_user_privileges any_allows
  delete_user-revokes username db_name table_name required s h =
      elim (Option-cases (find_entry username (iterator users_prefix s))) [
        | inl absent ↦ ground (arith, absent, h)
        | inr found ↦
            let t = erase found.0.0 s in
            let ks = keys_of username (iterator privileges_prefix t) in
            let end = erase_all L ks t in
            let gone =
              privileges_of-none username (iterator privileges_prefix end)
                (L.iterator-IsDistinct privileges_prefix end)
                (λ k. ground (
                  arith,
                  L.get-iterator k privileges_prefix end,
                  L.get-iterator k privileges_prefix t,
                  read-erase_all L k ks t,
                  among-keys_of username k (iterator privileges_prefix t)
                      (L.iterator-IsDistinct privileges_prefix t),
                )) in
            rw (found.1, delete_user, gone) refl
      ]
