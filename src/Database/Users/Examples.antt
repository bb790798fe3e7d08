-- ===== src/Database/Users/Examples.antt =====
-- Runs with one user, on a store in memory.
use kos_db.Base.{◌≡◌, refl, true, false, [], ◌∷◌}
use kos_db.Dict.{get, put}
use kos_db.Text.{Text, codes}
use kos_db.Text.Prefix.{starts_with}
use kos_db.Text.Split.{has_code}
use kos_db.Level.{Level}
use kos_db.Level.Memory.{memory, with_prefix}
use kos_db.Database.Users.{
  Record, get_user_privileges, create_user, authenticate_user, check_privilege, delete_user,
  grant_privilege,
}
use kos_db.Database.Users.Accounts.{create_user-authenticates}
use kos_db.Database.Users.Revoked.{delete_user-revokes}

abbrev M : Level Record
M = memory Record

-- A digest for the tests.
abbrev digest : Text → Text
digest t = []

abbrev ann : Text
ann = codes "ann"

abbrev with_ann : Level.Store M
with_ann = (create_user M digest (codes "s1") 4 ann (codes "pw") true []).1

create_user-authenticates_example :
    authenticate_user M digest ann (codes "pw") with_ann
    ≡ (true, true, get_user_privileges M ann with_ann)
unfolding has_code create_user with_prefix get put starts_with
create_user-authenticates_example =
    create_user-authenticates M digest (codes "s1") 4 ann (codes "pw") (codes "pw") true [] refl
      (λ t. refl) refl

abbrev with_grant : Level.Store M
with_grant = (grant_privilege M ann (codes "shop") (codes "*") (codes "SELECT" ∷ []) with_ann).1

delete_user-revokes_example :
    check_privilege M ann
      (codes "shop")
      (codes "items")
      (codes "SELECT")
      (delete_user M ann with_grant).1
    ≡ false
unfolding delete_user with_prefix grant_privilege get create_user put starts_with
delete_user-revokes_example =
    delete_user-revokes M ann (codes "shop") (codes "items") (codes "SELECT") with_grant refl
