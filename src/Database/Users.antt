-- ===== src/Database/Users.antt =====
-- database.py: users and privileges, in the system database. Text of replies is left out.
pub mod Entries
pub mod Accounts
pub mod Revoked
mod Examples
use kos_db.Base.{
  ℕ, suc, ◌+◌, Bool, true, false, not, ◌&&◌, ◌||◌, Option, none, some, List, [], ◌∷◌, ◌++◌,
  if◌then◌else◌, nat_eq,
}
use kos_db.Dict.{Dict}
use kos_db.Dict.Removal.{among}
use kos_db.Text.{Text, text_key, text_same, codes, str_nat}
use kos_db.Text.Split.{has_code}
use kos_db.Level.{Level}

pub record User : Type 0 where
  pub id : Text
  pub username : Text
  pub password_hash : Text
  pub is_admin : Bool
  pub created_at : ℕ

pub record Privilege : Type 0 where
  pub id : Text
  pub username : Text
  pub db_pattern : Text
  pub table_pattern : Text
  pub privileges : List Text

-- What the values of the system database decode to; of a schema only next_id is used.
pub data Record : Type 0 where
  schema : ℕ → Record
  user : User → Record
  privilege : Privilege → Record

pub data UserReply : Type 0 where
  user_exists user_created user_missing user_deleted : Text → UserReply
  granted : Privilege → UserReply
  -- an exception: the value of a schema is not a schema
  broken : UserReply

-- the keys of the two schemas, and the prefixes of their rows
abbrev pub users_schema : Text
users_schema = codes "_schema:_users"

abbrev privileges_schema : Text
privileges_schema = codes "_schema:_privileges"

abbrev pub users_prefix : Text
users_prefix = codes "_users:"

abbrev pub privileges_prefix : Text
privileges_prefix = codes "_privileges:"

-- data.get("username")
unfoldable pub username_of : Record → Option Text
username_of (Record.schema n) = none
username_of (Record.user u) = some u.username
username_of (Record.privilege p) = some p.username

unfoldable pub has_name : Text → Record → Bool
unfolding username_of
has_name username r = elim (username_of r) [ none ↦ false | some name ↦ text_same name username ]

-- The first entry with the name.
unfoldable pub find_entry : Text → List (Text × Record) → Option (Text × Record)
unfolding has_name
find_entry username [] = none
find_entry username ((key, r) ∷ entries) =
    let rest = find_entry username entries in if has_name username r then some (key, r) else rest

-- The keys of all entries with the name.
unfoldable pub keys_of : Text → List (Text × Record) → List Text
unfolding has_name
keys_of username [] = []
keys_of username ((key, r) ∷ entries) =
    let rest = keys_of username entries in if has_name username r then key ∷ rest else rest

-- stored_hash.split("$"), if there are two parts
unfoldable pub two_parts : Text → Option (Text × Text)
unfolding has_code
two_parts [] = none
two_parts (c ∷ t) =
    let rest = two_parts t in
    if nat_eq c 36
    then if has_code 36 t then none else some ([], t)
    else elim rest [ none ↦ none | some parts ↦ some (c ∷ parts.0, parts.1) ]

-- `sha256` is the hexadecimal digest of a text.
module _ (sha256 : Text → Text) where
  -- `salt` is what secrets.token_hex(16) gives.
  unfoldable pub hash_password : Text → Text → Text
  hash_password salt password = salt ++ codes "$" ++ sha256 (password ++ salt)

  unfoldable pub verify_password : Text → Text → Bool
  unfolding two_parts
  verify_password password stored_hash = elim (two_parts stored_hash) [
    | none ↦ false
    | some parts ↦ text_same (sha256 (password ++ parts.0)) parts.1
  ]

-- what _get_user_privileges collects
unfoldable pub privileges_of : Text → List (Text × Record) → List Privilege
privileges_of username [] = []
privileges_of username ((key, r) ∷ entries) =
    let rest = privileges_of username entries in
    elim r [
      | Record.schema n ↦ rest
      | Record.user u ↦ rest
      | Record.privilege p ↦ if text_same p.username username then p ∷ rest else rest
    ]

-- One privilege allows it.
unfoldable pub allows : Text → Text → Text → Privilege → Bool
allows db_name table_name required p =
    (text_same p.db_pattern (codes "*") || text_same p.db_pattern db_name)
    && (text_same p.table_pattern (codes "*") || text_same p.table_pattern table_name)
    && (among (codes "ALL") p.privileges || among required p.privileges)

unfoldable pub any_allows : Text → Text → Text → List Privilege → Bool
unfolding allows
any_allows db_name table_name required [] = false
any_allows db_name table_name required (p ∷ ps) =
    allows db_name table_name required p || any_allows db_name table_name required ps

module _ (L : Level Record) where
  open L use {Store, read, write, erase, iterator}

  -- _ensure_system_tables
  unfoldable pub ensure_system_tables : Store → Store
  ensure_system_tables s = ensure privileges_schema (ensure users_schema s)
    where
      ensure : Text → Store → Store
      ensure key s = elim (read key s) [ none ↦ write key (Record.schema 1) s | some r ↦ s ]

  -- _get_next_user_id and _get_next_privilege_id, by the key of the schema; no result is an
  -- exception
  unfoldable pub next_id : Text → Store → Option (Text × Store)
  next_id key s = elim (read key s) [
    | none ↦ some (codes "1", s)
    | some r ↦ elim r [
      | Record.schema n ↦ some (str_nat n, write key (Record.schema (suc n)) s)
      | Record.user u ↦ none
      | Record.privilege p ↦ none
    ]
  ]

  unfoldable pub create_user :
      (Text → Text) → Text → ℕ → Text → Text → Bool → Store → UserReply × Store
  unfolding ensure_system_tables find_entry next_id hash_password
  create_user sha256 salt now username password is_admin s =
      let t = ensure_system_tables s in
      elim (find_entry username (iterator users_prefix t)) [
        | some found ↦ (user_exists username, t)
        | none ↦ elim (next_id users_schema t) [
          | none ↦ (broken, t)
          | some next ↦
              let u : User = record {
                id = next.0;
                username = username;
                password_hash = hash_password sha256 salt password;
                is_admin = is_admin;
                created_at = now;
              } in
              (user_created username, write (users_prefix ++ next.0) (Record.user u) next.1)
        ]
      ]

  unfoldable pub get_user_privileges : Text → Store → List Privilege
  unfolding privileges_of
  get_user_privileges username s = privileges_of username (iterator privileges_prefix s)

  -- (success, is_admin, privileges)
  unfoldable pub authenticate_user :
      (Text → Text) → Text → Text → Store → Bool × Bool × List Privilege
  unfolding find_entry verify_password get_user_privileges
  authenticate_user sha256 username password s =
      elim (find_entry username (iterator users_prefix s)) [
        | none ↦ (false, false, [])
        | some found ↦ elim found.1 [
          | Record.user u ↦
              if verify_password sha256 password u.password_hash
              then (true, u.is_admin, get_user_privileges username s)
              else (false, false, [])
          | Record.schema n ↦ (false, false, [])
          | Record.privilege p ↦ (false, false, [])
        ]
      ]

  unfoldable pub grant_privilege : Text → Text → Text → List Text → Store → UserReply × Store
  unfolding ensure_system_tables next_id
  grant_privilege username db_pattern table_pattern privileges s =
      let t = ensure_system_tables s in
      elim (next_id privileges_schema t) [
        | none ↦ (broken, t)
        | some next ↦
            let p : Privilege = record {
              id = next.0;
              username = username;
              db_pattern = db_pattern;
              table_pattern = table_pattern;
              privileges = privileges;
            } in
            (granted p, write (privileges_prefix ++ next.0) (Record.privilege p) next.1)
      ]

  unfoldable pub check_privilege : Text → Text → Text → Text → Store → Bool
  unfolding any_allows get_user_privileges
  check_privilege username db_name table_name required s =
      any_allows db_name table_name required (get_user_privileges username s)

  unfoldable pub erase_all : List Text → Store → Store
  erase_all [] s = s
  erase_all (key ∷ ks) s = erase_all ks (erase key s)

  unfoldable pub delete_user : Text → Store → UserReply × Store
  unfolding find_entry keys_of erase_all
  delete_user username s = elim (find_entry username (iterator users_prefix s)) [
    | none ↦ (user_missing username, s)
    | some found ↦
        let t = erase found.0 s in
        (user_deleted username, erase_all (keys_of username (iterator privileges_prefix t)) t)
  ]
