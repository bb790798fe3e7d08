-- ===== src/Database/Users/Accounts.antt =====
-- database.py: a user that was created can log in.
use kos_db.Base.{
  ℕ, suc, ◌≡◌, refl, ◌∙◌, Bool, true, false, none, some, [], ◌∷◌, ◌++◌, arith, if◌then◌else◌,
  Bool-cases, Option-cases, inl, inr, ==-refl,
}
use kos_db.Dict.{get}
use kos_db.Text.{Text, text_key, text_same, text_same_iff, codes, str_nat}
use kos_db.Text.Prefix.{starts_with, starts_with-append}
use kos_db.Text.Split.{has_code}
use kos_db.Level.{Level}
use kos_db.Database.Users.{
  Record, User, user_created, users_prefix, users_schema, has_name, find_entry, two_parts,
  hash_password, verify_password, ensure_system_tables, next_id, get_user_privileges, create_user,
  authenticate_user,
}
use kos_db.Database.Users.Entries.{is_named, find_entry-none, find_entry-only}

two_parts-join :
    (salt hash : Text)
    → has_code 36 salt ≡ false
    → has_code 36 hash ≡ false
    → two_parts (salt ++ codes "$" ++ hash) ≡ some (salt, hash)
unfolding two_parts has_code
two_parts-join [] hash hs hh = rw hh refl
two_parts-join (c ∷ salt) hash hs hh =
    let rest = two_parts-join salt hash (ground (arith, hs)) hh in ground (arith, rest, hs)

verify_password-hash :
    (sha256 : Text → Text) (salt password other : Text)
    → has_code 36 salt ≡ false
    → ((t : Text) → has_code 36 (sha256 t) ≡ false)
    → verify_password sha256 other (hash_password sha256 salt password)
      ≡ text_same (sha256 (other ++ salt)) (sha256 (password ++ salt))
unfolding verify_password hash_password
verify_password-hash sha256 salt password other hs hex =
    rw
      (verify_password, two_parts-join salt (sha256 (password ++ salt)) hs (hex (password ++ salt)))
      refl

starts_with-differ :
    (p j k : Text) → starts_with p j ≡ false → starts_with p k ≡ true → text_same j k ≡ false
starts_with-differ p j k hj hk = elim (Bool-cases (text_same j k)) [
  | inl same ↦ ground (arith, (text_same_iff j k).0 same, hj, hk)
  | inr differ ↦ differ
]

module _ (L : Level Record) where
  open L use {Store, read, write, iterator}

  next_id-schema :
      (key k : Text) (r : Record) (s : Store) (next : Text × Store)
      → read key s ≡ some r
      → next_id L key s ≡ some next
      → text_same key k ≡ false
      → read k next.1 ≡ read k s
  unfolding next_id
  next_id-schema key k (Record.schema n) s next e h other =
      let counted : some (str_nat n, write key (Record.schema (suc n)) s) ≡ some next =
        rw (e, next_id) at h in
      let same : (str_nat n, write key (Record.schema (suc n)) s) ≡ next = cc in
      rw (← same) (L.read-write key k (Record.schema (suc n)) s ∙ rw other refl)
  next_id-schema key k (Record.user u) s next e h other = ground (arith, rw (e, next_id) at h)
  next_id-schema key k (Record.privilege p) s next e h other = ground (arith, rw (e, next_id) at h)

  -- Counting changes the schema only.
  next_id-reads :
      (key k : Text) (s : Store) (next : Text × Store)
      → next_id L key s ≡ some next
      → text_same key k ≡ false
      → read k next.1 ≡ read k s
  unfolding next_id
  next_id-reads key k s next h other = elim (Option-cases (read key s)) [
    | inr e ↦ next_id-schema key k e.0 s next e.1 h other
    | inl e ↦
        let counted : some (codes "1", s) ≡ some next = rw (e, next_id) at h in
        let same : (codes "1", s) ≡ next = cc in rw (← same) refl
  ]

  new_entry :
      (k : Text) (r : Record) (s : Store)
      → starts_with users_prefix k ≡ true
      → get k (iterator users_prefix (write k r s)) ≡ some r
  new_entry k r s own =
      ground
        (arith, L.get-iterator k users_prefix (write k r s), L.read-write k k r s, ==-refl k, own)

  -- The other entries have other names, as they had before.
  old_entries :
      (username k j : Text) (r : Record) (t : Store) (next : Text × Store)
      → next_id L users_schema t ≡ some next
      → find_entry username (iterator users_prefix t) ≡ none
      → text_same k j ≡ false
      → is_named username (get j (iterator users_prefix (write k r next.1))) ≡ false
  unfolding starts_with
  old_entries username k j r t next counted free differ =
      elim (Bool-cases (starts_with users_prefix j)) [
        | inr foreign ↦ ground (arith, L.get-iterator j users_prefix (write k r next.1), foreign)
        | inl own ↦
            let other : text_same users_schema j ≡ false =
              starts_with-differ users_prefix users_schema j refl own in
            ground (
              arith,
              L.get-iterator j users_prefix (write k r next.1),
              L.read-write k j r next.1,
              next_id-reads users_schema j t next counted other,
              find_entry-none username j (iterator users_prefix t)
                  (L.iterator-IsDistinct users_prefix t) free,
              L.get-iterator j users_prefix t,
              own,
              differ,
            )
      ]

  create_user-found :
      (sha256 : Text → Text) (salt : Text) (now : ℕ) (username password : Text) (is_admin : Bool)
      (s : Store)
      → (create_user L sha256 salt now username password is_admin s).0 ≡ user_created username
      → let t = (create_user L sha256 salt now username password is_admin s).1 in
        (k : Text) × (id : Text) × (find_entry username (iterator users_prefix t)
          ≡ some (
            k,
            Record.user record {
              id = id;
              username = username;
              password_hash = hash_password sha256 salt password;
              is_admin = is_admin;
              created_at = now;
            },
          ))
  unfolding create_user has_name
  create_user-found sha256 salt now username password is_admin s h =
      let t = ensure_system_tables L s in
      elim (Option-cases (find_entry username (iterator users_prefix t))) [
        | inr taken ↦ ground (arith, rw (taken.1, create_user) at h)
        | inl free ↦ elim (Option-cases (next_id L users_schema t)) [
          | inl failed ↦ ground (arith, rw (free, failed, create_user) at h)
          | inr next ↦
              let k = users_prefix ++ next.0.0 in
              let u : User = record {
                id = next.0.0;
                username = username;
                password_hash = hash_password sha256 salt password;
                is_admin = is_admin;
                created_at = now;
              } in
              let end = write k (Record.user u) next.0.1 in
              let found : find_entry username (iterator users_prefix end)
                  ≡ some (k, Record.user u) =
                find_entry-only username k (Record.user u) (iterator users_prefix end)
                  (L.iterator-IsDistinct users_prefix end)
                  (new_entry k (Record.user u) next.0.1 (starts_with-append users_prefix next.0.0))
                  (==-refl username)
                  (λ j differ.
                    old_entries username k j (Record.user u) t next.0 next.1 free differ) in
              rw (free, next.1, create_user) (k, next.0.0, found)
        ]
      ]

  -- A user that was created is let in with the password and no other that has a different digest
  -- under the user's salt, and is an administrator as said; neither salt nor digests have a dollar
  -- sign.
  pub create_user-authenticates :
      (sha256 : Text → Text) (salt : Text) (now : ℕ) (username password other : Text)
      (is_admin : Bool) (s : Store)
      → has_code 36 salt ≡ false
      → ((t : Text) → has_code 36 (sha256 t) ≡ false)
      → (create_user L sha256 salt now username password is_admin s).0 ≡ user_created username
      → let t = (create_user L sha256 salt now username password is_admin s).1 in
        authenticate_user L sha256 username other t ≡ (
          if text_same (sha256 (other ++ salt)) (sha256 (password ++ salt))
          then (true, is_admin, get_user_privileges L username t)
          else (false, false, []))
  unfolding authenticate_user
  create_user-authenticates sha256 salt now username password other is_admin s hs hex h =
      let t = (create_user L sha256 salt now username password is_admin s).1 in
      let found = create_user-found sha256 salt now username password is_admin s h in
      rw (found.2, authenticate_user, verify_password-hash sha256 salt password other hs hex) refl
