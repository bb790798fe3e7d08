-- ===== src/Database/Users/Entries.antt =====
-- database.py: what searches by user name find in the system database.
use kos_db.Base.{
  ◌≡◌, refl, ◌∙◌, Bool, true, false, Option, none, some, List, [], ◌∷◌, arith, if◌then◌else◌, ◌==◌,
  Bool-cases, inl, inr, ==-refl,
}
use kos_db.Dict.{get, has, get-none}
use kos_db.Dict.Distinct.{IsDistinct}
use kos_db.Dict.Removal.{among}
use kos_db.Text.{Text, text_key, text_same_iff}
use kos_db.Level.{Level}
use kos_db.Database.Users.{Record, has_name, find_entry, keys_of, privileges_of, erase_all}

abbrev pub is_named : Text → Option Record → Bool
is_named username none = false
is_named username (some r) = has_name username r

-- Nothing is found when no key has an entry with the name.
pub find_entry-none :
    (username k : Text) (entries : List (Text × Record))
    → IsDistinct entries
    → find_entry username entries ≡ none
    → is_named username (get k entries) ≡ false
unfolding find_entry get
find_entry-none username k [] distinct h = refl
find_entry-none username k ((j, r) ∷ entries) distinct h =
    ground (arith, h, find_entry-none username k entries distinct.1)

-- What is found is the only entry with the name, when there is one only.
pub find_entry-only :
    (username k : Text) (r : Record) (entries : List (Text × Record))
    → IsDistinct entries
    → get k entries ≡ some r
    → has_name username r ≡ true
    → ((j : Text) → text_key.same k j ≡ false → is_named username (get j entries) ≡ false)
    → find_entry username entries ≡ some (k, r)
unfolding find_entry get has
find_entry-only username k r [] distinct h named only = cc
find_entry-only username k r ((j, q) ∷ entries) distinct h named only = elim (Bool-cases (j == k)) [
  | inl here ↦ ground (arith, here, h, named, text_same_iff j k)
  | inr other ↦
      let unnamed : has_name username q ≡ false =
        ground (arith, only j, text_same_iff k j, text_same_iff j k, other, ==-refl j) in
      let rest =
        find_entry-only username k r entries distinct.1 (ground (arith, other, h)) named
          (λ i differ.
            ground (arith, only i differ, text_same_iff j i, get-none j entries distinct.0)) in
      ground (arith, unnamed, rest)
]

pub among-keys_of :
    (username k : Text) (entries : List (Text × Record))
    → IsDistinct entries
    → among k (keys_of username entries) ≡ is_named username (get k entries)
unfolding keys_of get
among-keys_of username k [] distinct = refl
among-keys_of username k ((j, r) ∷ entries) distinct = ground (
  arith,
  text_same_iff j k,
  get-none j entries distinct.0,
  among-keys_of username k entries distinct.1,
)

-- Without an entry with the name there is no privilege.
pub privileges_of-none :
    (username : Text) (entries : List (Text × Record))
    → IsDistinct entries
    → ((k : Text) → is_named username (get k entries) ≡ false)
    → privileges_of username entries ≡ []
unfolding privileges_of has_name get has
privileges_of-none username [] distinct h = refl
privileges_of-none username ((j, r) ∷ entries) distinct h =
    let rest =
      privileges_of-none username entries distinct.1
        (λ k. ground (arith, h k, text_same_iff j k, get-none j entries distinct.0)) in
    ground (arith, rest, h j, ==-refl j)

module _ (L : Level Record) where
  open L use {Store, read, erase}

  pub read-erase_all :
      (k : Text) (ks : List Text) (s : Store)
      → read k (erase_all L ks s) ≡ (if among k ks then none else read k s)
  unfolding erase_all
  read-erase_all k [] s = refl
  read-erase_all k (j ∷ ks) s =
      read-erase_all k ks (erase j s) ∙ rw (L.read-erase j k s) ground arith
