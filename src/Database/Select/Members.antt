-- ===== src/Database/Select/Members.antt =====
-- database.py: the rows that scans and fetches find, by the keys under which they are stored.
use kos_db.Base.{
  ◌≡◌, refl, sym, ap, ◌∙◌, Bool, true, false, Option, none, some, List, [], ◌∷◌, ◌++◌, arith,
  Bool-cases, Option-cases, inl, inr, ◌==◌, if◌then◌else◌,
}
use kos_db.Dict.{Dict, get, has, get-none}
use kos_db.Dict.Values.{values}
use kos_db.Dict.Distinct.{IsDistinct}
use kos_db.Dict.Counting.{IsOnce}
use kos_db.Dict.Removal.{among}
use kos_db.Text.{Text, text_key, text_same_iff, codes}
use kos_db.Text.Prefix.{starts_with, append-cancel}
use kos_db.Level.{Level}
use kos_db.Database.{Database, Row, Blob, make_key, schema_key, get_current}
use kos_db.Database.Queries.{matches, as_row, scan, rows_of}
use kos_db.Database.Select.{fetch}

-- The row of a value, if it is one and matches.
abbrev pub hit_of : Row → Option Blob → Option Row
hit_of condition none = none
hit_of condition (some b) = elim (as_row b) [
  | none ↦ none
  | some row ↦ if matches condition row then some row else none
]

pub rows_of-values : (found : List (Text × Row)) → rows_of found ≡ values found
unfolding rows_of values
rows_of-values [] = refl
rows_of-values ((k, row) ∷ found) = ap (λ rows. row ∷ rows) (rows_of-values found)

-- A scan finds what matches under keys that are not those of schemas.
pub get-scan :
    (t k : Text) (condition : Row) (entries : List (Text × Blob)) (found : List (Text × Row))
    → IsDistinct entries
    → scan t condition entries ≡ some found
    → starts_with (schema_key t) k ≡ false
    → get k found ≡ hit_of condition (get k entries)
unfolding scan get
get-scan t k condition [] found distinct h own = let empty : found ≡ [] = cc in rw empty refl
get-scan t k condition ((j, b) ∷ entries) found distinct h own =
    elim (Option-cases (scan t condition entries)) [
      | inl e ↦ ground (arith, e, h)
      | inr e ↦ ground (
        arith,
        text_same_iff j k,
        h,
        e.1,
        own,
        get-none j entries distinct.0,
        get-scan t k condition entries e.0 distinct.1 e.1 own,
      )
    ]

-- A scan finds nothing under other keys than those of the entries.
pub has-scan :
    (t k : Text) (condition : Row) (entries : List (Text × Blob)) (found : List (Text × Row))
    → scan t condition entries ≡ some found
    → has k entries ≡ false
    → has k found ≡ false
unfolding scan has
has-scan t k condition [] found h other = let empty : found ≡ [] = cc in rw empty refl
has-scan t k condition ((j, b) ∷ entries) found h other =
    elim (Option-cases (scan t condition entries)) [
      | inl e ↦ ground (arith, e, h)
      | inr e ↦ ground (arith, h, e.1, other, has-scan t k condition entries e.0 e.1)
    ]

pub scan-IsDistinct :
    (t : Text) (condition : Row) (entries : List (Text × Blob)) (found : List (Text × Row))
    → IsDistinct entries
    → scan t condition entries ≡ some found
    → IsDistinct found
unfolding scan
scan-IsDistinct t condition [] found distinct h = let empty : found ≡ [] = cc in rw empty tt
scan-IsDistinct t condition ((j, b) ∷ entries) found distinct h =
    elim (Option-cases (scan t condition entries)) [
      | inl e ↦ ground (arith, e, h)
      | inr e ↦ ground (
        arith,
        h,
        e.1,
        has-scan t j condition entries e.0 e.1 distinct.0,
        scan-IsDistinct t condition entries e.0 distinct.1 e.1,
      )
    ]

module _ (L : Level Blob) where
  -- The fetched rows, each under its key, in front of others.
  unfoldable pub add_hit : Text → Option Row → Dict Text Row → Dict Text Row
  add_hit k none rest = rest
  add_hit k (some row) rest = (k, row) ∷ rest

  unfoldable pub fetched : Text → Row → List Text → Database L → Dict Text Row
  unfolding add_hit
  fetched t condition [] d = []
  fetched t condition (j ∷ row_keys) d =
      add_hit (make_key t j) (hit_of condition (get_current L (make_key t j) d))
        (fetched t condition row_keys d)

  pub fetch-fetched :
      (t : Text) (condition : Row) (row_keys : List Text) (d : Database L)
      → (fetch L t condition row_keys d).1 ≡ true
      → (fetch L t condition row_keys d).0 ≡ values (fetched t condition row_keys d)
  unfolding fetch fetched add_hit values
  fetch-fetched t condition [] d complete = refl
  fetch-fetched t condition (j ∷ row_keys) d complete =
      ground (arith, complete, fetch-fetched t condition row_keys d)

  make_key-same : (t i j : Text) → (make_key t i == make_key t j) ≡ (i == j)
  unfolding make_key
  make_key-same t i j =
      let cancel : make_key t i ≡ make_key t j → i ≡ j =
        λ e. append-cancel (t ++ codes ":") i j e in
      ground (
        arith,
        text_same_iff (make_key t i) (make_key t j),
        text_same_iff i j,
        cancel,
        λ (e : i ≡ j). ap (make_key t) e,
      )

  has-add_hit :
      (k a : Text) (o : Option Row) (rest : Dict Text Row)
      → k == a ≡ false
      → has a (add_hit k o rest) ≡ has a rest
  unfolding add_hit has
  has-add_hit k a none rest other = refl
  has-add_hit k a (some row) rest other = rw other refl

  has-fetched :
      (t j : Text) (condition : Row) (row_keys : List Text) (d : Database L)
      → among j row_keys ≡ false
      → has (make_key t j) (fetched t condition row_keys d) ≡ false
  unfolding fetched has
  has-fetched t j condition [] d h = refl
  has-fetched t j condition (i ∷ row_keys) d h = elim (Bool-cases (i == j)) [
    | inl same ↦ ground (arith, same, h)
    | inr other ↦
        has-add_hit (make_key t i) (make_key t j)
          (hit_of condition (get_current L (make_key t i) d)) (fetched t condition row_keys d)
          (make_key-same t i j ∙ other)
        ∙ has-fetched t j condition row_keys d (ground (arith, other, h))
  ]

  add_hit-IsDistinct :
      (k : Text) (o : Option Row) (rest : Dict Text Row)
      → has k rest ≡ false
      → IsDistinct rest
      → IsDistinct (add_hit k o rest)
  unfolding add_hit
  add_hit-IsDistinct k none rest new h = h
  add_hit-IsDistinct k (some row) rest new h = (new, h)

  pub fetched-IsDistinct :
      (t : Text) (condition : Row) (row_keys : List Text) (d : Database L)
      → IsOnce row_keys
      → IsDistinct (fetched t condition row_keys d)
  unfolding fetched
  fetched-IsDistinct t condition [] d h = tt
  fetched-IsDistinct t condition (j ∷ row_keys) d h =
      add_hit-IsDistinct (make_key t j) (hit_of condition (get_current L (make_key t j) d))
        (fetched t condition row_keys d) (has-fetched t j condition row_keys d h.0)
        (fetched-IsDistinct t condition row_keys d h.1)

  get-add_hit :
      (k a : Text) (o : Option Row) (rest : Dict Text Row)
      → get a (add_hit k o rest)
        ≡ (if k == a then elim o [ none ↦ get a rest | some row ↦ some row ] else get a rest)
  unfolding add_hit get
  get-add_hit k a none rest = elim (Bool-cases (k == a)) [ inl e ↦ rw e refl | inr e ↦ rw e refl ]
  get-add_hit k a (some row) rest = refl

  or_later :
      (o rest : Option Row)
      → (o ≡ none → rest ≡ none)
      → elim o as (λ x. Option Row) [ none ↦ rest | some row ↦ some row ] ≡ o
  or_later none rest h = h refl
  or_later (some row) rest h = refl

  pub if-none : (b : Bool) (o : Option Row) → o ≡ none → (if b then o else none) ≡ none
  if-none true o h = h
  if-none false o h = refl

  -- What is fetched under the key of a row.
  pub get-fetched :
      (t j : Text) (condition : Row) (row_keys : List Text) (d : Database L)
      → get (make_key t j) (fetched t condition row_keys d)
        ≡ (if among j row_keys then hit_of condition (get_current L (make_key t j) d) else none)
  unfolding fetched get
  get-fetched t j condition [] d = refl
  get-fetched t j condition (i ∷ row_keys) d = elim (Bool-cases (i == j)) [
    | inl same ↦
        let one : i ≡ j = (text_same_iff i j).0 same in
        let hit = λ (x : Text). hit_of condition (get_current L (make_key t x) d) in
        get-add_hit (make_key t i) (make_key t j) (hit i) (fetched t condition row_keys d)
        ∙ rw (make_key-same t i j, same)
            (or_later (hit i) (get (make_key t j) (fetched t condition row_keys d)) (λ missing.
                get-fetched t j condition row_keys d
                ∙ if-none (among j row_keys) (hit j) (sym (ap hit one) ∙ missing))
              ∙ ap hit one)
    | inr other ↦
        get-add_hit (make_key t i) (make_key t j)
          (hit_of condition (get_current L (make_key t i) d)) (fetched t condition row_keys d)
        ∙ rw (make_key-same t i j, other) (get-fetched t j condition row_keys d)
  ]

  -- Under other keys nothing is fetched.
  pub get-fetched_other :
      (t k : Text) (condition : Row) (row_keys : List Text) (d : Database L)
      → ((j : Text) → make_key t j == k ≡ false)
      → get k (fetched t condition row_keys d) ≡ none
  unfolding fetched get
  get-fetched_other t k condition [] d h = refl
  get-fetched_other t k condition (i ∷ row_keys) d h =
      get-add_hit (make_key t i) k (hit_of condition (get_current L (make_key t i) d))
        (fetched t condition row_keys d)
      ∙ rw (h i) (get-fetched_other t k condition row_keys d h)
