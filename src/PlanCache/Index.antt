-- ===== src/PlanCache/Index.antt =====
-- query_plan_cache.py: what stays in the table index.
use kos_db.Base.{
  ◌≡◌, refl, sym, subst, ap, ◌∙◌, true, false, some, List, [], ◌∷◌, arith, ◌==◌, Option-cases,
  Bool-cases, inl, inr, All, ==-refl,
}
use kos_db.Dict.{Dict, get, put, get-put, get-remove}
use kos_db.Dict.Removal.{among}
use kos_db.Text.{Text, text_key, text_same_iff}
use kos_db.PlanCache.{
  discard, add_hash, hashes_of, index_tables, set_or_delete, unindex_table, unindex_tables,
  keep_entry, unindex_all,
}

-- The hash stands in the set of the table.
abbrev pub IsIn : Text → Text → Dict Text (List Text) → Type 0
IsIn table h index = among h (hashes_of table index) ≡ true

among-discard : (h x : Text) (xs : List Text) → h == x ≡ false → among x (discard h xs) ≡ among x xs
unfolding discard
among-discard h x [] other = refl
among-discard h x (y ∷ ys) other = ground (
  arith,
  among-discard h x ys other,
  text_same_iff y h,
  text_same_iff y x,
  text_same_iff h x,
  other,
)

among-add_hash : (h x : Text) (xs : List Text) → among x xs ≡ true → among x (add_hash h xs) ≡ true
unfolding add_hash
among-add_hash h x xs there = ground (arith, there)

add_hash_self : (h : Text) (xs : List Text) → among h (add_hash h xs) ≡ true
unfolding add_hash
add_hash_self h xs = ground (arith, text_same_iff h h)

set_or_delete_same :
    (table t x : Text) (hashes : List Text) (index : Dict Text (List Text))
    → table == t ≡ true
    → among x hashes ≡ true
    → IsIn t x (set_or_delete table hashes index)
unfolding set_or_delete hashes_of
set_or_delete_same table t x [] index same there = cc
set_or_delete_same table t x (y ∷ ys) index same there =
    rw (hashes_of, get-put table t (y ∷ ys) index, same) there

set_or_delete_other :
    (table t x : Text) (hashes : List Text) (index : Dict Text (List Text))
    → table == t ≡ false
    → IsIn t x index
    → IsIn t x (set_or_delete table hashes index)
unfolding set_or_delete hashes_of
set_or_delete_other table t x [] index other there =
    rw (hashes_of, get-remove table t index, other) there
set_or_delete_other table t x (y ∷ ys) index other there =
    rw (hashes_of, get-put table t (y ∷ ys) index, other) there

among-hashes_of :
    (table t x : Text) (hashes : List Text) (index : Dict Text (List Text))
    → get table index ≡ some hashes
    → table == t ≡ true
    → IsIn t x index
    → among x hashes ≡ true
unfolding hashes_of
among-hashes_of table t x hashes index e same there =
    let here : get t index ≡ some hashes =
      ap (λ k. get k index) (sym ((text_same_iff table t).0 same)) ∙ e in
    rw (hashes_of, here) at there

-- Taking another hash out of the set of a table keeps this one.
unindex_table-IsIn :
    (h table t x : Text) (index : Dict Text (List Text))
    → h == x ≡ false
    → IsIn t x index
    → IsIn t x (unindex_table h table index)
unfolding unindex_table
unindex_table-IsIn h table t x index other there = elim (Option-cases (get table index)) [
  | inl missing ↦ rw (unindex_table, missing) there
  | inr found ↦ elim (Bool-cases (table == t)) [
    | inl same ↦
        rw (unindex_table, found.1)
          (set_or_delete_same table t x (discard h found.0) index same (
            among-discard h x found.0 other
            ∙ among-hashes_of table t x found.0 index found.1 same there))
    | inr apart ↦
        rw (unindex_table, found.1)
          (set_or_delete_other table t x (discard h found.0) index apart there)
  ]
]

pub unindex_tables-IsIn :
    (h : Text) (tables : List Text) (t x : Text) (index : Dict Text (List Text))
    → h == x ≡ false
    → IsIn t x index
    → IsIn t x (unindex_tables h tables index)
unfolding unindex_tables
unindex_tables-IsIn h [] t x index other there = there
unindex_tables-IsIn h (table ∷ tables) t x index other there =
    unindex_tables-IsIn h tables t x (unindex_table h table index) other
      (unindex_table-IsIn h table t x index other there)

index_table-IsIn :
    (h table t x : Text) (index : Dict Text (List Text))
    → IsIn t x index
    → IsIn t x (put table (add_hash h (hashes_of table index)) index)
unfolding hashes_of
index_table-IsIn h table t x index there = elim (Bool-cases (table == t)) [
  | inl same ↦
      rw (hashes_of, get-put table t (add_hash h (hashes_of table index)) index, same)
        (among-add_hash h x (hashes_of table index)
          (subst (λ k. IsIn k x index) (sym ((text_same_iff table t).0 same)) there))
  | inr apart ↦
      rw (hashes_of, get-put table t (add_hash h (hashes_of table index)) index, apart) there
]

index_table_self :
    (h table : Text) (index : Dict Text (List Text))
    → IsIn table h (put table (add_hash h (hashes_of table index)) index)
unfolding hashes_of
index_table_self h table index =
    rw (hashes_of, get-put table table (add_hash h (hashes_of table index)) index, ==-refl table)
      (add_hash_self h (hashes_of table index))

pub index_tables-IsIn :
    (h : Text) (tables : List Text) (t x : Text) (index : Dict Text (List Text))
    → IsIn t x index
    → IsIn t x (index_tables h tables index)
unfolding index_tables
index_tables-IsIn h [] t x index there = there
index_tables-IsIn h (table ∷ tables) t x index there =
    index_tables-IsIn h tables t x _ (index_table-IsIn h table t x index there)

-- The sets of all these tables have the hash.
abbrev pub AreIn : List Text → Text → Dict Text (List Text) → Type 0
AreIn tables h index = All (λ (t : Text). IsIn t h index) tables

pub index_tables-AreIn :
    (h : Text) (tables : List Text) (index : Dict Text (List Text))
    → AreIn tables h (index_tables h tables index)
unfolding index_tables
index_tables-AreIn h [] index = tt
index_tables-AreIn h (table ∷ tables) index = (
  index_tables-IsIn h tables table h _ (index_table_self h table index),
  index_tables-AreIn h tables _,
)

hashes_of-first :
    (table t : Text) (hashes : List Text) (index : Dict Text (List Text))
    → table == t ≡ true
    → hashes_of t ((table, hashes) ∷ index) ≡ hashes
unfolding hashes_of get
hashes_of-first table t hashes index same = rw (hashes_of, get, same) refl

hashes_of-later :
    (table t : Text) (hashes : List Text) (index : Dict Text (List Text))
    → table == t ≡ false
    → hashes_of t ((table, hashes) ∷ index) ≡ hashes_of t index
unfolding hashes_of get
hashes_of-later table t hashes index apart = rw (hashes_of, get, apart) refl

keep_entry_same :
    (table t x : Text) (hashes : List Text) (rest : Dict Text (List Text))
    → table == t ≡ true
    → among x hashes ≡ true
    → IsIn t x (keep_entry table hashes rest)
unfolding keep_entry
keep_entry_same table t x [] rest same there = cc
keep_entry_same table t x (y ∷ ys) rest same there =
    ap (among x) (hashes_of-first table t (y ∷ ys) rest same) ∙ there

keep_entry_other :
    (table t x : Text) (hashes : List Text) (rest : Dict Text (List Text))
    → table == t ≡ false
    → IsIn t x rest
    → IsIn t x (keep_entry table hashes rest)
unfolding keep_entry
keep_entry_other table t x [] rest apart there = there
keep_entry_other table t x (y ∷ ys) rest apart there =
    ap (among x) (hashes_of-later table t (y ∷ ys) rest apart) ∙ there

pub unindex_all-IsIn :
    (h t x : Text) (index : Dict Text (List Text))
    → h == x ≡ false
    → IsIn t x index
    → IsIn t x (unindex_all h index)
unfolding unindex_all
unindex_all-IsIn h t x [] other there = there
unindex_all-IsIn h t x ((table, hashes) ∷ index) other there = elim (Bool-cases (table == t)) [
  | inl same ↦ keep_entry_same table t x (discard h hashes) (unindex_all h index) same (
      among-discard h x hashes other
      ∙ sym (ap (among x) (hashes_of-first table t hashes index same))
      ∙ there)
  | inr apart ↦ keep_entry_other table t x (discard h hashes) (unindex_all h index) apart (
      unindex_all-IsIn h t x index other
        (sym (ap (among x) (hashes_of-later table t hashes index apart)) ∙ there))
]
