-- ===== src/ShardRouter/Ranges/Disjoint.antt =====
-- shard_router.py, RangePartitioner: where keys go, whatever the order in which ranges are added.
use kos_db.Base.{
  ◌≡◌, refl, ap, ◌∙◌, Bool, true, false, ◌||◌, List, [], ◌∷◌, ◌++◌, arith, Result, ok, err,
  Bool-cases, inl, inr, if-both, ◌==◌,
}
use kos_db.Text.{Text, text_key}
use kos_db.Text.Order.{sorted, insert_sorted}
use kos_db.ShardRouter.{Shard, RingError}
use kos_db.ShardRouter.Ranges.{
  Range, range_precedes, add_range, remove_shard, contains, last_shard, find_range, get_shard,
}

-- add_range for each of the ranges
unfoldable pub add_ranges : List Range → List Range → List Range
unfolding add_range
add_ranges [] ranges = ranges
add_ranges (r ∷ added) ranges = add_ranges added (add_range r.start r.end r.shard ranges)

-- Some range contains the key.
unfoldable pub is_covered : Text → List Range → Bool
is_covered key [] = false
is_covered key (r ∷ ranges) = contains key r || is_covered key ranges

-- All ranges that contain the key are this shard's.
abbrev pub IsOwned : Text → Shard → List Range → Type 0
IsOwned key shard [] = Unit
IsOwned key shard (r ∷ ranges) =
    (contains key r ≡ true → r.shard ≡ shard) × IsOwned key shard ranges

insert-IsOwned :
    (key : Text) (shard : Shard) (r : Range) (ranges : List Range)
    → (contains key r ≡ true → r.shard ≡ shard)
    → IsOwned key shard ranges
    → IsOwned key shard (insert_sorted range_precedes r ranges)
unfolding insert_sorted
insert-IsOwned key shard r [] h own = (h, tt)
insert-IsOwned key shard r (x ∷ ranges) h own =
    if-both (IsOwned key shard) (range_precedes x r)
      (own.0, insert-IsOwned key shard r ranges h own.1) (h, own)

sorted-IsOwned :
    (key : Text) (shard : Shard) (ranges : List Range)
    → IsOwned key shard ranges
    → IsOwned key shard (sorted range_precedes ranges)
unfolding sorted
sorted-IsOwned key shard [] own = tt
sorted-IsOwned key shard (r ∷ ranges) own =
    insert-IsOwned key shard r (sorted range_precedes ranges) own.0
      (sorted-IsOwned key shard ranges own.1)

append-IsOwned :
    (key : Text) (shard : Shard) (xs : List Range) (r : Range)
    → IsOwned key shard xs
    → (contains key r ≡ true → r.shard ≡ shard)
    → IsOwned key shard (xs ++ r ∷ [])
append-IsOwned key shard [] r own h = (h, tt)
append-IsOwned key shard (x ∷ xs) r own h = (own.0, append-IsOwned key shard xs r own.1 h)

is_covered-insert :
    (key : Text) (r : Range) (ranges : List Range)
    → is_covered key (insert_sorted range_precedes r ranges)
      ≡ (contains key r || is_covered key ranges)
unfolding is_covered insert_sorted
is_covered-insert key r [] = refl
is_covered-insert key r (x ∷ ranges) = elim (Bool-cases (range_precedes x r)) [
  | inl e ↦ rw (e, is_covered-insert key r ranges) ground arith
  | inr e ↦ rw e refl
]

is_covered-sorted :
    (key : Text) (ranges : List Range)
    → is_covered key (sorted range_precedes ranges) ≡ is_covered key ranges
unfolding is_covered sorted
is_covered-sorted key [] = refl
is_covered-sorted key (r ∷ ranges) =
    is_covered-insert key r (sorted range_precedes ranges)
    ∙ ap (λ b. contains key r || b) (is_covered-sorted key ranges)

is_covered-append :
    (key : Text) (xs : List Range) (r : Range)
    → is_covered key (xs ++ r ∷ []) ≡ (contains key r || is_covered key xs)
unfolding is_covered
is_covered-append key [] r = refl
is_covered-append key (x ∷ xs) r = rw (is_covered-append key xs r) ground arith

find_range-IsOwned :
    (key : Text) (shard : Shard) (otherwise : Result RingError Shard) (ranges : List Range)
    → is_covered key ranges ≡ true
    → IsOwned key shard ranges
    → find_range key otherwise ranges ≡ ok shard
unfolding find_range is_covered
find_range-IsOwned key shard otherwise [] covered own = cc
find_range-IsOwned key shard otherwise (r ∷ ranges) covered own =
    elim (Bool-cases (contains key r)) [
      | inl e ↦ rw e (ap ok (own.0 e))
      | inr e ↦
          rw e (find_range-IsOwned key shard otherwise ranges (ground (arith, e, covered)) own.1)
    ]

-- The ranges that a range is added to.
add_range-IsOwned :
    (key : Text) (shard : Shard) (r : Range) (ranges : List Range)
    → (contains key r ≡ true → r.shard ≡ shard)
    → IsOwned key shard ranges
    → IsOwned key shard (add_range r.start r.end r.shard ranges)
unfolding add_range
add_range-IsOwned key shard r ranges h own =
    sorted-IsOwned key shard (ranges ++ r ∷ []) (append-IsOwned key shard ranges r own h)

is_covered-add_range :
    (key : Text) (r : Range) (ranges : List Range)
    → is_covered key (add_range r.start r.end r.shard ranges)
      ≡ (contains key r || is_covered key ranges)
unfolding add_range
is_covered-add_range key r ranges =
    is_covered-sorted key (ranges ++ r ∷ []) ∙ is_covered-append key ranges r

add_ranges-IsOwned :
    (key : Text) (shard : Shard) (added ranges : List Range)
    → IsOwned key shard added
    → IsOwned key shard ranges
    → IsOwned key shard (add_ranges added ranges)
unfolding add_ranges
add_ranges-IsOwned key shard [] ranges new old = old
add_ranges-IsOwned key shard (r ∷ added) ranges new old =
    add_ranges-IsOwned key shard added (add_range r.start r.end r.shard ranges) new.1
      (add_range-IsOwned key shard r ranges new.0 old)

is_covered-add_ranges :
    (key : Text) (added ranges : List Range)
    → is_covered key (add_ranges added ranges) ≡ (is_covered key added || is_covered key ranges)
unfolding add_ranges is_covered
is_covered-add_ranges key [] ranges = refl
is_covered-add_ranges key (r ∷ added) ranges = ground (
  arith,
  is_covered-add_ranges key added (add_range r.start r.end r.shard ranges),
  is_covered-add_range key r ranges,
)

-- A key that some of the added ranges contain, all of them for the same shard, is routed to that
-- shard, in whatever order the ranges were added.
pub get_shard-add_ranges :
    (key : Text) (shard : Shard) (added : List Range)
    → is_covered key added ≡ true
    → IsOwned key shard added
    → get_shard key (add_ranges added []) ≡ ok shard
unfolding get_shard is_covered
get_shard-add_ranges key shard added covered own =
    find_range-IsOwned key shard (last_shard (add_ranges added [])) (add_ranges added [])
      (is_covered-add_ranges key added [] ∙ rw covered refl)
      (add_ranges-IsOwned key shard added [] own tt)

-- No range of this shard is left.
IsWithout : Text → List Range → Type 0
IsWithout x [] = Unit
IsWithout x (r ∷ ranges) = (r.shard.shard_id == x ≡ false) × IsWithout x ranges

remove_shard-IsWithout : (x : Text) (ranges : List Range) → IsWithout x (remove_shard x ranges)
unfolding remove_shard IsWithout
remove_shard-IsWithout x [] = tt
remove_shard-IsWithout x (r ∷ ranges) = elim (Bool-cases (r.shard.shard_id == x)) [
  | inl e ↦ rw (remove_shard, e) (remove_shard-IsWithout x ranges)
  | inr e ↦ rw (remove_shard, e) (e, remove_shard-IsWithout x ranges)
]

-- Another shard, or none.
abbrev pub IsOther : Text → Result RingError Shard → Type 0
IsOther x (ok shard) = shard.shard_id == x ≡ false
IsOther x (err e) = Unit

last_shard-IsOther :
    (x : Text) (ranges : List Range) → IsWithout x ranges → IsOther x (last_shard ranges)
unfolding last_shard IsWithout
last_shard-IsOther x [] h = tt
last_shard-IsOther x (r ∷ []) h = h.0
last_shard-IsOther x (r ∷ next ∷ ranges) h = last_shard-IsOther x (next ∷ ranges) h.1

find_range-IsOther :
    (key x : Text) (otherwise : Result RingError Shard) (ranges : List Range)
    → IsOther x otherwise
    → IsWithout x ranges
    → IsOther x (find_range key otherwise ranges)
unfolding find_range IsWithout
find_range-IsOther key x otherwise [] o h = o
find_range-IsOther key x otherwise (r ∷ ranges) o h =
    if-both (IsOther x) (contains key r) h.0 (find_range-IsOther key x otherwise ranges o h.1)

pub remove_shard-IsOther :
    (key x : Text) (ranges : List Range) → IsOther x (get_shard key (remove_shard x ranges))
unfolding get_shard
remove_shard-IsOther key x ranges =
    let gone = remove_shard-IsWithout x ranges in
    find_range-IsOther key x (last_shard (remove_shard x ranges)) (remove_shard x ranges)
      (last_shard-IsOther x (remove_shard x ranges) gone) gone
