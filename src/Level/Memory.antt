-- ===== src/Level/Memory.antt =====
-- A store in memory that meets the laws of the interface.
use kos_db.Base.{
  ◌≡◌, refl, Option, none, some, List, [], ◌∷◌, if◌then◌else◌, ◌==◌, arith, ◌∙◌, if-both, ==-refl,
}
use kos_db.Dict
use kos_db.Dict.{Dict, get-put, get-remove, has-remove}
use kos_db.Dict.Distinct.{IsDistinct, remove-IsDistinct}
use kos_db.Text.{Text, text_key, text_same_iff}
use kos_db.Text.Prefix.{starts_with}
use kos_db.Level.{Level, batched}

module _ {B : Type 0} where
  unfoldable pub apply_change : Text → Option B → Dict Text B → Dict Text B
  apply_change k none d = Dict.remove k d
  apply_change k (some b) d = Dict.put k b d

  unfoldable pub apply_batch : List (Text × Option B) → Dict Text B → Dict Text B
  unfolding apply_change
  apply_batch [] d = d
  apply_batch ((k, c) ∷ batch) d = apply_batch batch (apply_change k c d)

  -- The first entry of a key counts.
  unfoldable pub with_prefix : Text → Dict Text B → Dict Text B
  with_prefix p [] = []
  with_prefix p ((k, b) ∷ d) =
      let rest = with_prefix p d in if starts_with p k then (k, b) ∷ Dict.remove k rest else rest

  get-apply_change :
      (k j : Text) (c : Option B) (d : Dict Text B)
      → Dict.get k (apply_change j c d) ≡ (if j == k then c else Dict.get k d)
  unfolding apply_change
  get-apply_change k j none d = get-remove j k d
  get-apply_change k j (some b) d = get-put j k b d

  pub get-apply_batch :
      (k : Text) (batch : List (Text × Option B)) (d : Dict Text B)
      → Dict.get k (apply_batch batch d) ≡ batched k batch (Dict.get k d)
  unfolding apply_batch
  get-apply_batch k [] d = refl
  get-apply_batch k ((j, c) ∷ batch) d =
      rw (← get-apply_change k j c d) (get-apply_batch k batch (apply_change j c d))

  pub get-with_prefix :
      (k p : Text) (d : Dict Text B)
      → Dict.get k (with_prefix p d) ≡ (if starts_with p k then Dict.get k d else none)
  unfolding with_prefix Dict.get
  get-with_prefix k p [] = ground arith
  get-with_prefix k p ((j, b) ∷ d) =
      ground (arith, text_same_iff j k, get-with_prefix k p d, get-remove j k (with_prefix p d))

  pub with_prefix-IsDistinct : (p : Text) (d : Dict Text B) → IsDistinct (with_prefix p d)
  unfolding with_prefix
  with_prefix-IsDistinct p [] = tt
  with_prefix-IsDistinct p ((j, b) ∷ d) =
      let rest = with_prefix p d in
      let held = with_prefix-IsDistinct p d in
      if-both IsDistinct (starts_with p j)
        (has-remove j j rest ∙ rw (==-refl j) refl, remove-IsDistinct j rest held) held

abbrev pub memory : (B : Type 0) → Level B
memory B = record {
  Store = Dict Text B;
  read = Dict.get;
  write = Dict.put;
  erase = Dict.remove;
  write_batch = apply_batch;
  iterator = with_prefix;
  read-write = λ j k b s. get-put j k b s;
  read-erase = λ j k s. get-remove j k s;
  read-write_batch = λ k batch s. get-apply_batch k batch s;
  get-iterator = λ k prefix s. get-with_prefix k prefix s;
  iterator-IsDistinct = λ prefix s. with_prefix-IsDistinct prefix s;
}
