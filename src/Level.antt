-- ===== src/Level.antt =====
-- What the database uses of plyvel, LevelDB's library: an ordered map from keys to values, with a
-- prefix iterator and atomic write batches. The laws are its documented behaviour.
pub mod Memory
use kos_db.Base.{Bool, ◌≡◌, Option, none, some, List, [], ◌∷◌, if◌then◌else◌, ◌==◌}
use kos_db.Dict
use kos_db.Dict.Distinct.{IsDistinct}
use kos_db.Text.{Text, text_key}
use kos_db.Text.Prefix.{starts_with}

-- What a write batch does to one key: the last of its entries for the key counts.
abbrev pub batched {ℓ} : {B : Type ℓ} → Text → List (Text × Option B) → Option B → Option B
batched k [] found = found
batched k ((j, change) ∷ batch) found = batched k batch (if j == k then change else found)

-- Blobs are what the values decode to: the program reads every value by json.loads.
pub record Level (B : Type 0) : Type 1 where
  pub Store : Type 0
  pub read : Text → Store → Option B
  pub write : Text → B → Store → Store
  pub erase : Text → Store → Store
  -- a batch entry with no value is a delete
  pub write_batch : List (Text × Option B) → Store → Store
  pub iterator : Text → Store → List (Text × B)
  pub read-write :
      (j k : Text) (b : B) (s : Store)
      → read k (write j b s) ≡ (if j == k then some b else read k s)
  pub read-erase :
      (j k : Text) (s : Store) → read k (erase j s) ≡ (if j == k then none else read k s)
  pub read-write_batch :
      (k : Text) (batch : List (Text × Option B)) (s : Store)
      → read k (write_batch batch s) ≡ batched k batch (read k s)
  pub get-iterator :
      (k prefix : Text) (s : Store)
      → Dict.get k (iterator prefix s) ≡ (if starts_with prefix k then read k s else none)
  pub iterator-IsDistinct : (prefix : Text) (s : Store) → IsDistinct (iterator prefix s)
