-- ===== src/TwoPhase/Participants.antt =====
-- distributed_tx.py, ShardParticipant: a shard's side of the protocol. `time.time()` is `now`.
use kos_db.Base.{
  ℕ, String, ◌≡◌, refl, Bool, true, false, Option, none, some, List, [], ◌∷◌, ◌≢◌, string_key,
  ==-refl, ◌==◌, ◌∙◌, if◌then◌else◌, Bool-cases, Option-cases, inl, inr,
}
use kos_db.Dict.{Dict, get, put, get-put}

-- op.get('key'), op.get('data', {})
pub record Operation {ℓ} (D : Type ℓ) : Type ℓ where
  pub key : Option String
  pub value : D

-- the values of the key 'state'
pub data PreparedState : Type 0 where
  prepared committed aborted : PreparedState

pub record PreparedTxn {ℓ} (D : Type ℓ) : Type ℓ where
  pub operations : List (Operation D)
  pub prepared_at : ℕ
  pub state : PreparedState

-- `store` is `db.data`.
pub record ShardParticipant {ℓ} (D : Type ℓ) : Type ℓ where
  pub shard_id : String
  pub store : Dict String D
  pub prepared_txns : Dict String (PreparedTxn D)

module _ {ℓ} {D : Type ℓ} where
  abbrev as_prepared : ℕ → List (Operation D) → PreparedTxn D
  as_prepared now operations = record {
    operations = operations;
    prepared_at = now;
    state = PreparedState.prepared;
  }

  pub prepare : ℕ → String → List (Operation D) → ShardParticipant D → Bool × ShardParticipant D
  prepare now txn_id operations s =
      (true, record s { prepared_txns = put txn_id (as_prepared now operations) s.prepared_txns })

  apply_to : Option String → D → Dict String D → Dict String D
  apply_to none value store = store
  apply_to (some key) value store = put key value store

  -- the loop of commit over the operations
  pub apply_all : List (Operation D) → Dict String D → Dict String D
  unfolding apply_to
  apply_all [] store = store
  apply_all (op ∷ ops) store = apply_all ops (apply_to op.key op.value store)

  -- txn['state'] = state
  abbrev with_state :
      String → PreparedTxn D → PreparedState → ShardParticipant D → ShardParticipant D
  with_state txn_id txn state s = record s {
    prepared_txns = put txn_id (record txn { state = state }) s.prepared_txns;
  }

  -- the branches of commit on txn['state']
  commit_found :
      String → PreparedTxn D → PreparedState → ShardParticipant D → Bool × ShardParticipant D
  commit_found txn_id txn PreparedState.prepared s = (
    true,
    with_state txn_id txn PreparedState.committed
        (record s { store = apply_all txn.operations s.store }),
  )
  commit_found txn_id txn _ s = (false, s)

  pub commit : String → ShardParticipant D → Bool × ShardParticipant D
  unfolding commit_found
  commit txn_id s = elim (get txn_id s.prepared_txns) [
    | none ↦ (true, s)
    | some txn ↦ commit_found txn_id txn txn.state s
  ]

  pub abort : String → ShardParticipant D → Bool × ShardParticipant D
  abort txn_id s = elim (get txn_id s.prepared_txns) [
    | none ↦ (true, s)
    | some txn ↦ (true, with_state txn_id txn PreparedState.aborted s)
  ]

  commit-found :
      (txn_id : String) (txn : PreparedTxn D) (s : ShardParticipant D)
      → get txn_id s.prepared_txns ≡ some txn
      → commit txn_id s ≡ commit_found txn_id txn txn.state s
  unfolding commit
  commit-found txn_id txn s e = rw (e, commit)

  abort-found :
      (txn_id : String) (txn : PreparedTxn D) (s : ShardParticipant D)
      → get txn_id s.prepared_txns ≡ some txn
      → abort txn_id s ≡ (true, with_state txn_id txn PreparedState.aborted s)
  unfolding abort
  abort-found txn_id txn s e = rw (e, abort)

  commit-with_state :
      (txn_id : String) (txn : PreparedTxn D) (state : PreparedState) (s : ShardParticipant D)
      → state ≢ PreparedState.prepared
      → commit txn_id (with_state txn_id txn state s) ≡ (false, with_state txn_id txn state s)
  unfolding commit_found
  commit-with_state txn_id txn state s ended =
      commit-found txn_id (record txn { state = state }) (with_state txn_id txn state s)
        (simp (get-put, ==-refl))
      ∙ refused state ended
    where
      refused :
          (t : PreparedState)
          → t ≢ PreparedState.prepared
          → commit_found txn_id (record txn { state = state }) t (with_state txn_id txn state s)
            ≡ (false, with_state txn_id txn state s)
      refused PreparedState.prepared ne = absurd (ne refl)
      refused PreparedState.committed ne = refl
      refused PreparedState.aborted ne = refl

  commit-prepare :
      (now : ℕ) (txn_id : String) (operations : List (Operation D)) (s : ShardParticipant D)
      → commit txn_id (prepare now txn_id operations s).1 ≡ (
        true,
        with_state txn_id
            (as_prepared now operations)
            PreparedState.committed
            (record (prepare now txn_id operations s).1 { store = apply_all operations s.store }),
      )
  unfolding prepare commit_found
  commit-prepare now txn_id operations s =
      commit-found txn_id (as_prepared now operations) (prepare now txn_id operations s).1
        (simp (get-put, ==-refl))

  -- The value that the last of the operations on a key gives it.
  unfoldable pub last_value : String → List (Operation D) → Option D
  last_value key [] = none
  last_value key (op ∷ ops) = elim (last_value key ops) [
    | some value ↦ some value
    | none ↦ elim op.key [
      | none ↦ none
      | some written ↦ if written == key then some op.value else none
    ]
  ]

  unfoldable pub or_before : Option D → Option D → Option D
  or_before none before = before
  or_before (some value) before = some value

  get-apply_to :
      (key : String) (to : Option String) (value : D) (store : Dict String D)
      → get key (apply_to to value store)
        ≡ or_before
            (elim to [ none ↦ none | some k ↦ if k == key then some value else none ])
            (get key store)
  unfolding apply_to or_before
  get-apply_to key none value store = refl
  get-apply_to key (some k) value store = elim (Bool-cases (k == key)) [
    | inl same ↦ rw (get-put k key value store, same) refl
    | inr other ↦ rw (get-put k key value store, other) refl
  ]

  get-apply_all :
      (key : String) (ops : List (Operation D)) (store : Dict String D)
      → get key (apply_all ops store) ≡ or_before (last_value key ops) (get key store)
  unfolding apply_all last_value or_before
  get-apply_all key [] store = refl
  get-apply_all key (op ∷ ops) store = elim (Option-cases (last_value key ops)) [
    | inl none_later ↦
        rw (none_later, get-apply_all key ops (apply_to op.key op.value store), none_later)
          (get-apply_to key op.key op.value store)
    | inr later ↦ rw (later.1, get-apply_all key ops (apply_to op.key op.value store), later.1) refl
  ]

  -- A prepared transaction is committed exactly once: the first commit returns True, after it every
  -- key of the data has the value of the last operation on it, and its old value if no operation has
  -- this key, and a second commit returns False and changes nothing.
  pub commit_once :
      (now : ℕ) (txn_id : String) (operations : List (Operation D)) (s : ShardParticipant D)
      → let first = commit txn_id (prepare now txn_id operations s).1 in
        (first.0 ≡ true)
        × ((key : String)
            → get key first.1.store ≡ or_before (last_value key operations) (get key s.store))
        × (commit txn_id first.1 ≡ (false, first.1))
  commit_once now txn_id operations s = rw (commit-prepare now txn_id operations s) (
    refl,
    λ key. get-apply_all key operations s.store,
    commit-with_state txn_id (as_prepared now operations) PreparedState.committed _ (λ e. cc),
  )

  -- An aborted transaction does not reach the data: a commit after the abort returns False and
  -- changes nothing, and the data are those from before the prepare.
  pub commit-abort :
      (now : ℕ) (txn_id : String) (operations : List (Operation D)) (s : ShardParticipant D)
      → let ended = (abort txn_id (prepare now txn_id operations s).1).1 in
        (commit txn_id ended ≡ (false, ended)) × (ended.store ≡ s.store)
  unfolding prepare
  commit-abort now txn_id operations s =
      rw
        (abort-found txn_id (as_prepared now operations) (prepare now txn_id operations s).1
          (simp (get-put, ==-refl)))
        (
          commit-with_state txn_id (as_prepared now operations) PreparedState.aborted _ (λ e. cc),
          refl,
        )
