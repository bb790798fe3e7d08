-- ===== src/TwoPhase/Coordinator/Manager.antt =====
-- distributed_tx.py, DistributedTransactionManager: transactions over several shards.
use kos_db.Base.{
  ◌⊎◌, ℕ, String, ◌≡◌, refl, Bool, true, false, Option, none, some, List, [], ◌∷◌, arith, Result,
  ok, err, if◌then◌else◌, string_key, Option-cases, inl, inr, ◌∙◌, ap,
}
use kos_db.Dict.{Dict, get, put, has, has-of_none, has-of_get}
use kos_db.Dict.Values.{keys}
use kos_db.TwoPhase.{DistributedTransaction, StateSummary, get_state_summary}
use kos_db.TwoPhase.Coordinator.{
  Coordinator, Error, init, begin_transaction, execute_transaction, get_transaction,
}
use kos_db.TwoPhase.Coordinator.Atomicity.{IsCommitted}
use kos_db.TwoPhase.Coordinator.Begin.{begin-registers}
use kos_db.TwoPhase.Coordinator.Protocol.{placed, execute-commits}

abbrev pub Listed : String → List String → Type 0
Listed a [] = ⊥
Listed a (b ∷ bs) = (b ≡ a) ⊎ Listed a bs

-- `RuntimeError`, `ValueError`, and what the coordinator raises.
pub data ManagerError : Type 0 where
  not_coordinator : ManagerError
  unknown_shard : String → ManagerError
  from_coordinator : Error → ManagerError

pub record Manager : Type 0 where
  pub node_id : String
  pub is_coordinator : Bool
  pub coordinator : Option Coordinator
  pub shards : Dict String ℕ

-- __init__; the coordinator's timeout is 30 seconds.
pub new_manager : String → Bool → Manager
unfolding init
new_manager node_id is_coordinator = record {
  node_id = node_id;
  is_coordinator = is_coordinator;
  coordinator = if is_coordinator then some (init node_id 30) else none;
  shards = [];
}

pub register_shard : String → ℕ → Manager → Manager
register_shard shard_id connection m = record m { shards = put shard_id connection m.shards }

-- the loop of execute_cross_shard over the shards named
unfoldable pub participants_of :
    Dict String ℕ → List String → Result ManagerError (List (String × ℕ))
participants_of shards [] = ok []
participants_of shards (shard_id ∷ rest) =
    let others = participants_of shards rest in
    elim (get shard_id shards) [
      | none ↦ err (unknown_shard shard_id)
      | some connection ↦ elim others [
        | err e ↦ err e
        | ok participants ↦ ok ((shard_id, connection) ∷ participants)
      ]
    ]

abbrev result_of : String → Result Error Bool → Result ManagerError (String × Bool)
result_of txn_id (ok success) = ok (txn_id, success)
result_of txn_id (err e) = err (from_coordinator e)

-- the operations are dropped: execute_transaction is called with the empty list
execute_on :
    (ℕ → String)
    → ℕ
    → List (String × ℕ)
    → Coordinator
    → Result ManagerError (String × Bool) × Coordinator
execute_on uuid now participants c =
    let (txn_id, c') = begin_transaction uuid now participants c in
    let (success, c'') = execute_transaction {Op = ℕ} now txn_id [] c' in
    (result_of txn_id success, c'')

execute_with :
    (ℕ → String)
    → ℕ
    → Result ManagerError (List (String × ℕ))
    → Coordinator
    → Manager
    → Result ManagerError (String × Bool) × Manager
unfolding execute_on
execute_with uuid now (err e) c m = (err e, m)
execute_with uuid now (ok participants) c m =
    let (r, c') = execute_on uuid now participants c in (r, record m { coordinator = some c' })

pub execute_cross_shard :
    {Op : Type 0}
    → (ℕ → String)
    → ℕ
    → Dict String (List Op)
    → Manager
    → Result ManagerError (String × Bool) × Manager
unfolding participants_of execute_with
execute_cross_shard uuid now operations_by_shard m = elim m.coordinator [
  | none ↦ (err not_coordinator, m)
  | some c ↦
      if m.is_coordinator
      then execute_with uuid now (participants_of m.shards (keys operations_by_shard)) c m
      else (err not_coordinator, m)
]

pub get_transaction_status : String → Manager → Option StateSummary
unfolding get_transaction get_state_summary
get_transaction_status txn_id m = elim m.coordinator [
  | none ↦ none
  | some c ↦ elim (get_transaction txn_id c) [
    | none ↦ none
    | some txn ↦ some (get_state_summary txn)
  ]
]

execute_cross_shard-coordinator :
    {Op : Type 0} (uuid : ℕ → String) (now : ℕ) (operations : Dict String (List Op)) (m : Manager)
    (c : Coordinator)
    → m.coordinator ≡ some c
    → m.is_coordinator ≡ true
    → execute_cross_shard uuid now operations m
      ≡ execute_with uuid now (participants_of m.shards (keys operations)) c m
unfolding execute_cross_shard
execute_cross_shard-coordinator uuid now operations m c e is_c = ground arith

-- The transaction of this id is COMMITTED, with a participant for each of these shards.
abbrev pub CommittedOn : String → List (String × ℕ) → Coordinator → Type 0
CommittedOn txn_id participants c =
    (txn : DistributedTransaction) × (get_transaction txn_id c ≡ some txn)
    × IsCommitted txn
    × (placed txn ≡ participants)

execute_on-commits :
    (uuid : ℕ → String) (distinct : (m n : ℕ) → uuid m ≡ uuid n → m ≡ n) (now : ℕ)
    (participants : List (String × ℕ)) (c : Coordinator)
    → ((execute_on uuid now participants c).0 ≡ ok (uuid c.drawn, true))
      × CommittedOn (uuid c.drawn) participants (execute_on uuid now participants c).1
unfolding execute_on begin_transaction
execute_on-commits uuid distinct now participants c =
    let c' : Coordinator = (begin_transaction uuid now participants c).1 in
    let (txn, stored, is_active, shards, all_active) =
      (begin-registers uuid distinct now participants c).0 in
    let (returned, found, others) =
      execute-commits {Op = ℕ} now (uuid c.drawn) [] txn c' stored is_active in
    (ap (result_of (uuid c.drawn)) returned, (found.0, found.1, found.2, found.3 ∙ shards))

-- If every shard that is named is registered and no identifier is drawn twice, execute_cross_shard of
-- a coordinating manager succeeds: it returns the new id with True, and the transaction of that
-- id is COMMITTED, at a participant for each of the shards, in their order.
pub execute_cross_shard-commits :
    {Op : Type 0} (uuid : ℕ → String) (distinct : (m n : ℕ) → uuid m ≡ uuid n → m ≡ n) (now : ℕ)
    (operations : Dict String (List Op)) (m : Manager) (c : Coordinator)
    (participants : List (String × ℕ))
    → m.coordinator ≡ some c
    → m.is_coordinator ≡ true
    → participants_of m.shards (keys operations) ≡ ok participants
    → ((execute_cross_shard uuid now operations m).0 ≡ ok (uuid c.drawn, true))
      × ((c' : Coordinator) × ((execute_cross_shard uuid now operations m).1.coordinator ≡ some c')
          × CommittedOn (uuid c.drawn) participants c')
unfolding execute_with
execute_cross_shard-commits uuid distinct now operations m c participants e is_c known =
    let (returned, committed) = execute_on-commits uuid distinct now participants c in
    rw (execute_cross_shard-coordinator uuid now operations m c e is_c) (
      rw (known, execute_with)
        (returned, ((execute_on uuid now participants c).1, refl, committed)))

participants_of-unknown :
    (shards : Dict String ℕ) (ids : List String) (shard_id : String)
    → Listed shard_id ids
    → has shard_id shards ≡ false
    → (unknown : String) × (participants_of shards ids ≡ err (unknown_shard unknown))
      × (has unknown shards ≡ false)
unfolding participants_of
participants_of-unknown shards [] shard_id l h = absurd l
participants_of-unknown shards (id ∷ ids) shard_id l h = elim (Option-cases (get id shards)) [
  | inl missing ↦ (id, rw (missing, participants_of), has-of_none id shards missing)
  | inr (connection, there) ↦ elim l [
    | inl same ↦ absurd (cc (h, same, has-of_get id connection shards there))
    | inr rest ↦
        let (unknown, raised, absent) = participants_of-unknown shards ids shard_id rest h in
        (unknown, rw (there, participants_of) (rw (raised, participants_of)), absent)
  ]
]

-- If a shard that is named is not registered, execute_cross_shard of a coordinating manager raises
-- ValueError for a shard that is not registered, and changes nothing.
pub execute_cross_shard-unknown :
    {Op : Type 0} (uuid : ℕ → String) (now : ℕ) (operations : Dict String (List Op)) (m : Manager)
    (c : Coordinator) (shard_id : String)
    → m.coordinator ≡ some c
    → m.is_coordinator ≡ true
    → Listed shard_id (keys operations)
    → has shard_id m.shards ≡ false
    → (unknown : String) × (execute_cross_shard uuid now operations m
        ≡ (err (unknown_shard unknown), m))
      × (has unknown m.shards ≡ false)
unfolding execute_with
execute_cross_shard-unknown uuid now operations m c shard_id e is_c l h =
    let (unknown, raised, absent) =
      participants_of-unknown m.shards (keys operations) shard_id l h in
    (
      unknown,
      execute_cross_shard-coordinator uuid now operations m c e is_c ∙ rw (raised, execute_with),
      absent,
    )
