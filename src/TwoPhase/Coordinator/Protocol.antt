-- ===== src/TwoPhase/Coordinator/Protocol.antt =====
-- What the two phases do to a transaction, and to the others.
use kos_db.Base.{
  Bool-cases, Option-cases, ◌∙◌, ℕ, String, ◌≡◌, refl, true, some, List, [], ◌∷◌, arith, inl, inr,
  ◌≢◌, map, ok, string_key, ==-refl, ◌==◌, ap,
}
use kos_db.Dict.{Dict, get, get-put}
use kos_db.Dict.Values.{values, map_values, All-map_values}
use mathlib.Core.Path.{ap₂}
use kos_db.TwoPhase.{TransactionState, Participant, DistributedTransaction}
use kos_db.TwoPhase.Coordinator.{
  Coordinator, begin_transaction, prepare_txn, commit_txn, abort_txn, prepare_phase, commit_phase,
  abort_transaction, execute_transaction, prepare_enter, prepare_vote, prepare_finish, commit_enter,
  commit_mark, commit_finish, is_ended, recover_state, get_transaction, recover_transaction, store,
}
use kos_db.TwoPhase.Coordinator.Calls.{
  Call, begins, prepares, commits, aborts, executes, recovers, step,
}
use kos_db.TwoPhase.Coordinator.Atomicity.{IsCommitted}

-- the transaction that prepare_phase leaves, and the one after commit_phase
abbrev voted : ℕ → DistributedTransaction → DistributedTransaction
voted now txn =
    prepare_finish (prepare_vote now (record txn { state = TransactionState.preparing }))

abbrev done : ℕ → DistributedTransaction → DistributedTransaction
done now txn =
    commit_finish now
      (commit_mark now (record (voted now txn) { state = TransactionState.committing }))

prepare_phase-active :
    (now : ℕ) (txn_id : String) (txn : DistributedTransaction) (c : Coordinator)
    → get txn_id c.transactions ≡ some txn
    → txn.state ≡ TransactionState.active
    → prepare_phase now txn_id c ≡ (ok true, store (voted now txn) txn_id c)
unfolding prepare_phase prepare_txn prepare_enter
prepare_phase-active now txn_id txn c e a = rw (e, prepare_phase) (ground arith)

commit_phase-voted :
    (now : ℕ) (txn_id : String) (txn : DistributedTransaction) (c : Coordinator)
    → get txn_id c.transactions ≡ some (voted now txn)
    → commit_phase now txn_id c ≡ (ok true, store (done now txn) txn_id c)
unfolding commit_phase commit_txn commit_enter prepare_finish
commit_phase-voted now txn_id txn c e = rw (e, commit_phase) refl

execute-active :
    {Op : Type 0} (now : ℕ) (txn_id : String) (operations : List Op) (txn : DistributedTransaction)
    (c : Coordinator)
    → get txn_id c.transactions ≡ some txn
    → txn.state ≡ TransactionState.active
    → execute_transaction now txn_id operations c
      ≡ (ok true, store (done now txn) txn_id (store (voted now txn) txn_id c))
unfolding execute_transaction
execute-active now txn_id operations txn c e a = ground (
  arith,
  prepare_phase-active now txn_id txn c e a,
  commit_phase-voted now txn_id txn (store (voted now txn) txn_id c) (simp (get-put, ==-refl)),
)

-- Where the participants stand: the shards and their connections.
abbrev pub placed : DistributedTransaction → List (String × ℕ)
placed txn = map (λ p. (p.shard_id, p.connection)) (values txn.participants)

map-map_values :
    (f : Participant → Participant) (d : Dict String Participant)
    → ((p : Participant)
        → ◌≡◌ {A = String × ℕ} ((f p).shard_id, (f p).connection) (p.shard_id, p.connection))
    → map {B = String × ℕ} (λ p. (p.shard_id, p.connection)) (values (map_values f d))
      ≡ map {B = String × ℕ} (λ p. (p.shard_id, p.connection)) (values d)
unfolding values map_values
map-map_values f [] h = refl
map-map_values f ((a, p) ∷ d) h = ap₂ ◌∷◌ (h p) (map-map_values f d h)

placed-done : (now : ℕ) (txn : DistributedTransaction) → placed (done now txn) ≡ placed txn
unfolding commit_finish commit_mark prepare_finish prepare_vote
placed-done now txn =
    map-map_values _ (map_values _ txn.participants) (λ p. refl)
    ∙ map-map_values _ txn.participants (λ p. refl)

-- An ACTIVE transaction commits: execute_transaction returns True, the transaction is then
-- COMMITTED with the decision True and all its participants COMMITTED, at the shards where they
-- were, and every other transaction is as before.
pub execute-commits :
    {Op : Type 0} (now : ℕ) (txn_id : String) (operations : List Op) (txn : DistributedTransaction)
    (c : Coordinator)
    → get_transaction txn_id c ≡ some txn
    → txn.state ≡ TransactionState.active
    → ((execute_transaction now txn_id operations c).0 ≡ ok true)
      × ((txn' : DistributedTransaction) × (get_transaction txn_id
              (execute_transaction now txn_id operations c).1
            ≡ some txn')
          × IsCommitted txn'
          × (placed txn' ≡ placed txn))
      × ((other : String)
          → other ≢ txn_id
          → get_transaction other (execute_transaction now txn_id operations c).1
            ≡ get_transaction other c)
unfolding get_transaction commit_finish commit_mark prepare_finish
execute-commits now txn_id operations txn c e a =
    rw (execute-active now txn_id operations txn c e a) (
      refl,
      (
        done now txn,
        simp (get-put, ==-refl),
        (refl, refl, All-map_values _ _ _ (λ p. refl)),
        placed-done now txn,
      ),
      λ other ne. simp get-put (ground (arith, string_key.same_iff txn_id other)),
    )

module _ (txn_id : String) (txn : DistributedTransaction) (c : Coordinator)
    (e : get txn_id c.transactions ≡ some txn) (ended : is_ended txn.state ≡ true) where
  get-store_fixed :
      (other : String) (found changed : DistributedTransaction)
      → get other c.transactions ≡ some found
      → (found ≡ txn → changed ≡ txn)
      → get txn_id (store changed other c).transactions ≡ some txn
  get-store_fixed other found changed at fixed = simp get-put (elim (Bool-cases (other == txn_id)) [
    | inl same ↦ rw same (ap some (fixed (cc ((string_key.same_iff other txn_id).0 same))))
    | inr differ ↦ rw differ e
  ])

  prepare_phase-ended :
      (now : ℕ) (other : String) → get txn_id (prepare_phase now other c).1.transactions ≡ some txn
  unfolding prepare_phase prepare_txn prepare_enter
  prepare_phase-ended now other = elim (Option-cases (get other c.transactions)) [
    | inl none_there ↦ rw (none_there, prepare_phase) e
    | inr (found, at) ↦
        rw (at, prepare_phase) (get-store_fixed other found _ at (λ same. ground arith))
  ]

  commit_phase-ended :
      (now : ℕ) (other : String) → get txn_id (commit_phase now other c).1.transactions ≡ some txn
  unfolding commit_phase commit_txn commit_enter
  commit_phase-ended now other = elim (Option-cases (get other c.transactions)) [
    | inl none_there ↦ rw (none_there, commit_phase) e
    | inr (found, at) ↦
        rw (at, commit_phase) (get-store_fixed other found _ at (λ same. ground arith))
  ]

  abort_transaction-ended :
      (other : String) → get txn_id (abort_transaction other c).1.transactions ≡ some txn
  unfolding abort_transaction abort_txn
  abort_transaction-ended other = elim (Option-cases (get other c.transactions)) [
    | inl none_there ↦ rw (none_there, abort_transaction) e
    | inr (found, at) ↦
        rw (at, abort_transaction) (get-store_fixed other found _ at (λ same. ground arith))
  ]

  recover_state-ended :
      (now : ℕ) (other : String) (s : TransactionState)
      → get txn_id (recover_state now other s c).1.transactions ≡ some txn
  unfolding recover_state
  recover_state-ended now other TransactionState.prepared = commit_phase-ended now other
  recover_state-ended now other TransactionState.committing = commit_phase-ended now other
  recover_state-ended now other TransactionState.aborting = abort_transaction-ended other
  recover_state-ended now other _ = e

  recover_transaction-ended :
      (now : ℕ) (other : String)
      → get txn_id (recover_transaction now other c).1.transactions ≡ some txn
  unfolding recover_transaction get_transaction
  recover_transaction-ended now other = elim (Option-cases (get other c.transactions)) [
    | inl none_there ↦ rw (none_there, recover_transaction) e
    | inr (found, at) ↦ rw (at, recover_transaction) (recover_state-ended now other found.state)
  ]

execute_transaction-ended :
    {Op : Type 0} (now : ℕ) (other : String) (operations : List Op) (txn_id : String)
    (txn : DistributedTransaction) (c : Coordinator)
    → get txn_id c.transactions ≡ some txn
    → is_ended txn.state ≡ true
    → get txn_id (execute_transaction now other operations c).1.transactions ≡ some txn
unfolding execute_transaction
execute_transaction-ended now other operations txn_id txn c e ended =
    let c' : Coordinator = (prepare_phase now other c).1 in
    let e' : get txn_id c'.transactions ≡ some txn =
      prepare_phase-ended txn_id txn c e ended now other in
    ground (
      arith,
      e',
      commit_phase-ended txn_id txn c' e' ended now other,
      abort_transaction-ended txn_id txn c' e' ended other,
    )

-- A transaction that has ended, COMMITTED or ABORTED, is final: a call leaves it as it is, if
-- the next identifier that the call could draw is not its own.
pub step-ended :
    (uuid : ℕ → String) (c : Coordinator) (call : ℕ × Call) (txn_id : String)
    (txn : DistributedTransaction)
    → get_transaction txn_id c ≡ some txn
    → is_ended txn.state ≡ true
    → uuid c.drawn ≢ txn_id
    → get_transaction txn_id (step uuid c call) ≡ some txn
unfolding get_transaction step begin_transaction
step-ended uuid c (now, begins shards) txn_id txn e ended fresh =
    simp get-put (ground (arith, string_key.same_iff (uuid c.drawn) txn_id))
step-ended uuid c (now, prepares other) txn_id txn e ended fresh =
    prepare_phase-ended txn_id txn c e ended now other
step-ended uuid c (now, commits other) txn_id txn e ended fresh =
    commit_phase-ended txn_id txn c e ended now other
step-ended uuid c (now, aborts other) txn_id txn e ended fresh =
    abort_transaction-ended txn_id txn c e ended other
step-ended uuid c (now, executes other) txn_id txn e ended fresh =
    execute_transaction-ended {Op = ℕ} now other [] txn_id txn c e ended
step-ended uuid c (now, recovers other) txn_id txn e ended fresh =
    recover_transaction-ended txn_id txn c e ended now other
