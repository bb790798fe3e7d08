-- ===== src/TwoPhase/Coordinator/Begin.antt =====
-- What begin_transaction registers.
use kos_db.Base.{
  ℕ, suc, ◌≤◌, String, ◌≡◌, refl, false, some, List, [], ◌∷◌, ◌++◌, arith, ◌≢◌, map, append_assoc,
  append-nil, string_key, ==-refl, ap, sym, ◌∙◌, All,
}
use kos_db.Dict.{Dict, put, has, get-put, has-put}
use kos_db.Dict.Values.{values}
use kos_db.TwoPhase.{
  TransactionState, ParticipantState, Participant, DistributedTransaction, add_participant,
}
use kos_db.TwoPhase.Coordinator.{
  Coordinator, add_participants, begin_transaction, new_transaction, new_participant,
  get_transaction,
}

-- A new key goes to the end.
values-put_new :
    (a : String) (p : Participant) (d : Dict String Participant)
    → has a d ≡ false
    → values (put a p d) ≡ values d ++ p ∷ []
unfolding values put has
values-put_new a p [] h = refl
values-put_new a p ((b, q) ∷ d) h = ground (arith, values-put_new a p d)

-- The participants that the loop makes, one for each shard.
abbrev pub fresh_participants : (ℕ → String) → ℕ → ℕ → List (String × ℕ) → List Participant
fresh_participants uuid drawn now [] = []
fresh_participants uuid drawn now (shard ∷ shards) =
    new_participant (uuid drawn) shard now ∷ fresh_participants uuid (suc drawn) now shards

map-fresh_participants :
    (uuid : ℕ → String) (drawn now : ℕ) (shards : List (String × ℕ))
    → map (λ p. (p.shard_id, p.connection)) (fresh_participants uuid drawn now shards) ≡ shards
map-fresh_participants uuid drawn now [] = refl
map-fresh_participants uuid drawn now (shard ∷ shards) =
    ap (◌∷◌ shard) (map-fresh_participants uuid (suc drawn) now shards)

fresh_participants-active :
    (uuid : ℕ → String) (drawn now : ℕ) (shards : List (String × ℕ))
    → All (λ p. p.state ≡ ParticipantState.active) (fresh_participants uuid drawn now shards)
fresh_participants-active uuid drawn now [] = tt
fresh_participants-active uuid drawn now (shard ∷ shards) =
    (refl, fresh_participants-active uuid (suc drawn) now shards)

-- No identifier from the n-th on is a key yet.
abbrev Unused : (ℕ → String) → ℕ → Dict String Participant → Type 0
Unused uuid n d = (m : ℕ) → n ≤ m → has (uuid m) d ≡ false

module _ (uuid : ℕ → String) (distinct : (m n : ℕ) → uuid m ≡ uuid n → m ≡ n) where
  Unused-put :
      (n : ℕ) (p : Participant) (d : Dict String Participant)
      → Unused uuid n d
      → Unused uuid (suc n) (put (uuid n) p d)
  Unused-put n p d h m le =
      simp has-put (ground (arith, h m, distinct n m, string_key.same_iff (uuid n) (uuid m)))

  participants-add_participants :
      (drawn now : ℕ) (shards : List (String × ℕ)) (txn : DistributedTransaction)
      → Unused uuid drawn txn.participants
      → values (add_participants uuid drawn now shards txn).participants
        ≡ values txn.participants ++ fresh_participants uuid drawn now shards
  unfolding add_participants add_participant
  participants-add_participants drawn now [] txn h = sym (append-nil _)
  participants-add_participants drawn now (shard ∷ shards) txn h =
      participants-add_participants (suc drawn) now shards
        (add_participant (new_participant (uuid drawn) shard now) txn)
        (Unused-put drawn _ txn.participants h)
      ∙ ap (λ l. l ++ fresh_participants uuid (suc drawn) now shards)
          (values-put_new (uuid drawn) _ txn.participants (h drawn (omega arith)))
      ∙ append_assoc (values txn.participants) _ _

  state-add_participants :
      (drawn now : ℕ) (shards : List (String × ℕ)) (txn : DistributedTransaction)
      → (add_participants uuid drawn now shards txn).state ≡ txn.state
  unfolding add_participants add_participant
  state-add_participants drawn now [] txn = refl
  state-add_participants drawn now (shard ∷ shards) txn =
      state-add_participants (suc drawn) now shards _

  participants-of_new :
      (drawn now : ℕ) (shards : List (String × ℕ)) (txn_id coordinator_id : String)
      → values
          (add_participants uuid drawn now shards
            (new_transaction txn_id coordinator_id now)).participants
        ≡ fresh_participants uuid drawn now shards
  unfolding has values
  participants-of_new drawn now shards txn_id coordinator_id =
      participants-add_participants drawn now shards (new_transaction txn_id coordinator_id now)
        (λ m le. refl)

  -- If no identifier is drawn twice, begin_transaction stores under the id that it returns an ACTIVE
  -- transaction with exactly one ACTIVE participant for each of the given shards, in their order,
  -- and leaves the other transactions as they are.
  pub begin-registers :
      (now : ℕ) (shards : List (String × ℕ)) (c : Coordinator)
      → let (txn_id, c') = begin_transaction uuid now shards c in
        ((txn : DistributedTransaction) × (get_transaction txn_id c' ≡ some txn)
          × (txn.state ≡ TransactionState.active)
          × (map (λ p. (p.shard_id, p.connection)) (values txn.participants) ≡ shards)
          × All (λ p. p.state ≡ ParticipantState.active) (values txn.participants))
        × ((other : String) → other ≢ txn_id → get_transaction other c' ≡ get_transaction other c)
  unfolding begin_transaction get_transaction
  begin-registers now shards c = (
    (
      add_participants uuid (suc c.drawn) now shards fresh,
      simp (get-put, ==-refl),
      state-add_participants (suc c.drawn) now shards fresh,
      rw made (map-fresh_participants uuid (suc c.drawn) now shards),
      rw made (fresh_participants-active uuid (suc c.drawn) now shards),
    ),
    λ other ne. simp get-put (ground (arith, string_key.same_iff (uuid c.drawn) other)),
  )
    where
      fresh : DistributedTransaction
      fresh = new_transaction (uuid c.drawn) c.coordinator_id now

      made :
          values (add_participants uuid (suc c.drawn) now shards fresh).participants
          ≡ fresh_participants uuid (suc c.drawn) now shards
      made = participants-of_new (suc c.drawn) now shards (uuid c.drawn) c.coordinator_id
