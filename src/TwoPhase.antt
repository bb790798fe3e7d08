-- ===== src/TwoPhase.antt =====
-- distributed_tx.py, the data of two-phase commit: transactions, participants and
-- their methods. `time.time()` is an argument `now`.
pub mod Coordinator
pub mod Participants
use kos_db.Base.{
  ℕ, suc, String, ◌≡◌, Bool, true, false, not, ◌&&◌, ◌||◌, Option, none, some, List, [], ◌∷◌,
  nat_eq, if◌then◌else◌, Result, ok, err, length, string_key,
}
use kos_db.Dict.{Dict, put}
use kos_db.Dict.Values.{values}

pub data TransactionState : Type 0 where
  active preparing prepared committing committed aborting aborted heuristic_abort : TransactionState

-- The numbers that `auto()` gives.
abbrev pub state_value : TransactionState → ℕ
state_value TransactionState.active = 1
state_value TransactionState.preparing = 2
state_value TransactionState.prepared = 3
state_value TransactionState.committing = 4
state_value TransactionState.committed = 5
state_value TransactionState.aborting = 6
state_value TransactionState.aborted = 7
state_value TransactionState.heuristic_abort = 8

abbrev pub is_state : TransactionState → TransactionState → Bool
is_state s t = nat_eq (state_value s) (state_value t)

pub data ParticipantState : Type 0 where
  active prepared committed aborted failed : ParticipantState

abbrev pub participant_state_value : ParticipantState → ℕ
participant_state_value ParticipantState.active = 1
participant_state_value ParticipantState.prepared = 2
participant_state_value ParticipantState.committed = 3
participant_state_value ParticipantState.aborted = 4
participant_state_value ParticipantState.failed = 5

abbrev pub is_participant_state : ParticipantState → ParticipantState → Bool
is_participant_state s t = nat_eq (participant_state_value s) (participant_state_value t)

-- A connection is an object that the coordinator only carries: a number names it.
pub record Participant : Type 0 where
  pub participant_id : String
  pub shard_id : String
  pub connection : ℕ
  pub state : ParticipantState
  pub vote : Option Bool
  pub last_contact : ℕ

pub touch : ℕ → Participant → Participant
touch now p = record p { last_contact = now }

pub record DistributedTransaction : Type 0 where
  pub txn_id : String
  pub coordinator_id : String
  pub state : TransactionState
  pub participants : Dict String Participant
  pub start_time : ℕ
  pub commit_time : Option ℕ
  pub abort_reason : Option String
  pub decision : Option Bool

pub add_participant : Participant → DistributedTransaction → DistributedTransaction
add_participant p txn = record txn { participants = put p.participant_id p txn.participants }

abbrev is_vote : Bool → Option Bool → Bool
is_vote b none = false
is_vote true (some v) = v
is_vote false (some v) = not v

-- all(...) and any(...) of Python
all : (Participant → Bool) → List Participant → Bool
all f [] = true
all f (p ∷ ps) = f p && all f ps

any : (Participant → Bool) → List Participant → Bool
any f [] = false
any f (p ∷ ps) = f p || any f ps

count_if : (Participant → Bool) → List Participant → ℕ
count_if f [] = 0
count_if f (p ∷ ps) = let rest = count_if f ps in if f p then suc rest else rest

pub all_prepared : DistributedTransaction → Bool
unfolding all
all_prepared txn =
    all (λ p. is_participant_state p.state ParticipantState.prepared && is_vote true p.vote)
      (values txn.participants)

pub any_aborted : DistributedTransaction → Bool
unfolding any
any_aborted txn =
    any (λ p. is_vote false p.vote || is_participant_state p.state ParticipantState.aborted)
      (values txn.participants)

-- get_state_summary, without the duration
pub record StateSummary : Type 0 where
  pub txn_id : String
  pub coordinator : String
  pub state : TransactionState
  pub participants : ℕ
  pub prepared : ℕ

pub get_state_summary : DistributedTransaction → StateSummary
unfolding count_if
get_state_summary txn = record {
  txn_id = txn.txn_id;
  coordinator = txn.coordinator_id;
  state = txn.state;
  participants = length txn.participants;
  prepared =
      count_if (λ p. is_participant_state p.state ParticipantState.prepared)
        (values txn.participants);
}
