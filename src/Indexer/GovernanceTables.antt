-- ===== src/Indexer/GovernanceTables.antt =====
-- The rows that internal/db/governance.go keeps and the statements that the indexer runs on them.
use aegis_protocol.Base.{
  ℕ, ◌+◌, Bool, true, false, not, ◌&&◌, ◌||◌, List, [], ◌∷◌, map, Option, some, any_of, ltb, ◌==◌,
  if◌then◌else◌, Text, text_eq, Action, ◌>>=◌, throw, gets, exec,
}
use aegis_protocol.Indexer.Event.{IndexError, store_failed, foreign_key}
use aegis_protocol.Indexer.Table.{insert_new}
use aegis_protocol.Indexer.Vault.{AssetMetadata}

pub record GovernorMetadata : Type 0 where
  pub chain_id : ℕ
  pub address : Text
  pub token_address : Text
  pub timelock_address : Text

-- The values of the column `state`.
pub data ProposalState : Type 0 where
  pending active succeeded queued dispatched executed cancelled : ProposalState

-- A row of governance_proposals: `db.GovernanceProposal` and what later statements set.
pub record Proposal : Type 0 where
  pub chain_id : ℕ
  pub governor_address : Text
  pub proposal_id : ℕ
  pub proposer : Text
  pub title : Text
  pub description : Text
  pub target : Text
  pub target_chain_id : ℕ
  pub action_value : ℕ
  pub calldata : Text
  pub vote_start : ℕ
  pub vote_end : ℕ
  pub tx_hash : Text
  pub log_index : ℕ
  pub block_number : ℕ
  pub state : ProposalState
  pub votes_for : ℕ
  pub votes_against : ℕ
  pub votes_abstain : ℕ
  pub operation_id : Option ℕ
  pub executable_at : Option ℕ
  pub queued_at : Option ℕ
  pub dispatched_at : Option ℕ
  pub executed_at : Option ℕ
  pub cancelled_at : Option ℕ

-- `db.GovernanceVote`.
pub record Vote : Type 0 where
  pub chain_id : ℕ
  pub proposal_id : ℕ
  pub voter : Text
  pub support : ℕ
  pub weight : ℕ
  pub reason : Text
  pub tx_hash : Text
  pub log_index : ℕ
  pub block_number : ℕ
  pub voted_at : ℕ

pub record GovernanceState : Type 0 where
  pub assets : List AssetMetadata
  pub governors : List GovernorMetadata
  pub proposals : List Proposal
  pub votes : List Vote
  pub governor_set : Bool

abbrev pub GovernanceAction : Type 0 → Type 0
GovernanceAction A = Action IndexError GovernanceState A

abbrev pub same_governor : GovernorMetadata → GovernorMetadata → Bool
same_governor a b = a.chain_id == b.chain_id && text_eq a.address b.address

abbrev pub same_proposal : Proposal → Proposal → Bool
same_proposal a b = a.chain_id == b.chain_id && a.proposal_id == b.proposal_id

abbrev pub same_vote : Vote → Vote → Bool
same_vote a b =
    a.chain_id == b.chain_id && text_eq a.tx_hash b.tx_hash && a.log_index == b.log_index

-- The other keys: a proposal's event, and a voter's vote on a proposal.
abbrev same_event : Proposal → Proposal → Bool
same_event a b =
    a.chain_id == b.chain_id && text_eq a.tx_hash b.tx_hash && a.log_index == b.log_index

abbrev same_voter : Vote → Vote → Bool
same_voter a b =
    a.chain_id == b.chain_id && a.proposal_id == b.proposal_id && text_eq a.voter b.voter

abbrev is_governor : ℕ → Text → GovernorMetadata → Bool
is_governor chain_id address g = g.chain_id == chain_id && text_eq g.address address

-- `WHERE chain_id = $1 AND proposal_id = $2`.
abbrev pub is_proposal : ℕ → ℕ → Proposal → Bool
is_proposal chain_id id p = p.chain_id == chain_id && p.proposal_id == id

-- SUM(weight) FILTER (WHERE support = …) over the votes of one proposal.
unfoldable pub tally : ℕ → ℕ → ℕ → List Vote → ℕ
tally chain_id id support [] = 0
tally chain_id id support (v ∷ votes) =
    (if v.chain_id == chain_id && v.proposal_id == id && v.support == support then v.weight else 0)
    + tally chain_id id support votes

-- qRetallyProposal, on one row.
unfoldable pub retally : ℕ → ℕ → List Vote → Proposal → Proposal
unfolding tally
retally chain_id id votes p =
    if is_proposal chain_id id p
    then record p {
      votes_for = tally chain_id id 1 votes;
      votes_against = tally chain_id id 0 votes;
      votes_abstain = tally chain_id id 2 votes;
    }
    else p

-- Whether an insert may go on: its checks hold, and the row is there, and nothing happens, or its event
-- is not and its governor is.
unfoldable pub may_insert_proposal : Proposal → GovernanceState → Bool
may_insert_proposal p s =
    ltb 0 p.proposal_id
    && (any_of (same_proposal p) s.proposals
        || not (any_of (same_event p) s.proposals)
          && any_of (is_governor p.chain_id p.governor_address) s.governors)

unfoldable pub insert_governance_proposal : Proposal → GovernanceAction (Unit {0})
unfolding exec
insert_governance_proposal p = do
  allowed ← gets (may_insert_proposal p)
  if allowed
      then exec store_failed (λ s. record s { proposals = insert_new same_proposal p s.proposals })
      else throw store_failed

-- The same of a vote: its event's row is there, or the voter has none on the proposal.
unfoldable pub may_insert_vote : Vote → GovernanceState → Bool
may_insert_vote v s =
    ltb v.support 3
    && ltb 0 v.weight
    && (any_of (same_vote v) s.votes || not (any_of (same_voter v) s.votes))

unfoldable pub with_vote : Vote → GovernanceState → GovernanceState
unfolding retally
with_vote v s =
    let votes' = insert_new same_vote v s.votes in
    record s {
      votes = votes';
      proposals = map (retally v.chain_id v.proposal_id votes') s.proposals;
    }

-- The insert and the retally are one transaction: both happen or neither. The table has a foreign
-- key to governance_proposals (migrations/000007_governance_schema.up.sql), so a vote on a proposal
-- that is not there is refused.
unfoldable pub insert_governance_vote : Vote → GovernanceAction (Unit {0})
unfolding exec with_vote
insert_governance_vote v = do
  allowed ← gets (may_insert_vote v)
  known ← gets (λ s. any_of (is_proposal v.chain_id v.proposal_id) s.proposals)
  if not allowed
      then throw store_failed
      else if known
      then exec store_failed (with_vote v)
      else throw foreign_key

-- The guards of the four transitions.
pub may_queue : ProposalState → Bool
may_queue pending = true
may_queue active = true
may_queue succeeded = true
may_queue _ = false

pub may_dispatch : ProposalState → Bool
may_dispatch queued = true
may_dispatch _ = false

pub may_execute : ProposalState → Bool
may_execute queued = true
may_execute dispatched = true
may_execute _ = false

pub may_cancel : ProposalState → Bool
may_cancel executed = false
may_cancel cancelled = false
may_cancel _ = true

unfoldable pub queue_row : ℕ → ℕ → ℕ → ℕ → ℕ → Proposal → Proposal
unfolding may_queue
queue_row chain_id id operation executable_at at p =
    if is_proposal chain_id id p && may_queue p.state
    then record p {
      state = queued;
      operation_id = some operation;
      executable_at = some executable_at;
      queued_at = some at;
    }
    else p

unfoldable pub dispatch_row : ℕ → ℕ → ℕ → Proposal → Proposal
unfolding may_dispatch
dispatch_row chain_id id at p =
    if is_proposal chain_id id p && may_dispatch p.state
    then record p { state = dispatched; dispatched_at = some at }
    else p

unfoldable pub execute_row : ℕ → ℕ → ℕ → Proposal → Proposal
unfolding may_execute
execute_row chain_id id at p =
    if is_proposal chain_id id p && may_execute p.state
    then record p { state = executed; executed_at = some at }
    else p

unfoldable pub cancel_row : ℕ → ℕ → ℕ → Proposal → Proposal
unfolding may_cancel
cancel_row chain_id id at p =
    if is_proposal chain_id id p && may_cancel p.state
    then record p { state = cancelled; cancelled_at = some at }
    else p

abbrev pub update_proposals : (Proposal → Proposal) → GovernanceAction (Unit {0})
update_proposals f = exec store_failed (λ s. record s { proposals = map f s.proposals })

-- An operation is not 0, in a row that is written.
unfoldable pub may_mark_queued : ℕ → ℕ → ℕ → GovernanceState → Bool
unfolding may_queue
may_mark_queued chain_id id operation s =
    ltb 0 operation
    || not (any_of (λ p. is_proposal chain_id id p && may_queue p.state) s.proposals)

unfoldable pub mark_proposal_queued : ℕ → ℕ → ℕ → ℕ → ℕ → GovernanceAction (Unit {0})
unfolding exec queue_row may_queue
mark_proposal_queued chain_id id operation executable_at at = do
  allowed ← gets (may_mark_queued chain_id id operation)
  if allowed
      then update_proposals (queue_row chain_id id operation executable_at at)
      else throw store_failed

unfoldable pub mark_proposal_executed : ℕ → ℕ → ℕ → GovernanceAction (Unit {0})
unfolding exec execute_row
mark_proposal_executed chain_id id at = update_proposals (execute_row chain_id id at)

unfoldable pub mark_proposal_dispatched : ℕ → ℕ → ℕ → GovernanceAction (Unit {0})
unfolding exec dispatch_row
mark_proposal_dispatched chain_id id at = update_proposals (dispatch_row chain_id id at)

unfoldable pub mark_proposal_cancelled : ℕ → ℕ → ℕ → GovernanceAction (Unit {0})
unfolding exec cancel_row
mark_proposal_cancelled chain_id id at = update_proposals (cancel_row chain_id id at)
