-- ===== src/Indexer/Governance.antt =====
-- internal/indexer/governance.go: the handler, over the statements of GovernanceTables.antt.
pub mod States
pub mod Tally
pub mod Consistency
use aegis_protocol.Base.{
  ℕ, zero, suc, ◌+◌, ◌-◌, ◌*◌, ◌/◌, ◌%◌, ◌^◌, ◌≤◌, ◌<◌, ◌≡◌, ◌≢◌, ◌↔◌, ◌⊎◌, refl, ap, sym, ◌∙◌,
  subst, inl, inr, Bool, true, false, not, ◌&&◌, ◌||◌, List, [], ◌∷◌, ◌++◌, map, Option, none, some,
  length, take, drop, replicate, get_or, any_of, count_if, keep_if, ltb, leb, ◌==◌, if◌then◌else◌,
  Text, codes, text_eq, text_lt, text_eq_refl, text_eq→eq, text_eq_iff, Result, ok, err, World,
  Action, ◌>>=◌, ◌>>◌, pure, throw, lift, gets, modify, exec, query, returning, exec_cases, quiet,
  All, Any, All-map, arith, Bool-cases, Option-cases, ==_iff, length-append, length-replicate,
  ltb→lt, ltb→ge, lt→ltb, leb→le,
}
use aegis_protocol.Indexer.Event.{
  Identity, Event, Filter, IndexError, resolve_failed, store_failed, foreign_key, identity_field,
  raw_field, bytes32_field, bytes_field, uint8_field, string_field, unix_field, hex_bytes32, low64,
}
use aegis_protocol.Indexer.Table.{insert_new, upsert}
use aegis_protocol.Indexer.Vault.{AssetMetadata, TokenMeta, same_asset}
use aegis_protocol.Indexer.GovernanceTables.{
  GovernorMetadata, ProposalState, Proposal, Vote, GovernanceState, GovernanceAction, same_governor,
  same_proposal, same_vote, is_proposal, tally, retally, insert_governance_proposal, with_vote,
  insert_governance_vote, may_queue, may_dispatch, may_execute, may_cancel, queue_row, dispatch_row,
  execute_row, cancel_row, update_proposals, mark_proposal_queued, mark_proposal_executed,
  mark_proposal_dispatched, mark_proposal_cancelled, pending, active, succeeded, queued, dispatched,
  executed, cancelled,
}

abbrev pub event_proposal_created : Text
event_proposal_created = codes "ProposalCreated"

abbrev pub event_vote_cast : Text
event_vote_cast = codes "VoteCast"

abbrev pub event_proposal_queued : Text
event_proposal_queued = codes "ProposalQueued"

abbrev pub event_proposal_executed : Text
event_proposal_executed = codes "ProposalExecuted"

abbrev pub event_proposal_dispatched : Text
event_proposal_dispatched = codes "ProposalDispatched"

abbrev pub event_proposal_cancelled : Text
event_proposal_cancelled = codes "ProposalCancelled"

-- The handler's fixed fields. `governor_metadata` is the vote token and the timelock.
pub record GovernanceHandler : Type 0 where
  pub contract : Identity
  pub chain_id : ℕ
  pub encode : Identity → Text
  pub token_metadata : Identity → Option TokenMeta
  pub governor_metadata : Option (Identity × Identity)

pub or_unresolved : {A : Type 0} → Option A → GovernanceAction A
or_unresolved none = throw resolve_failed
or_unresolved (some a) = pure a

module _ (h : GovernanceHandler) where
  -- `Filters`.
  unfoldable pub filters : List Filter
  filters =
      record {
        contract = h.contract;
        names =
            event_proposal_created ∷ event_vote_cast ∷ event_proposal_queued
            ∷ event_proposal_executed ∷ event_proposal_dispatched ∷ event_proposal_cancelled ∷ [];
      }
      ∷ []

  -- A scale above 38 is refused; the governor's foreign key is to the asset stored just before.
  pub record_governor : Identity → Identity → TokenMeta → GovernanceAction (Unit {0})
  unfolding exec
  record_governor token timelock meta =
      if not (leb meta.decimals 38) then throw store_failed else do
        exec store_failed (λ s. record s {
          assets =
              upsert same_asset
                (record {
                  chain_id = h.chain_id;
                  address = h.encode token;
                  decimals = meta.decimals;
                  symbol = meta.symbol;
                  name = meta.name;
                })
                s.assets;
        })
        exec store_failed (λ s. record s {
          governors =
              upsert same_governor
                (record {
                  chain_id = h.chain_id;
                  address = h.encode h.contract;
                  token_address = h.encode token;
                  timelock_address = h.encode timelock;
                })
                s.governors;
        })
        modify (λ s. record s { governor_set = true })

  pub resolve_governor : GovernanceAction (Unit {0})
  unfolding or_unresolved record_governor
  resolve_governor = do
    found ← or_unresolved h.governor_metadata
    meta ← or_unresolved (h.token_metadata found.0)
    record_governor found.0 found.1 meta

  -- `ensureGovernor`.
  ensure_governor : GovernanceAction (Unit {0})
  unfolding resolve_governor
  ensure_governor = do done ← gets (λ s. s.governor_set); if done then pure tt else resolve_governor

  handle_proposal_created : Event → GovernanceAction (Unit {0})
  unfolding ensure_governor insert_governance_proposal
  handle_proposal_created ev = do
    ensure_governor
    proposal_id ← lift (raw_field ev (codes "proposalId"))
    proposer ← lift (identity_field ev (codes "proposer"))
    target_chain_id ← lift (raw_field ev (codes "targetChainId"))
    target ← lift (bytes32_field ev (codes "target"))
    value ← lift (raw_field ev (codes "value"))
    payload ← lift (bytes_field ev (codes "payload"))
    vote_start ← lift (raw_field ev (codes "voteStart"))
    vote_end ← lift (raw_field ev (codes "voteEnd"))
    title ← lift (string_field ev (codes "title"))
    description ← lift (string_field ev (codes "description"))
    insert_governance_proposal (record {
      chain_id = ev.chain_id;
      governor_address = h.encode h.contract;
      proposal_id = proposal_id;
      proposer = h.encode proposer;
      title = title;
      description = description;
      target = hex_bytes32 target;
      target_chain_id = low64 target_chain_id;
      action_value = value;
      calldata = payload;
      vote_start = low64 vote_start;
      vote_end = low64 vote_end;
      tx_hash = ev.tx_hash;
      log_index = ev.log_index;
      block_number = ev.block_number;
      state = pending;
      votes_for = 0;
      votes_against = 0;
      votes_abstain = 0;
      operation_id = none;
      executable_at = none;
      queued_at = none;
      dispatched_at = none;
      executed_at = none;
      cancelled_at = none;
    })

  handle_vote_cast : Event → GovernanceAction (Unit {0})
  unfolding insert_governance_vote
  handle_vote_cast ev = do
    proposal_id ← lift (raw_field ev (codes "proposalId"))
    voter ← lift (identity_field ev (codes "voter"))
    support ← lift (uint8_field ev (codes "support"))
    weight ← lift (raw_field ev (codes "weight"))
    reason ← lift (string_field ev (codes "reason"))
    insert_governance_vote (record {
      chain_id = ev.chain_id;
      proposal_id = proposal_id;
      voter = h.encode voter;
      support = support;
      weight = weight;
      reason = reason;
      tx_hash = ev.tx_hash;
      log_index = ev.log_index;
      block_number = ev.block_number;
      voted_at = ev.block_time;
    })

  handle_queued : Event → GovernanceAction (Unit {0})
  unfolding mark_proposal_queued
  handle_queued ev = do
    proposal_id ← lift (raw_field ev (codes "proposalId"))
    operation_id ← lift (raw_field ev (codes "operationId"))
    executable_at ← lift (unix_field ev (codes "executableAt"))
    mark_proposal_queued ev.chain_id proposal_id operation_id executable_at ev.block_time

  handle_executed : Event → GovernanceAction (Unit {0})
  unfolding mark_proposal_executed
  handle_executed ev = do
    proposal_id ← lift (raw_field ev (codes "proposalId"))
    mark_proposal_executed ev.chain_id proposal_id ev.block_time

  handle_dispatched : Event → GovernanceAction (Unit {0})
  unfolding mark_proposal_dispatched
  handle_dispatched ev = do
    proposal_id ← lift (raw_field ev (codes "proposalId"))
    mark_proposal_dispatched ev.chain_id proposal_id ev.block_time

  handle_cancelled : Event → GovernanceAction (Unit {0})
  unfolding mark_proposal_cancelled
  handle_cancelled ev = do
    proposal_id ← lift (raw_field ev (codes "proposalId"))
    mark_proposal_cancelled ev.chain_id proposal_id ev.block_time

  -- The `switch` of `Handle`.
  pub by_name : Event → GovernanceAction (Unit {0})
  unfolding handle_proposal_created handle_vote_cast handle_queued handle_executed handle_dispatched
      handle_cancelled
  by_name ev =
      if text_eq ev.name event_proposal_created
      then handle_proposal_created ev
      else if text_eq ev.name event_vote_cast
      then handle_vote_cast ev
      else if text_eq ev.name event_proposal_queued
      then handle_queued ev
      else if text_eq ev.name event_proposal_executed
      then handle_executed ev
      else if text_eq ev.name event_proposal_dispatched
      then handle_dispatched ev
      else if text_eq ev.name event_proposal_cancelled
      then handle_cancelled ev
      else pure tt

  -- `Handle`.
  unfoldable pub handle : Event → GovernanceAction (Unit {0})
  unfolding by_name
  handle ev = if not (text_eq ev.contract h.contract) then pure tt else by_name ev
