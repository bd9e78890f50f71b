-- ===== src/Indexer/Governance/Consistency.antt =====
-- The handlers of internal/indexer/governance.go and the consistency of proposals and votes.
use aegis_protocol.Base.{
  ℕ, ◌≡◌, sym, true, List, [], ◌∷◌, map, any_of, World, exec, exec_cases, arith,
}
use aegis_protocol.Indexer.Event.{Event, store_failed}
use aegis_protocol.Indexer.Table.{insert_new}
use aegis_protocol.Indexer.GovernanceTables.{
  Proposal, Vote, GovernanceState, same_vote, retally, with_vote, queue_row, dispatch_row,
  execute_row, cancel_row, is_proposal, update_proposals, mark_proposal_queued,
  mark_proposal_dispatched, mark_proposal_executed, mark_proposal_cancelled,
}
use aegis_protocol.Indexer.Governance.{
  GovernanceHandler, handle_proposal_created, handle_vote_cast, handle_queued, handle_executed,
  handle_dispatched, handle_cancelled, by_name, handle, ensure_governor, resolve_governor,
  record_governor, or_unresolved,
}
use aegis_protocol.Indexer.Governance.States.{deliver}
use aegis_protocol.Indexer.Governance.Tally.{
  IsConsistent, SparesTally, map-IsConsistent, insert-IsConsistent, vote-IsConsistent,
}

queue_row-SparesTally : (c i o e t : ℕ) → SparesTally (queue_row c i o e t)
unfolding queue_row
queue_row-SparesTally c i o e t p = ground arith

dispatch_row-SparesTally : (c i t : ℕ) → SparesTally (dispatch_row c i t)
unfolding dispatch_row
dispatch_row-SparesTally c i t p = ground arith

execute_row-SparesTally : (c i t : ℕ) → SparesTally (execute_row c i t)
unfolding execute_row
execute_row-SparesTally c i t p = ground arith

cancel_row-SparesTally : (c i t : ℕ) → SparesTally (cancel_row c i t)
unfolding cancel_row
cancel_row-SparesTally c i t p = ground arith

abbrev pub Sound : World GovernanceState → Type 0
Sound w = IsConsistent w.state.proposals w.state.votes

update_Sound :
    (f : Proposal → Proposal) (w : World GovernanceState)
    → SparesTally f
    → Sound w
    → Sound (update_proposals f w).1
update_Sound f w st h =
    exec_cases (λ s. IsConsistent s.proposals s.votes) store_failed _ w h
      (map-IsConsistent f w.state.proposals w.state.votes st h)

queued_Sound :
    (c i o e t : ℕ) (w : World GovernanceState)
    → Sound w
    → Sound (mark_proposal_queued c i o e t w).1
unfolding mark_proposal_queued
queued_Sound c i o e t w h =
    ground (arith, update_Sound (queue_row c i o e t) w (queue_row-SparesTally c i o e t) h)

dispatched_Sound :
    (c i t : ℕ) (w : World GovernanceState) → Sound w → Sound (mark_proposal_dispatched c i t w).1
unfolding mark_proposal_dispatched
dispatched_Sound c i t w = update_Sound (dispatch_row c i t) w (dispatch_row-SparesTally c i t)

executed_Sound :
    (c i t : ℕ) (w : World GovernanceState) → Sound w → Sound (mark_proposal_executed c i t w).1
unfolding mark_proposal_executed
executed_Sound c i t w = update_Sound (execute_row c i t) w (execute_row-SparesTally c i t)

cancelled_Sound :
    (c i t : ℕ) (w : World GovernanceState) → Sound w → Sound (mark_proposal_cancelled c i t w).1
unfolding mark_proposal_cancelled
cancelled_Sound c i t w = update_Sound (cancel_row c i t) w (cancel_row-SparesTally c i t)

vote_on :
    (c i : ℕ) (v : Vote) (rows : List Proposal) (votes : List Vote)
    → c ≡ v.chain_id
    → i ≡ v.proposal_id
    → any_of (is_proposal c i) rows ≡ true
    → IsConsistent rows votes
    → IsConsistent
        (map (retally c i (insert_new same_vote v votes)) rows)
        (insert_new same_vote v votes)
vote_on c i v rows votes ec ei k h =
    rw (ec, ei) (vote-IsConsistent v rows votes (rw (sym ec, sym ei) k) h)

module _ (g : GovernanceHandler) (ev : Event) (w : World GovernanceState) where
  governor_Sound : Sound w → Sound (ensure_governor g w).1
  unfolding ensure_governor resolve_governor record_governor or_unresolved exec
  governor_Sound h = ground arith

  handle_queued-Sound : Sound w → Sound (handle_queued g ev w).1
  unfolding handle_queued
  handle_queued-Sound h = grind (arith, queued_Sound)

  handle_executed-Sound : Sound w → Sound (handle_executed g ev w).1
  unfolding handle_executed
  handle_executed-Sound h = grind (arith, executed_Sound)

  handle_dispatched-Sound : Sound w → Sound (handle_dispatched g ev w).1
  unfolding handle_dispatched
  handle_dispatched-Sound h = grind (arith, dispatched_Sound)

  handle_cancelled-Sound : Sound w → Sound (handle_cancelled g ev w).1
  unfolding handle_cancelled
  handle_cancelled-Sound h = grind (arith, cancelled_Sound)

  handle_vote_cast-Sound : Sound w → Sound (handle_vote_cast g ev w).1
  unfolding handle_vote_cast with_vote
  handle_vote_cast-Sound h = grind (arith, vote_on)

  handle_proposal_created-Sound : Sound w → Sound (handle_proposal_created g ev w).1
  unfolding handle_proposal_created
  handle_proposal_created-Sound h = grind (arith, insert-IsConsistent, governor_Sound h)

  handle-Sound : Sound w → Sound (handle g ev w).1
  unfolding handle by_name
  handle-Sound h = ground (
    arith,
    handle_proposal_created-Sound h,
    handle_vote_cast-Sound h,
    handle_queued-Sound h,
    handle_executed-Sound h,
    handle_dispatched-Sound h,
    handle_cancelled-Sound h,
  )

-- Whatever events are delivered and whatever fails, if every row's tallies are the sums of the
-- stored votes for, against and in abstention, and every vote's proposal has a row, then both stay
-- so: a repeated vote, a vote before its proposal and a failed retally change no tally.
pub deliver-Sound :
    (g : GovernanceHandler) (events : List Event) (w : World GovernanceState)
    → Sound w
    → Sound (deliver g events w)
unfolding deliver
deliver-Sound g [] w h = h
deliver-Sound g (ev ∷ events) w h = deliver-Sound g events (handle g ev w).1 (handle-Sound g ev w h)
