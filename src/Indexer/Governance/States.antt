-- ===== src/Indexer/Governance/States.antt =====
-- The states of the proposal rows of internal/indexer/governance.go, from one delivery to the next.
use aegis_protocol.Base.{
  ℕ, ◌≡◌, refl, ◌∙◌, inl, inr, Bool, true, false, List, [], ◌∷◌, ◌++◌, map, any_of, World, exec,
  exec_cases, arith, Bool-cases,
}
use aegis_protocol.Indexer.Event.{Event, store_failed}
use aegis_protocol.Indexer.Table.{insert_new}
use aegis_protocol.Indexer.GovernanceTables.{
  Proposal, ProposalState, Vote, GovernanceState, pending, active, succeeded, queued, dispatched,
  executed, cancelled, same_proposal, retally, with_vote, update_proposals, queue_row, dispatch_row,
  execute_row, cancel_row, mark_proposal_queued, mark_proposal_dispatched, mark_proposal_executed,
  mark_proposal_cancelled, insert_governance_proposal, may_insert_proposal,
}
use aegis_protocol.Indexer.Governance.{
  GovernanceHandler, handle_proposal_created, handle_vote_cast, handle_queued, handle_executed,
  handle_dispatched, handle_cancelled, by_name, handle, ensure_governor, resolve_governor,
  record_governor, or_unresolved,
}

-- Which state may stand where another stood before: executed and cancelled are final, a dispatched
-- proposal never returns to the queue, and a queued one never to the vote.
abbrev pub reaches : ProposalState → ProposalState → Bool
reaches executed executed = true
reaches executed _ = false
reaches cancelled cancelled = true
reaches cancelled _ = false
reaches _ executed = true
reaches _ cancelled = true
reaches dispatched dispatched = true
reaches dispatched _ = false
reaches _ dispatched = true
reaches queued queued = true
reaches queued _ = false
reaches _ queued = true
reaches pending pending = true
reaches active active = true
reaches succeeded succeeded = true
reaches _ _ = false

-- What later rows say of the same proposals: the same keys in the same places, states that may
-- follow, and perhaps more rows behind.
abbrev pub Follows : List Proposal → List Proposal → Type 0
Follows [] later = Unit
Follows (p ∷ before) [] = ⊥
Follows (p ∷ before) (q ∷ later) =
    (q.chain_id ≡ p.chain_id)
    × (q.proposal_id ≡ p.proposal_id)
    × (reaches p.state q.state ≡ true)
    × Follows before later

reaches_refl : (a : ProposalState) → reaches a a ≡ true
reaches_refl a = ground arith

reaches_trans :
    (a b c : ProposalState) → reaches a b ≡ true → reaches b c ≡ true → reaches a c ≡ true
reaches_trans a b c h k = ground arith

pub Follows-refl : (rows : List Proposal) → Follows rows rows
Follows-refl [] = tt
Follows-refl (p ∷ rows) = (refl, refl, reaches_refl p.state, Follows-refl rows)

-- A change of a row that a proposal may undergo.
abbrev Steps : (Proposal → Proposal) → Type 0
Steps f =
    (p : Proposal)
    → ((f p).chain_id ≡ p.chain_id)
      × ((f p).proposal_id ≡ p.proposal_id)
      × (reaches p.state (f p).state ≡ true)

Follows-map :
    (f : Proposal → Proposal) (before rows : List Proposal)
    → Steps f
    → Follows before rows
    → Follows before (map f rows)
Follows-map f [] rows st h = tt
Follows-map f (p ∷ before) [] st h = h
Follows-map f (p ∷ before) (q ∷ rows) st h = (
  (st q).0 ∙ h.0,
  (st q).1 ∙ h.1,
  reaches_trans p.state q.state (f q).state h.2 (st q).2,
  Follows-map f before rows st h.3,
)

Follows-more :
    (before rows more : List Proposal) → Follows before rows → Follows before (rows ++ more)
Follows-more [] rows more h = tt
Follows-more (p ∷ before) [] more h = absurd h
Follows-more (p ∷ before) (q ∷ rows) more h = (h.0, h.1, h.2, Follows-more before rows more h.3)

Follows-insert_new :
    (p : Proposal) (before rows : List Proposal)
    → Follows before rows
    → Follows before (insert_new same_proposal p rows)
unfolding insert_new
Follows-insert_new p before rows h = elim (Bool-cases (any_of (same_proposal p) rows)) [
  | inl e ↦ rw e h
  | inr e ↦ rw e (Follows-more before rows (p ∷ []) h)
]

queue_row-Steps : (c i o e t : ℕ) → Steps (queue_row c i o e t)
unfolding queue_row
queue_row-Steps c i o e t p = ground arith

dispatch_row-Steps : (c i t : ℕ) → Steps (dispatch_row c i t)
unfolding dispatch_row
dispatch_row-Steps c i t p = ground arith

execute_row-Steps : (c i t : ℕ) → Steps (execute_row c i t)
unfolding execute_row
execute_row-Steps c i t p = ground arith

cancel_row-Steps : (c i t : ℕ) → Steps (cancel_row c i t)
unfolding cancel_row
cancel_row-Steps c i t p = ground arith

retally-Steps : (c i : ℕ) (votes : List Vote) → Steps (retally c i votes)
unfolding retally
retally-Steps c i votes p = ground (arith, reaches_refl p.state)

module _ (before : List Proposal) where
  abbrev Later : World GovernanceState → Type 0
  Later w = Follows before w.state.proposals

  update_Later :
      (f : Proposal → Proposal) (w : World GovernanceState)
      → Steps f
      → Later w
      → Later (update_proposals f w).1
  update_Later f w st h =
      exec_cases (λ s. Follows before s.proposals) store_failed _ w h
        (Follows-map f before w.state.proposals st h)

  queued_Later :
      (c i o e t : ℕ) (w : World GovernanceState)
      → Later w
      → Later (mark_proposal_queued c i o e t w).1
  unfolding mark_proposal_queued
  queued_Later c i o e t w h =
      ground (arith, update_Later (queue_row c i o e t) w (queue_row-Steps c i o e t) h)

  dispatched_Later :
      (c i t : ℕ) (w : World GovernanceState) → Later w → Later (mark_proposal_dispatched c i t w).1
  unfolding mark_proposal_dispatched
  dispatched_Later c i t w = update_Later (dispatch_row c i t) w (dispatch_row-Steps c i t)

  executed_Later :
      (c i t : ℕ) (w : World GovernanceState) → Later w → Later (mark_proposal_executed c i t w).1
  unfolding mark_proposal_executed
  executed_Later c i t w = update_Later (execute_row c i t) w (execute_row-Steps c i t)

  cancelled_Later :
      (c i t : ℕ) (w : World GovernanceState) → Later w → Later (mark_proposal_cancelled c i t w).1
  unfolding mark_proposal_cancelled
  cancelled_Later c i t w = update_Later (cancel_row c i t) w (cancel_row-Steps c i t)

  insert_Later :
      (p : Proposal) (w : World GovernanceState)
      → Later w
      → Later (insert_governance_proposal p w).1
  unfolding insert_governance_proposal
  insert_Later p w h = elim (Bool-cases (may_insert_proposal p w.state)) [
    | inl a ↦ rw a (
        exec_cases (λ s. Follows before s.proposals) store_failed _ w h
          (Follows-insert_new p before w.state.proposals h))
    | inr a ↦ rw a h
  ]

  retally_Later :
      (c i : ℕ) (votes : List Vote) (rows : List Proposal)
      → Follows before rows
      → Follows before (map (retally c i votes) rows)
  retally_Later c i votes rows h =
      Follows-map (retally c i votes) before rows (retally-Steps c i votes) h

  module _ (g : GovernanceHandler) (ev : Event) (w : World GovernanceState) where
    governor_Later : Later w → Later (ensure_governor g w).1
    unfolding ensure_governor resolve_governor record_governor or_unresolved exec
    governor_Later h = ground arith

    handle_queued-Later : Later w → Later (handle_queued g ev w).1
    unfolding handle_queued
    handle_queued-Later h = grind (arith, queued_Later)

    handle_executed-Later : Later w → Later (handle_executed g ev w).1
    unfolding handle_executed
    handle_executed-Later h = grind (arith, executed_Later)

    handle_dispatched-Later : Later w → Later (handle_dispatched g ev w).1
    unfolding handle_dispatched
    handle_dispatched-Later h = grind (arith, dispatched_Later)

    handle_cancelled-Later : Later w → Later (handle_cancelled g ev w).1
    unfolding handle_cancelled
    handle_cancelled-Later h = grind (arith, cancelled_Later)

    handle_vote_cast-Later : Later w → Later (handle_vote_cast g ev w).1
    unfolding handle_vote_cast with_vote
    handle_vote_cast-Later h = grind (arith, retally_Later)

    handle_proposal_created-Later : Later w → Later (handle_proposal_created g ev w).1
    unfolding handle_proposal_created
    handle_proposal_created-Later h = grind (arith, insert_Later, governor_Later h)

    handle-Later : Later w → Later (handle g ev w).1
    unfolding handle by_name
    handle-Later h = ground (
      arith,
      handle_proposal_created-Later h,
      handle_vote_cast-Later h,
      handle_queued-Later h,
      handle_executed-Later h,
      handle_dispatched-Later h,
      handle_cancelled-Later h,
    )

-- The handler over a sequence of deliveries, in any order, repeated or not.
unfoldable pub deliver :
    GovernanceHandler → List Event → World GovernanceState → World GovernanceState
deliver g [] w = w
deliver g (ev ∷ events) w = deliver g events (handle g ev w).1

deliver-Later :
    (before : List Proposal) (g : GovernanceHandler) (events : List Event)
    (w : World GovernanceState)
    → Follows before w.state.proposals
    → Follows before (deliver g events w).state.proposals
unfolding deliver
deliver-Later before g [] w h = h
deliver-Later before g (ev ∷ events) w h =
    deliver-Later before g events (handle g ev w).1 (handle-Later before g ev w h)

-- Whatever events are delivered, in whatever order and however often, and whatever fails, every
-- proposal row stays, with its key, in a state that may follow the one it had: nothing leaves
-- executed or cancelled, returns from dispatched to queued, or from queued to the vote.
pub deliver-Follows :
    (g : GovernanceHandler) (events : List Event) (w : World GovernanceState)
    → Follows w.state.proposals (deliver g events w).state.proposals
deliver-Follows g events w =
    deliver-Later w.state.proposals g events w (Follows-refl w.state.proposals)
