-- ===== src/Indexer/Staking/Deliver.antt =====
-- What the staking handler (internal/indexer/oracle_staking.go) keeps of the intervals when the two
-- statements on them keep it.
use aegis_protocol.Base.{ℕ, ◌≡◌, List, [], ◌∷◌, Text, World, exec, arith}
use aegis_protocol.Indexer.Event.{Event}
use aegis_protocol.Indexer.StakingTables.{
  Interval, Deactivation, Slash, StakingState, upsert_oracle_node, set_oracle_node_stake,
  set_oracle_node_unstake, set_oracle_node_active, open_oracle_node_interval,
  close_oracle_node_interval, upsert_asset,
}
use aegis_protocol.Indexer.SlashTables.{record_oracle_slash}
use aegis_protocol.Indexer.Staking.{
  OracleStakingHandler, handle_registered, handle_staked, handle_unstake_requested,
  handle_unstake_cancelled, handle_unstaked, handle_slashed, handle_deactivated, handle_reactivated,
  staking_event, handle, on_staking,
}

-- A property of the intervals that both statements keep, whether they fail or not.
pub record KeepsIntervals (P : List Interval → Type 0) : Type 0 where
  pub open_kept :
      (c : ℕ) (a : Text) (v t : ℕ) (w : World StakingState)
      → P w.state.intervals
      → P (open_oracle_node_interval c a v t w).1.state.intervals
  pub close_kept :
      (c : ℕ) (a : Text) (d : Deactivation) (w : World StakingState)
      → P w.state.intervals
      → P (close_oracle_node_interval c a d w).1.state.intervals

-- The handler over a sequence of deliveries, in any order, repeated or not.
unfoldable pub deliver : OracleStakingHandler → List Event → World StakingState → World StakingState
deliver g [] w = w
deliver g (ev ∷ events) w = deliver g events (handle g ev w).1

slash_intervals :
    (sl : Slash) (w : World StakingState)
    → (record_oracle_slash sl w).1.state.intervals ≡ w.state.intervals
unfolding record_oracle_slash exec
slash_intervals sl w = grind arith

module _ (P : List Interval → Type 0) (k : KeepsIntervals P) (g : OracleStakingHandler) where
  module _ (ev : Event) (a : Text) (w : World StakingState) (h : P w.state.intervals) where
    registered_kept : P (handle_registered g ev a w).1.state.intervals
    unfolding handle_registered upsert_oracle_node upsert_asset exec
    registered_kept = grind arith

    staked_kept : P (handle_staked ev a w).1.state.intervals
    unfolding handle_staked set_oracle_node_stake exec
    staked_kept = grind arith

    unstake_requested_kept : P (handle_unstake_requested ev a w).1.state.intervals
    unfolding handle_unstake_requested set_oracle_node_unstake exec
    unstake_requested_kept = grind arith

    unstake_cancelled_kept : P (handle_unstake_cancelled ev a w).1.state.intervals
    unfolding handle_unstake_cancelled set_oracle_node_unstake exec
    unstake_cancelled_kept = grind arith

    unstaked_kept : P (handle_unstaked ev a w).1.state.intervals
    unfolding handle_unstaked set_oracle_node_unstake set_oracle_node_stake exec
    unstaked_kept = grind arith

    slashed_kept : P (handle_slashed ev a w).1.state.intervals
    unfolding handle_slashed
    slashed_kept = grind (arith, slash_intervals)

    deactivated_kept : P (handle_deactivated ev a w).1.state.intervals
    unfolding handle_deactivated set_oracle_node_active exec
    deactivated_kept = grind (arith, k.close_kept)

    reactivated_kept : P (handle_reactivated ev a w).1.state.intervals
    unfolding handle_reactivated set_oracle_node_active exec
    reactivated_kept = grind (arith, k.open_kept)

    event_kept : P (staking_event g ev a w).1.state.intervals
    unfolding staking_event
    event_kept = ground (
      arith, registered_kept, staked_kept, unstake_requested_kept, unstake_cancelled_kept,
      unstaked_kept, slashed_kept, deactivated_kept, reactivated_kept,
    )

  handle_kept :
      (ev : Event) (w : World StakingState)
      → P w.state.intervals
      → P (handle g ev w).1.state.intervals
  unfolding handle on_staking
  handle_kept ev w h = grind (arith, event_kept)

  pub deliver_kept :
      (events : List Event) (w : World StakingState)
      → P w.state.intervals
      → P (deliver g events w).state.intervals
  unfolding deliver
  deliver_kept [] w h = h
  deliver_kept (ev ∷ events) w h = deliver_kept events (handle g ev w).1 (handle_kept ev w h)
