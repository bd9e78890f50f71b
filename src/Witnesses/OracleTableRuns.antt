-- ===== src/Witnesses/OracleTableRuns.antt =====
-- The theorems on the oracle's rounds and staking handlers at concrete inputs.
use aegis_protocol.Base.{
  ℕ, ◌≡◌, refl, true, false, ◌&&◌, ◌||◌, List, [], ◌∷◌, map, Option, none, some, any_of, ltb, leb,
  Text, codes, text_eq, ok, quiet, arith,
}
use aegis_protocol.Indexer.Event.{
  Event, Field, Identity, identity, bytes32, string, big_int, uint8, identity_field, raw_field,
  bytes32_field,
}
use aegis_protocol.Indexer.Grown.{Grown}
use aegis_protocol.Indexer.RoundTables.{
  Round, Submission, RoundTables, RoundState, quorum_met, settled,
}
use aegis_protocol.Indexer.Rounds.{OracleRoundsHandler, event_round_settled, event_feed_registered}
use aegis_protocol.Indexer.Rounds.Deliver
use aegis_protocol.Indexer.Rounds.States.{RoundStep, deliver-RoundStep}
use aegis_protocol.Indexer.Rounds.Feeds.{SameScale, deliver-SameScale}
use aegis_protocol.Indexer.Rounds.Submissions.{IsOrderly, orderly}
use aegis_protocol.Indexer.Rounds.Order.{deliver-IsOrderly}
use aegis_protocol.Indexer.StakingTables.{StakingState, Deactivation, Slash, close_interval}
use aegis_protocol.Indexer.Staking.{
  OracleStakingHandler, event_node_deactivated, event_node_slashed, slash_of,
}
use aegis_protocol.Indexer.Staking
use aegis_protocol.Indexer.Staking.Deliver.{deliver}
use aegis_protocol.Indexer.Staking.History.{IntervalStep, deliver-IntervalStep}
use aegis_protocol.Indexer.Staking.Replay.{staking_handle-replay}
use aegis_protocol.Indexer.Staking.Slashes.{IsSlash, add_slashed, handle-adds_again}
use aegis_protocol.Indexer.Staking.Intervals.{
  began_since, open_interval, is_expected, open-close-is_expected,
}

abbrev oracle : Identity
oracle = codes "oracle"

abbrev event : Text → List (Text × Field) → Event
event name payload = record {
  chain_id = 1;
  block_number = 9;
  block_time = 2000;
  tx_hash = codes "0x02";
  log_index = 3;
  contract = oracle;
  name = name;
  payload = payload;
}

abbrev rounds_handler : OracleRoundsHandler
rounds_handler = record { contract = oracle; encode = λ i. i }

abbrev round : ℕ → RoundState → Option ℕ → Option ℕ → Round
round id state value at = record {
  chain_id = 1;
  round_id = id;
  feed_id = codes "0x0a";
  opened_at = 100;
  deadline = 400;
  eligible_count = 3;
  node_set_version = 5;
  tx_hash = codes "0x01";
  log_index = id;
  block_number = 4;
  state = state;
  submission_count = 2;
  aggregated_value = value;
  settled_at = at;
}

abbrev submission : Submission
submission = record {
  chain_id = 1;
  round_id = 2;
  node = codes "alice";
  value = 40;
  nonce = 1;
  signature = [];
  tx_hash = codes "0x01";
  log_index = 7;
  block_number = 5;
  submitted_at = 150;
}

abbrev tables : RoundTables
tables = record {
  feeds =
      record {
        chain_id = 1;
        feed_id = codes "0x0a";
        name = codes "0x0a";
        decimals = 18;
        active = true;
      }
      ∷ [];
  rounds = round 1 settled (some 41) (some 300) ∷ round 2 quorum_met none none ∷ [];
  submissions = submission ∷ [];
}

-- Both rounds are said to be settled at another value, and the feed to have 8 decimals.
abbrev deliveries : List Event
deliveries =
    event event_round_settled (
      (codes "roundId", big_int 1)
      ∷ (codes "aggregatedValue", big_int 99)
      ∷ (codes "submissionCount", big_int 2)
      ∷ [])
    ∷ event event_round_settled (
        (codes "roundId", big_int 2)
        ∷ (codes "aggregatedValue", big_int 40)
        ∷ (codes "submissionCount", big_int 1)
        ∷ [])
    ∷ event event_feed_registered (
        (codes "feedId", bytes32 (10 ∷ []))
        ∷ (codes "name", string (codes "ETH/USD"))
        ∷ (codes "decimals", uint8 8)
        ∷ [])
    ∷ []

deliver-RoundStep_example :
    Grown RoundStep tables.rounds
      (Deliver.deliver rounds_handler deliveries (quiet tables)).state.rounds
deliver-RoundStep_example = deliver-RoundStep rounds_handler deliveries (quiet tables)

deliver-SameScale_example :
    Grown SameScale tables.feeds
      (Deliver.deliver rounds_handler deliveries (quiet tables)).state.feeds
deliver-SameScale_example = deliver-SameScale rounds_handler deliveries (quiet tables)

deliver-IsOrderly_example :
    IsOrderly (Deliver.deliver rounds_handler deliveries (quiet tables)).state
deliver-IsOrderly_example =
    deliver-IsOrderly rounds_handler deliveries (quiet tables)
      (orderly refl (refl, (refl, tt)) refl (refl, tt))

abbrev staking_handler : OracleStakingHandler
staking_handler = record {
  contract = oracle;
  stake_asset = codes "usdc";
  encode = λ i. i;
  token_metadata = some (record { decimals = 6; symbol = codes "USDC"; name = codes "USD Coin" });
  chain_id = 1;
}

abbrev staked : StakingState
staked = record {
  assets = [];
  nodes =
      record {
        chain_id = 1;
        address = codes "alice";
        stake_asset = codes "usdc";
        staked_amount = 1000;
        slashed_total = 0;
        pending_unstake = 0;
        claimable_at = none;
        active = true;
        registered_at = 50;
      }
      ∷ [];
  slashings = [];
  intervals =
      record {
        chain_id = 1;
        node = codes "alice";
        activated_version = 2;
        activated_at = 50;
        deactivated = none;
      }
      ∷ [];
  asset_saved = true;
}

abbrev deactivation : Event
deactivation = event event_node_deactivated (
    (codes "node", identity (codes "alice"))
    ∷ (codes "nodeSetVersion", big_int 6)
    ∷ (codes "reason", bytes32 (codes "MANUAL"))
    ∷ [])

deactivation_handled : (Staking.handle staking_handler deactivation (quiet staked)).0 ≡ ok tt
unfolding Staking.handle text_eq identity_field raw_field bytes32_field
deactivation_handled = refl

other_event : text_eq event_node_deactivated event_node_slashed ≡ false
unfolding text_eq
other_event = refl

staking_handle-replay_example :
    let s = (Staking.handle staking_handler deactivation (quiet staked)).1.state in
    Staking.handle staking_handler deactivation (quiet s) ≡ (ok tt, quiet s)
staking_handle-replay_example =
    staking_handle-replay staking_handler deactivation staked other_event deactivation_handled

abbrev slashing : Event
slashing = event event_node_slashed (
    (codes "node", identity (codes "alice"))
    ∷ (codes "amount", big_int 50)
    ∷ (codes "remainingStake", big_int 950)
    ∷ (codes "reason", bytes32 (codes "MISSED"))
    ∷ (codes "roundId", big_int 4)
    ∷ [])

abbrev slash : Slash
slash = slash_of slashing (codes "alice") 50 950 (codes "MISSED") 4

slashing_read : IsSlash staking_handler slashing slash
unfolding text_eq identity_field raw_field bytes32_field
slashing_read = record {
  node = codes "alice";
  reason = codes "MISSED";
  contract_is = refl;
  name_is = refl;
  node_is = refl;
  amount_is = refl;
  remaining_is = refl;
  reason_is = refl;
  round_is = refl;
  slash_is = refl;
}

slashing_handled : (Staking.handle staking_handler slashing (quiet staked)).0 ≡ ok tt
unfolding Staking.handle text_eq identity_field raw_field bytes32_field
slashing_handled = refl

handle-adds_again_example :
    let s = (Staking.handle staking_handler slashing (quiet staked)).1.state in
    Staking.handle staking_handler slashing (quiet s)
    ≡ (ok tt, quiet (record s { nodes = map (add_slashed 1 (codes "alice") 50) s.nodes }))
handle-adds_again_example =
    handle-adds_again staking_handler slashing slash staked slashing_read slashing_handled

abbrev removal : Deactivation
removal = record { version = 9; at = 500; reason = codes "MANUAL" }

began_earlier : any_of (began_since 1 (codes "alice") 7) staked.intervals ≡ false
unfolding text_eq
began_earlier = refl

open-close-is_expected_example :
    is_expected 1
      (codes "alice")
      8
      (close_interval 1
        (codes "alice")
        removal
        (open_interval 1 (codes "alice") 7 400 staked.intervals)).1
    ≡ is_expected 1 (codes "alice") 8 staked.intervals || (leb 7 8 && ltb 8 9)
open-close-is_expected_example =
    open-close-is_expected 1 (codes "alice") 7 400 8 removal staked.intervals (omega arith)
      began_earlier

deliver-IntervalStep_example :
    Grown IntervalStep staked.intervals
      (deliver staking_handler (deactivation ∷ slashing ∷ []) (quiet staked)).state.intervals
deliver-IntervalStep_example =
    deliver-IntervalStep staking_handler (deactivation ∷ slashing ∷ []) (quiet staked)
