-- ===== src/Indexer/Rounds.antt =====
-- internal/indexer/oracle.go: the handler of OracleRounds events, over the statements of
-- RoundTables.antt.
pub mod States
pub mod Replay
pub mod Feeds
pub mod Deliver
pub mod Submissions
pub mod Order
use aegis_protocol.Base.{
  ℕ, zero, suc, ◌+◌, ◌-◌, ◌*◌, ◌/◌, ◌%◌, ◌^◌, ◌≤◌, ◌<◌, ◌≡◌, ◌≢◌, ◌↔◌, ◌⊎◌, refl, ap, sym, ◌∙◌,
  subst, inl, inr, Bool, true, false, not, ◌&&◌, ◌||◌, List, [], ◌∷◌, ◌++◌, map, Option, none, some,
  length, take, drop, replicate, get_or, any_of, count_if, keep_if, ltb, leb, ◌==◌, if◌then◌else◌,
  Text, codes, text_eq, text_lt, text_eq_refl, text_eq→eq, text_eq_iff, Result, ok, err, World,
  Action, ◌>>=◌, ◌>>◌, pure, throw, lift, gets, modify, exec, query, returning, exec_cases, quiet,
  All, Any, All-map, arith, Bool-cases, Option-cases, ==_iff, length-append, length-replicate,
  ltb→lt, ltb→ge, lt→ltb, leb→le,
}
use aegis_protocol.Indexer.Event.{
  Identity, Event, Filter, IndexError, identity_field, raw_field, bytes32_field, bytes_field,
  uint8_field, string_field, unix_field, hex_bytes32,
}
use aegis_protocol.Indexer.RoundTables.{
  Feed, Round, Submission, RoundTables, RoundAction, opened, upsert_oracle_feed, ensure_oracle_feed,
  deactivate_oracle_feed, insert_oracle_round, insert_oracle_submission,
  mark_oracle_round_quorum_met, settle_oracle_round, fail_oracle_round,
}

abbrev pub fallback_feed_decimals : ℕ
fallback_feed_decimals = 18

abbrev pub event_feed_registered : Text
event_feed_registered = codes "FeedRegistered"

abbrev pub event_feed_deregistered : Text
event_feed_deregistered = codes "FeedDeregistered"

abbrev pub event_round_started : Text
event_round_started = codes "RoundStarted"

abbrev pub event_round_quorum_met : Text
event_round_quorum_met = codes "RoundQuorumMet"

abbrev pub event_round_settled : Text
event_round_settled = codes "RoundSettled"

abbrev pub event_round_failed : Text
event_round_failed = codes "RoundFailed"

abbrev pub event_submission : Text
event_submission = codes "SubmissionReceived"

pub record OracleRoundsHandler : Type 0 where
  pub contract : Identity
  pub encode : Identity → Text

-- `int32(n.Big().Int64())`, by its pattern.
abbrev pub low32 : ℕ → ℕ
low32 n = n % 4294967296

-- The row of a RoundStarted event with these fields.
abbrev pub started_round : Event → ℕ → Text → ℕ → ℕ → ℕ → ℕ → Round
started_round ev round_id feed opened_at deadline eligible version = record {
  chain_id = ev.chain_id;
  round_id = round_id;
  feed_id = feed;
  opened_at = opened_at;
  deadline = deadline;
  eligible_count = low32 eligible;
  node_set_version = version;
  tx_hash = ev.tx_hash;
  log_index = ev.log_index;
  block_number = ev.block_number;
  state = opened;
  submission_count = 0;
  aggregated_value = none;
  settled_at = none;
}

module _ (h : OracleRoundsHandler) where
  -- `Filters`.
  unfoldable pub filters : List Filter
  filters =
      record {
        contract = h.contract;
        names =
            event_feed_registered ∷ event_feed_deregistered ∷ event_round_started
            ∷ event_round_quorum_met ∷ event_round_settled ∷ event_round_failed ∷ event_submission
            ∷ [];
      }
      ∷ []

  handle_feed_registered : Event → RoundAction (Unit {0})
  unfolding upsert_oracle_feed
  handle_feed_registered ev = do
    feed_id ← lift (bytes32_field ev (codes "feedId"))
    name ← lift (string_field ev (codes "name"))
    decimals ← lift (uint8_field ev (codes "decimals"))
    upsert_oracle_feed (record {
      chain_id = ev.chain_id;
      feed_id = hex_bytes32 feed_id;
      name = name;
      decimals = decimals;
      active = true;
    })

  handle_feed_deregistered : Event → RoundAction (Unit {0})
  unfolding deactivate_oracle_feed
  handle_feed_deregistered ev = do
    feed_id ← lift (bytes32_field ev (codes "feedId"))
    deactivate_oracle_feed ev.chain_id (hex_bytes32 feed_id)

  handle_round_started : Event → RoundAction (Unit {0})
  unfolding ensure_oracle_feed insert_oracle_round
  handle_round_started ev = do
    round_id ← lift (raw_field ev (codes "roundId"))
    feed_id ← lift (bytes32_field ev (codes "feedId"))
    opened_at ← lift (unix_field ev (codes "openedAt"))
    deadline ← lift (unix_field ev (codes "deadline"))
    eligible ← lift (raw_field ev (codes "eligibleCount"))
    version ← lift (raw_field ev (codes "nodeSetVersion"))
    ensure_oracle_feed ev.chain_id (hex_bytes32 feed_id) fallback_feed_decimals
    insert_oracle_round
        (started_round ev round_id (hex_bytes32 feed_id) opened_at deadline eligible version)

  handle_quorum_met : Event → RoundAction (Unit {0})
  unfolding mark_oracle_round_quorum_met
  handle_quorum_met ev = do
    round_id ← lift (raw_field ev (codes "roundId"))
    count ← lift (raw_field ev (codes "submissionCount"))
    mark_oracle_round_quorum_met ev.chain_id round_id (low32 count)

  handle_settled : Event → RoundAction (Unit {0})
  unfolding settle_oracle_round
  handle_settled ev = do
    round_id ← lift (raw_field ev (codes "roundId"))
    value ← lift (raw_field ev (codes "aggregatedValue"))
    count ← lift (raw_field ev (codes "submissionCount"))
    settle_oracle_round ev.chain_id round_id value (low32 count) ev.block_time

  handle_failed : Event → RoundAction (Unit {0})
  unfolding fail_oracle_round
  handle_failed ev = do
    round_id ← lift (raw_field ev (codes "roundId"))
    count ← lift (raw_field ev (codes "submissionCount"))
    fail_oracle_round ev.chain_id round_id (low32 count) ev.block_time

  handle_submission : Event → RoundAction (Unit {0})
  unfolding insert_oracle_submission
  handle_submission ev = do
    round_id ← lift (raw_field ev (codes "roundId"))
    node ← lift (identity_field ev (codes "node"))
    value ← lift (raw_field ev (codes "value"))
    nonce ← lift (raw_field ev (codes "nonce"))
    signature ← lift (bytes_field ev (codes "signature"))
    insert_oracle_submission (record {
      chain_id = ev.chain_id;
      round_id = round_id;
      node = h.encode node;
      value = value;
      nonce = nonce;
      signature = signature;
      tx_hash = ev.tx_hash;
      log_index = ev.log_index;
      block_number = ev.block_number;
      submitted_at = ev.block_time;
    })

  -- The `switch` of `Handle`.
  pub round_event : Event → RoundAction (Unit {0})
  unfolding handle_feed_registered handle_feed_deregistered handle_round_started handle_quorum_met
      handle_settled handle_failed handle_submission
  round_event ev =
      if text_eq ev.name event_feed_registered
      then handle_feed_registered ev
      else if text_eq ev.name event_feed_deregistered
      then handle_feed_deregistered ev
      else if text_eq ev.name event_round_started
      then handle_round_started ev
      else if text_eq ev.name event_round_quorum_met
      then handle_quorum_met ev
      else if text_eq ev.name event_round_settled
      then handle_settled ev
      else if text_eq ev.name event_round_failed
      then handle_failed ev
      else if text_eq ev.name event_submission
      then handle_submission ev
      else pure tt

  -- `Handle`.
  unfoldable pub handle : Event → RoundAction (Unit {0})
  unfolding round_event
  handle ev = if not (text_eq ev.contract h.contract) then pure tt else round_event ev
