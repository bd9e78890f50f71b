-- ===== src/Indexer/Rounds/Deliver.antt =====
-- What the rounds handler (internal/indexer/oracle.go) keeps when each of its statements keeps it.
use aegis_protocol.Base.{ℕ, ◌≡◌, List, [], ◌∷◌, none, Text, World, Keeps, arith}
use aegis_protocol.Indexer.Event.{Event}
use aegis_protocol.Indexer.RoundTables.{
  Feed, Round, Submission, RoundTables, opened, upsert_oracle_feed, ensure_oracle_feed,
  deactivate_oracle_feed, insert_oracle_round, insert_oracle_submission,
  mark_oracle_round_quorum_met, settle_oracle_round, fail_oracle_round,
}
use aegis_protocol.Indexer.Rounds.{
  OracleRoundsHandler, handle_feed_registered, handle_feed_deregistered, handle_round_started,
  handle_quorum_met, handle_settled, handle_failed, handle_submission, round_event, handle,
}

-- A property of the tables that every statement of the handler keeps, whether it fails or not.
pub record IsKept (P : RoundTables → Type 0) : Type 0 where
  pub upsert_kept : (f : Feed) → Keeps P (upsert_oracle_feed f)
  pub ensure_kept : (c : ℕ) (i : Text) (d : ℕ) → Keeps P (ensure_oracle_feed c i d)
  pub deactivate_kept : (c : ℕ) (i : Text) → Keeps P (deactivate_oracle_feed c i)
  pub insert_kept :
      (r : Round)
      → r.state ≡ opened
      → r.aggregated_value ≡ none
      → r.settled_at ≡ none
      → Keeps P (insert_oracle_round r)
  pub quorum_kept : (c i n : ℕ) → Keeps P (mark_oracle_round_quorum_met c i n)
  pub settle_kept : (c i v n t : ℕ) → Keeps P (settle_oracle_round c i v n t)
  pub fail_kept : (c i n t : ℕ) → Keeps P (fail_oracle_round c i n t)
  pub submission_kept : (sub : Submission) → Keeps P (insert_oracle_submission sub)

-- The handler over a sequence of deliveries, in any order, repeated or not.
unfoldable pub deliver : OracleRoundsHandler → List Event → World RoundTables → World RoundTables
deliver g [] w = w
deliver g (ev ∷ events) w = deliver g events (handle g ev w).1

module _ (P : RoundTables → Type 0) (k : IsKept P) (g : OracleRoundsHandler) where
  module _ (ev : Event) (w : World RoundTables) (h : P w.state) where
    registered_kept : P (handle_feed_registered g ev w).1.state
    unfolding handle_feed_registered
    registered_kept = grind (arith, k.upsert_kept)

    deregistered_kept : P (handle_feed_deregistered g ev w).1.state
    unfolding handle_feed_deregistered
    deregistered_kept = grind (arith, k.deactivate_kept)

    started_kept : P (handle_round_started g ev w).1.state
    unfolding handle_round_started
    started_kept = grind (arith, k.ensure_kept, k.insert_kept)

    met_kept : P (handle_quorum_met g ev w).1.state
    unfolding handle_quorum_met
    met_kept = grind (arith, k.quorum_kept)

    settled_kept : P (handle_settled g ev w).1.state
    unfolding handle_settled
    settled_kept = grind (arith, k.settle_kept)

    failed_kept : P (handle_failed g ev w).1.state
    unfolding handle_failed
    failed_kept = grind (arith, k.fail_kept)

    submitted_kept : P (handle_submission g ev w).1.state
    unfolding handle_submission
    submitted_kept = grind (arith, k.submission_kept)

    handle_kept : P (handle g ev w).1.state
    unfolding handle round_event
    handle_kept = ground (
      arith, registered_kept, deregistered_kept, started_kept, met_kept, settled_kept, failed_kept,
      submitted_kept,
    )

  pub deliver_kept :
      (events : List Event) (w : World RoundTables) → P w.state → P (deliver g events w).state
  unfolding deliver
  deliver_kept [] w h = h
  deliver_kept (ev ∷ events) w h = deliver_kept events (handle g ev w).1 (handle_kept ev w h)
