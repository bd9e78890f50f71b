-- ===== src/Indexer/Rounds/Replay.antt =====
-- The rounds handler (internal/indexer/oracle.go) on an event delivered again.
use aegis_protocol.Base.{
  ℕ, ◌≡◌, refl, true, not, List, [], ◌∷◌, map, any_of, Text, text_eq, text_eq_refl, ok, quiet,
  arith,
}
use aegis_protocol.Indexer.Event.{Event}
use aegis_protocol.Indexer.Table.{insert_new, insert_new_idem, any_of-insert_new}
use aegis_protocol.Indexer.Again.{Settles, Settles-choice, Settles-pure}
use aegis_protocol.Indexer.RoundTables.{
  Feed, Round, Submission, RoundTables, same_round, same_feed, same_submission, upsert_feed,
  deactivate_feed, quorum_row, settle_row, fail_row,
}
use aegis_protocol.Indexer.Rounds.{
  OracleRoundsHandler, handle_feed_registered, handle_feed_deregistered, handle_round_started,
  handle_quorum_met, handle_settled, handle_failed, handle_submission, round_event, handle,
  event_feed_registered, event_feed_deregistered, event_round_started, event_round_quorum_met,
  event_round_settled, event_round_failed, event_submission,
}

feed_again :
    (f : Feed) (rows : List Feed)
    → insert_new same_feed f (insert_new same_feed f rows) ≡ insert_new same_feed f rows
feed_again f rows = insert_new_idem same_feed f rows (ground (arith, text_eq_refl f.feed_id))

round_again :
    (r : Round) (rows : List Round)
    → insert_new same_round r (insert_new same_round r rows) ≡ insert_new same_round r rows
round_again r rows = insert_new_idem same_round r rows (ground arith)

submission_again :
    (s : Submission) (rows : List Submission)
    → insert_new same_submission s (insert_new same_submission s rows)
      ≡ insert_new same_submission s rows
submission_again s rows =
    insert_new_idem same_submission s rows (ground (arith, text_eq_refl s.tx_hash))

upsert_again :
    (f : Feed) (rows : List Feed) → upsert_feed f (upsert_feed f rows) ≡ upsert_feed f rows
unfolding upsert_feed
upsert_again f [] = ground (arith, text_eq_refl f.feed_id)
upsert_again f (g ∷ rows) = ground (arith, upsert_again f rows)

deactivate_again :
    (c : ℕ) (i : Text) (rows : List Feed)
    → map (deactivate_feed c i) (map (deactivate_feed c i) rows) ≡ map (deactivate_feed c i) rows
deactivate_again c i [] = refl
deactivate_again c i (f ∷ rows) = ground (arith, deactivate_again c i rows)

quorum_again :
    (c i n : ℕ) (rows : List Round)
    → map (quorum_row c i n) (map (quorum_row c i n) rows) ≡ map (quorum_row c i n) rows
unfolding quorum_row
quorum_again c i n [] = refl
quorum_again c i n (r ∷ rows) = ground (arith, quorum_again c i n rows)

settle_again :
    (c i v n t : ℕ) (rows : List Round)
    → map (settle_row c i v n t) (map (settle_row c i v n t) rows) ≡ map (settle_row c i v n t) rows
unfolding settle_row
settle_again c i v n t [] = refl
settle_again c i v n t (r ∷ rows) = ground (arith, settle_again c i v n t rows)

fail_again :
    (c i n t : ℕ) (rows : List Round)
    → map (fail_row c i n t) (map (fail_row c i n t) rows) ≡ map (fail_row c i n t) rows
unfolding fail_row
fail_again c i n t [] = refl
fail_again c i n t (r ∷ rows) = ground (arith, fail_again c i n t rows)

round_there :
    (r : Round) (rows : List Round) → any_of (same_round r) (insert_new same_round r rows) ≡ true
round_there r rows = any_of-insert_new same_round r rows (ground arith)

submission_there :
    (s : Submission) (rows : List Submission)
    → any_of (same_submission s) (insert_new same_submission s rows) ≡ true
submission_there s rows =
    any_of-insert_new same_submission s rows (ground (arith, text_eq_refl s.tx_hash))

module _ (h : OracleRoundsHandler) (ev : Event) (s : RoundTables) where
  feed_registered_replay : Settles (handle_feed_registered h ev) s
  unfolding handle_feed_registered
  feed_registered_replay e = grind (arith, upsert_again)

  feed_deregistered_replay : Settles (handle_feed_deregistered h ev) s
  unfolding handle_feed_deregistered
  feed_deregistered_replay e = grind (arith, deactivate_again)

  round_started_replay : Settles (handle_round_started h ev) s
  unfolding handle_round_started
  round_started_replay e = grind (arith, feed_again, round_again, round_there)

  quorum_met_replay : Settles (handle_quorum_met h ev) s
  unfolding handle_quorum_met
  quorum_met_replay e = grind (arith, quorum_again)

  settled_replay : Settles (handle_settled h ev) s
  unfolding handle_settled
  settled_replay e = grind (arith, settle_again)

  failed_replay : Settles (handle_failed h ev) s
  unfolding handle_failed
  failed_replay e = grind (arith, fail_again)

  submission_replay : Settles (handle_submission h ev) s
  unfolding handle_submission
  submission_replay e = grind (arith, submission_again, submission_there)

-- An event that was handled without an error changes no row when it is delivered again at once.
pub rounds_handle-replay :
    (h : OracleRoundsHandler) (ev : Event) (s : RoundTables)
    → (handle h ev (quiet s)).0 ≡ ok tt
    → let s' = (handle h ev (quiet s)).1.state in handle h ev (quiet s') ≡ (ok tt, quiet s')
unfolding handle round_event
rounds_handle-replay h ev s =
    Settles-choice (not (text_eq ev.contract h.contract)) _ _ s (Settles-pure s) (
      Settles-choice (text_eq ev.name event_feed_registered) _ _ s (feed_registered_replay h ev s) (
        Settles-choice (text_eq ev.name event_feed_deregistered) _ _ s
          (feed_deregistered_replay h ev s)
          (Settles-choice (text_eq ev.name event_round_started) _ _ s (round_started_replay h ev s)
            (Settles-choice (text_eq ev.name event_round_quorum_met) _ _ s
              (quorum_met_replay h ev s)
              (Settles-choice (text_eq ev.name event_round_settled) _ _ s (settled_replay h ev s) (
                Settles-choice (text_eq ev.name event_round_failed) _ _ s (failed_replay h ev s) (
                  Settles-choice (text_eq ev.name event_submission) _ _ s (submission_replay h ev s)
                    (Settles-pure s))))))))
