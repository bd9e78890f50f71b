-- ===== src/Indexer/Rounds/Order.antt =====
-- The handler of internal/indexer/oracle.go over the tables' order of Submissions.antt.
use aegis_protocol.Base.{
  ℕ, ◌≡◌, inl, inr, List, none, ltb, Text, World, exec_cases, Keeps, Bool-cases,
}
use aegis_protocol.Indexer.Event.{Event, store_failed}
use aegis_protocol.Indexer.RoundTables.{
  Feed, Round, opened, RoundTables, upsert_oracle_feed, ensure_oracle_feed, deactivate_oracle_feed,
  insert_oracle_round, mark_oracle_round_quorum_met, settle_oracle_round, fail_oracle_round,
  quorum_row, settle_row, fail_row,
}
use aegis_protocol.Indexer.Rounds.{OracleRoundsHandler}
use aegis_protocol.Indexer.Rounds.Deliver.{IsKept, deliver, deliver_kept}
use aegis_protocol.Indexer.Rounds.Submissions.{
  IsOrderly, feeds_IsOrderly, update_IsOrderly, quorum_row-KeepsOrder, settle_row-KeepsOrder,
  fail_row-KeepsOrder, insert_round_Orderly, insert_submission_Orderly,
}

abbrev Orderly : World RoundTables → Type 0
Orderly w = IsOrderly w.state

ensure_Orderly :
    (c : ℕ) (i : Text) (d : ℕ) (w : World RoundTables)
    → Orderly w
    → Orderly (ensure_oracle_feed c i d w).1
unfolding ensure_oracle_feed
ensure_Orderly c i d w h = exec_cases IsOrderly store_failed _ w h (feeds_IsOrderly _ w.state h)

deactivate_Orderly :
    (c : ℕ) (i : Text) (w : World RoundTables)
    → Orderly w
    → Orderly (deactivate_oracle_feed c i w).1
unfolding deactivate_oracle_feed
deactivate_Orderly c i w h = exec_cases IsOrderly store_failed _ w h (feeds_IsOrderly _ w.state h)

upsert_Orderly : (f : Feed) (w : World RoundTables) → Orderly w → Orderly (upsert_oracle_feed f w).1
unfolding upsert_oracle_feed
upsert_Orderly f w h = elim (Bool-cases (ltb 38 f.decimals)) [
  | inl e ↦ rw e h
  | inr e ↦ rw e (exec_cases IsOrderly store_failed _ w h (feeds_IsOrderly _ w.state h))
]

quorum_Orderly :
    (c i n : ℕ) (w : World RoundTables)
    → Orderly w
    → Orderly (mark_oracle_round_quorum_met c i n w).1
unfolding mark_oracle_round_quorum_met
quorum_Orderly c i n w = update_IsOrderly (quorum_row c i n) w (quorum_row-KeepsOrder c i n)

settle_Orderly :
    (c i v n t : ℕ) (w : World RoundTables)
    → Orderly w
    → Orderly (settle_oracle_round c i v n t w).1
unfolding settle_oracle_round
settle_Orderly c i v n t w =
    update_IsOrderly (settle_row c i v n t) w (settle_row-KeepsOrder c i v n t)

fail_Orderly :
    (c i n t : ℕ) (w : World RoundTables) → Orderly w → Orderly (fail_oracle_round c i n t w).1
unfolding fail_oracle_round
fail_Orderly c i n t w = update_IsOrderly (fail_row c i n t) w (fail_row-KeepsOrder c i n t)

insert_Orderly :
    (r : Round)
    → r.state ≡ opened
    → r.aggregated_value ≡ none
    → r.settled_at ≡ none
    → Keeps IsOrderly (insert_oracle_round r)
insert_Orderly r e v t w = insert_round_Orderly r w (rw (e, v, t))

tables-IsKept : IsKept IsOrderly
tables-IsKept = record {
  upsert_kept = upsert_Orderly;
  ensure_kept = ensure_Orderly;
  deactivate_kept = deactivate_Orderly;
  insert_kept = insert_Orderly;
  quorum_kept = quorum_Orderly;
  settle_kept = settle_Orderly;
  fail_kept = fail_Orderly;
  submission_kept = insert_submission_Orderly;
}

-- Whatever events are delivered, in whatever order and however often, and whatever fails, tables
-- in order stay in order: a round has a value exactly when it is settled and an end exactly when
-- it is settled or failed, no round stands twice, and each submission belongs to a round that is
-- there, with at most one of a node in a round.
pub deliver-IsOrderly :
    (g : OracleRoundsHandler) (events : List Event) (w : World RoundTables)
    → IsOrderly w.state
    → IsOrderly (deliver g events w).state
deliver-IsOrderly g events w = deliver_kept IsOrderly tables-IsKept g events w
