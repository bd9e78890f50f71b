-- ===== src/Indexer/RoundTables.antt =====
-- The feeds, rounds and submissions of internal/db/oracle.go, with the statements that the rounds
-- handler runs on them and the constraints of migrations/000002_oracle_schema.up.sql that these can
-- meet. An int32 is its 32-bit pattern.
use aegis_protocol.Base.{
  ℕ, Bool, true, false, not, ◌&&◌, ◌||◌, List, [], ◌∷◌, map, Option, some, any_of, ltb, ◌==◌,
  if◌then◌else◌, Text, text_eq, Action, ◌>>=◌, throw, gets, exec,
}
use aegis_protocol.Indexer.Event.{IndexError, store_failed, foreign_key}
use aegis_protocol.Indexer.Table.{insert_new}

-- A row of oracle_feeds: `Feed` and the column `active`.
pub record Feed : Type 0 where
  pub chain_id : ℕ
  pub feed_id : Text
  pub name : Text
  pub decimals : ℕ
  pub active : Bool

-- The values of the column `state`; `opened` is 'open'.
pub data RoundState : Type 0 where
  opened quorum_met settled failed : RoundState

-- A row of oracle_rounds: `Round` and what later statements set.
pub record Round : Type 0 where
  pub chain_id : ℕ
  pub round_id : ℕ
  pub feed_id : Text
  pub opened_at : ℕ
  pub deadline : ℕ
  pub eligible_count : ℕ
  pub node_set_version : ℕ
  pub tx_hash : Text
  pub log_index : ℕ
  pub block_number : ℕ
  pub state : RoundState
  pub submission_count : ℕ
  pub aggregated_value : Option ℕ
  pub settled_at : Option ℕ

pub record Submission : Type 0 where
  pub chain_id : ℕ
  pub round_id : ℕ
  pub node : Text
  pub value : ℕ
  pub nonce : ℕ
  pub signature : Text
  pub tx_hash : Text
  pub log_index : ℕ
  pub block_number : ℕ
  pub submitted_at : ℕ

pub record RoundTables : Type 0 where
  pub feeds : List Feed
  pub rounds : List Round
  pub submissions : List Submission

abbrev pub RoundAction : Type 0 → Type 0
RoundAction A = Action IndexError RoundTables A

abbrev pub is_feed : ℕ → Text → Feed → Bool
is_feed chain_id feed_id f = f.chain_id == chain_id && text_eq f.feed_id feed_id

abbrev pub same_feed : Feed → Feed → Bool
same_feed a b = is_feed a.chain_id a.feed_id b

abbrev pub is_round : ℕ → ℕ → Round → Bool
is_round chain_id round_id r = r.chain_id == chain_id && r.round_id == round_id

abbrev pub same_round : Round → Round → Bool
same_round a b = is_round a.chain_id a.round_id b

-- UNIQUE (chain_id, tx_hash, log_index) of oracle_rounds.
abbrev pub same_round_event : Round → Round → Bool
same_round_event a b =
    a.chain_id == b.chain_id && text_eq a.tx_hash b.tx_hash && a.log_index == b.log_index

abbrev pub same_submission : Submission → Submission → Bool
same_submission a b =
    a.chain_id == b.chain_id && text_eq a.tx_hash b.tx_hash && a.log_index == b.log_index

-- UNIQUE (chain_id, round_id, node_address) of oracle_submissions.
abbrev pub same_node_round : Submission → Submission → Bool
same_node_round a b = a.chain_id == b.chain_id && a.round_id == b.round_id && text_eq a.node b.node

-- qUpsertFeed, which on a conflict sets only the name and `active`.
unfoldable pub upsert_feed : Feed → List Feed → List Feed
upsert_feed f [] = record f { active = true } ∷ []
upsert_feed f (g ∷ rows) =
    if same_feed f g
    then record g { name = f.name; active = true } ∷ rows
    else g ∷ upsert_feed f rows

-- The column's CHECK holds a scale to 38 digits.
unfoldable pub upsert_oracle_feed : Feed → RoundAction (Unit {0})
unfolding exec upsert_feed
upsert_oracle_feed f =
    if ltb 38 f.decimals
    then throw store_failed
    else exec store_failed (λ s. record s { feeds = upsert_feed f s.feeds })

-- The row's name is its identifier.
unfoldable pub ensure_oracle_feed : ℕ → Text → ℕ → RoundAction (Unit {0})
unfolding exec
ensure_oracle_feed chain_id feed_id decimals =
    let f : Feed = record {
      chain_id = chain_id;
      feed_id = feed_id;
      name = feed_id;
      decimals = decimals;
      active = true;
    } in
    exec store_failed (λ s. record s { feeds = insert_new same_feed f s.feeds })

abbrev pub deactivate_feed : ℕ → Text → Feed → Feed
deactivate_feed chain_id feed_id f =
    if is_feed chain_id feed_id f then record f { active = false } else f

unfoldable pub deactivate_oracle_feed : ℕ → Text → RoundAction (Unit {0})
unfolding exec
deactivate_oracle_feed chain_id feed_id =
    exec store_failed (λ s. record s { feeds = map (deactivate_feed chain_id feed_id) s.feeds })

-- Whether qInsertRound may go on: the round is there, and nothing happens, or its feed is there and
-- its event is not.
abbrev pub may_insert_round : Round → RoundTables → Bool
may_insert_round r s =
    any_of (same_round r) s.rounds
    || not (any_of (same_round_event r) s.rounds) && any_of (is_feed r.chain_id r.feed_id) s.feeds

unfoldable pub insert_oracle_round : Round → RoundAction (Unit {0})
unfolding exec
insert_oracle_round r = do
  allowed ← gets (may_insert_round r)
  if allowed
      then exec store_failed (λ s. record s { rounds = insert_new same_round r s.rounds })
      else throw store_failed

abbrev pub may_insert_submission : Submission → RoundTables → Bool
may_insert_submission sub s =
    any_of (same_submission sub) s.submissions
    || not (any_of (same_node_round sub) s.submissions)
      && any_of (is_round sub.chain_id sub.round_id) s.rounds

unfoldable pub insert_oracle_submission : Submission → RoundAction (Unit {0})
unfolding exec
insert_oracle_submission sub = do
  allowed ← gets (may_insert_submission sub)
  if allowed
      then exec store_failed
          (λ s. record s { submissions = insert_new same_submission sub s.submissions })
      else throw foreign_key

-- `state = 'open'`, and `state IN ('open', 'quorum_met')`.
pub may_meet_quorum : RoundState → Bool
may_meet_quorum opened = true
may_meet_quorum _ = false

pub may_end : RoundState → Bool
may_end opened = true
may_end quorum_met = true
may_end _ = false

unfoldable pub quorum_row : ℕ → ℕ → ℕ → Round → Round
unfolding may_meet_quorum
quorum_row chain_id round_id count r =
    if is_round chain_id round_id r && may_meet_quorum r.state
    then record r { state = quorum_met; submission_count = count }
    else r

unfoldable pub settle_row : ℕ → ℕ → ℕ → ℕ → ℕ → Round → Round
unfolding may_end
settle_row chain_id round_id value count at r =
    if is_round chain_id round_id r && may_end r.state
    then record r {
      state = settled;
      aggregated_value = some value;
      submission_count = count;
      settled_at = some at;
    }
    else r

unfoldable pub fail_row : ℕ → ℕ → ℕ → ℕ → Round → Round
unfolding may_end
fail_row chain_id round_id count at r =
    if is_round chain_id round_id r && may_end r.state
    then record r { state = failed; submission_count = count; settled_at = some at }
    else r

abbrev pub update_rounds : (Round → Round) → RoundAction (Unit {0})
update_rounds f = exec store_failed (λ s. record s { rounds = map f s.rounds })

unfoldable pub mark_oracle_round_quorum_met : ℕ → ℕ → ℕ → RoundAction (Unit {0})
unfolding exec quorum_row
mark_oracle_round_quorum_met chain_id round_id count =
    update_rounds (quorum_row chain_id round_id count)

unfoldable pub settle_oracle_round : ℕ → ℕ → ℕ → ℕ → ℕ → RoundAction (Unit {0})
unfolding exec settle_row
settle_oracle_round chain_id round_id value count at =
    update_rounds (settle_row chain_id round_id value count at)

unfoldable pub fail_oracle_round : ℕ → ℕ → ℕ → ℕ → RoundAction (Unit {0})
unfolding exec fail_row
fail_oracle_round chain_id round_id count at = update_rounds (fail_row chain_id round_id count at)
