-- ===== src/Oracle/Judge.antt =====
-- internal/oracle/aggregator.go: the judging of missed rounds, with the statements of
-- internal/db/oracle_misses.go and internal/db/oracle_aggregation.go that it runs. The number of rounds
-- judged before an error is left out, and `now` is the instant of a decision.
pub mod Order
pub mod Prefix
pub mod Loop
use aegis_protocol.Base.{
  ℕ, zero, suc, ◌+◌, ◌-◌, ◌*◌, ◌/◌, ◌%◌, ◌^◌, ◌≤◌, ◌<◌, ◌≡◌, ◌≢◌, ◌↔◌, ◌⊎◌, refl, ap, sym, ◌∙◌,
  subst, inl, inr, Bool, true, false, not, ◌&&◌, ◌||◌, List, [], ◌∷◌, ◌++◌, map, Option, none, some,
  length, take, drop, replicate, get_or, any_of, count_if, keep_if, ltb, leb, ◌==◌, if◌then◌else◌,
  Text, codes, text_eq, text_lt, text_eq_refl, text_eq_sym, text_eq→eq, text_eq_iff, Result, ok,
  err, World, Action, ◌>>=◌, ◌>>◌, pure, throw, lift, gets, modify, exec, query, returning,
  exec_cases, quiet, Keeps, All, Any, All-map, take-append_length, drop-append_length, arith,
  Bool-cases, Option-cases, ==_iff, length-append, length-replicate, ltb→lt, ltb→ge, lt→ltb, leb→le,
}
use aegis_protocol.Indexer.Table.{insert_new}
use aegis_protocol.Indexer.RoundTables.{
  Round, RoundState, Submission, opened, quorum_met, settled, failed,
}
use aegis_protocol.Indexer.StakingTables.{Interval, OracleNode, SlashRow, is_node}
use aegis_protocol.Indexer.Staking.Intervals.{node_intervals_at}
use aegis_protocol.Oracle.Missed.{
  NodeInterval, JudgedRound, Outcome, Verdict, Penalty, submitted, missed, excused, mem_text,
  judge_round, penalties_for,
}
use aegis_protocol.Oracle.Aggregator.{decided_amount}

-- A row of oracle_rounds: the round and whether `misses_judged_at` is set.
pub record RoundRow : Type 0 where
  pub round : Round
  pub judged : Bool

-- A row of oracle_round_outcomes.
pub record OutcomeRow : Type 0 where
  pub chain_id : ℕ
  pub round_id : ℕ
  pub node : Text
  pub outcome : Outcome
  pub why : Text

pub record JudgeTables : Type 0 where
  pub rounds : List RoundRow
  pub submissions : List Submission
  pub intervals : List Interval
  pub outcomes : List OutcomeRow
  pub nodes : List OracleNode
  pub slashings : List SlashRow

pub data JudgeError : Type 0 where
  store_failed refused no_node no_penalty : JudgeError

abbrev pub JudgeAction : Type 0 → Type 0
JudgeAction A = Action JudgeError JudgeTables A

abbrev pub is_unjudged : ℕ → RoundRow → Bool
is_unjudged chain_id r = r.round.chain_id == chain_id && not r.judged

abbrev lower_of : RoundRow → Option RoundRow → Option RoundRow
lower_of r none = some r
lower_of r (some q) = if ltb q.round.round_id r.round.round_id then some q else some r

-- qNextRoundToJudge: the lowest round that is not judged.
unfoldable pub next_round : ℕ → List RoundRow → Option RoundRow
next_round chain_id [] = none
next_round chain_id (r ∷ rows) =
    let later = next_round chain_id rows in
    if is_unjudged chain_id r then lower_of r later else later

-- qRoundSubmitters: every node once.
unfoldable pub submitters_of : ℕ → ℕ → List Submission → List Text
submitters_of chain_id round_id [] = []
submitters_of chain_id round_id (s ∷ rows) =
    let others = submitters_of chain_id round_id rows in
    if s.chain_id == chain_id && s.round_id == round_id && not (mem_text s.node others)
    then s.node ∷ others
    else others

abbrev same_outcome : OutcomeRow → OutcomeRow → Bool
same_outcome a b = a.chain_id == b.chain_id && a.round_id == b.round_id && text_eq a.node b.node

-- `ORDER BY round_id ASC` of qOutcomeHistory.
insert_outcome : OutcomeRow → List OutcomeRow → List OutcomeRow
insert_outcome o [] = o ∷ []
insert_outcome o (p ∷ rows) =
    if ltb p.round_id o.round_id then p ∷ insert_outcome o rows else o ∷ p ∷ rows

sort_outcomes : List OutcomeRow → List OutcomeRow
unfolding insert_outcome
sort_outcomes [] = []
sort_outcomes (o ∷ rows) = insert_outcome o (sort_outcomes rows)

-- `NodeOutcomeHistory`.
pub node_outcome_history : ℕ → Text → List OutcomeRow → List Outcome
unfolding sort_outcomes
node_outcome_history chain_id node rows =
    map (λ o. o.outcome)
      (sort_outcomes (keep_if (λ o. o.chain_id == chain_id && text_eq o.node node) rows))

-- The last entry, where there is one and it is a penalty.
pub last_penalty : List (Option Penalty) → Option Penalty
last_penalty [] = none
last_penalty (p ∷ []) = p
last_penalty (p ∷ q ∷ penalties) = last_penalty (q ∷ penalties)

node_of : ℕ → Text → List OracleNode → Option OracleNode
node_of chain_id node [] = none
node_of chain_id node (n ∷ nodes) =
    if is_node chain_id node n then some n else node_of chain_id node nodes

-- qRecordSlashDecision writes nothing where the node has this reason in this round, and the index of
-- migrations/000006_slash_execution.up.sql refuses a second reason.
has_decision : SlashRow → SlashRow → Bool
has_decision d r =
    r.chain_id == d.chain_id
    && text_eq r.node d.node
    && r.round_id == d.round_id
    && text_eq r.reason d.reason

has_slashing : SlashRow → SlashRow → Bool
has_slashing d r = r.chain_id == d.chain_id && text_eq r.node d.node && r.round_id == d.round_id

record_slash_decision : SlashRow → JudgeAction (Unit {0})
unfolding exec has_decision has_slashing
record_slash_decision d = do
  rows ← gets (λ s. s.slashings)
  if any_of (has_decision d) rows
      then exec store_failed (λ s. s)
      else if any_of (has_slashing d) rows
      then throw refused
      else exec store_failed (λ s. record s { slashings = s.slashings ++ d ∷ [] })

module _ (chain_id now : ℕ) where
  record_decided : Round → Text → Text → Option ℕ → JudgeAction (Unit {0})
  unfolding record_slash_decision
  record_decided round node reason none = pure tt
  record_decided round node reason (some amount) = record_slash_decision (record {
    chain_id = chain_id;
    node = node;
    round_id = round.round_id;
    amount = amount;
    reason = reason;
    decided_at = now;
    execution = none;
  })

  decide_for : Round → Text → Penalty → Option OracleNode → JudgeAction (Unit {0})
  unfolding record_decided decided_amount
  decide_for round node penalty none = throw no_node
  decide_for round node penalty (some n) =
      record_decided round node penalty.reason (decided_amount n.staked_amount penalty.bps)

  -- `decide`.
  decide : Round → Text → Penalty → JudgeAction (Unit {0})
  unfolding query decide_for node_of
  decide round node penalty = do
    found ← query store_failed (λ s. node_of chain_id node s.nodes)
    decide_for round node penalty found

  decide_penalty : Round → Text → Option Penalty → JudgeAction (Unit {0})
  unfolding decide
  decide_penalty round node none = throw no_penalty
  decide_penalty round node (some penalty) = decide round node penalty

  record_outcome : ℕ → Verdict → JudgeAction (Unit {0})
  unfolding exec
  record_outcome round_id v = exec store_failed (λ s. record s {
    outcomes =
        insert_new same_outcome
          (record {
            chain_id = chain_id;
            round_id = round_id;
            node = v.node;
            outcome = v.outcome;
            why = v.why;
          })
          s.outcomes;
  })

  -- `RecordRoundOutcomes`.
  record_round_outcomes : ℕ → List Verdict → JudgeAction (Unit {0})
  unfolding record_outcome
  record_round_outcomes round_id [] = pure tt
  record_round_outcomes round_id (v ∷ verdicts) =
      let rest = record_round_outcomes round_id verdicts in record_outcome round_id v >> rest

  decide_missed : Round → Text → JudgeAction (Unit {0})
  unfolding query decide_penalty node_outcome_history last_penalty
  decide_missed round node = do
    history ← query store_failed (λ s. node_outcome_history chain_id node s.outcomes)
    decide_penalty round node (last_penalty (penalties_for history))

  decide_outcome : Round → Text → Outcome → JudgeAction (Unit {0})
  unfolding decide_missed
  decide_outcome round node missed = decide_missed round node
  decide_outcome round node submitted = pure tt
  decide_outcome round node excused = pure tt

  -- The loop over the verdicts.
  decide_all : Round → List Verdict → JudgeAction (Unit {0})
  unfolding decide_outcome
  decide_all round [] = pure tt
  decide_all round (v ∷ verdicts) =
      let rest = decide_all round verdicts in decide_outcome round v.node v.outcome >> rest

  -- qMarkMissesJudged.
  abbrev pub mark_row : ℕ → RoundRow → RoundRow
  mark_row round_id r =
      if r.round.chain_id == chain_id && r.round.round_id == round_id
      then record r { judged = true }
      else r

  unfoldable pub mark_misses_judged : ℕ → JudgeAction (Unit {0})
  unfolding exec
  mark_misses_judged round_id =
      exec store_failed (λ s. record s { rounds = map (mark_row round_id) s.rounds })

  abbrev verdicts_of : Round → List Text → List NodeInterval → List Verdict
  verdicts_of round submitters intervals =
      judge_round
        (record {
          round_id = round.round_id;
          node_set_version = round.node_set_version;
          deadline = round.deadline;
          settled_at = round.settled_at;
          submitters = submitters;
        })
        intervals

  -- What `judgeRound` writes for its verdicts before it marks the round.
  write_verdicts : Round → List Verdict → JudgeAction (Unit {0})
  unfolding record_round_outcomes decide_all
  write_verdicts round verdicts =
      record_round_outcomes round.round_id verdicts >> decide_all round verdicts

  -- `judgeRound`.
  pub judge_one : Round → List Text → JudgeAction (Unit {0})
  unfolding query write_verdicts mark_misses_judged
  judge_one round submitters = do
    intervals ←
        query store_failed (λ s. node_intervals_at chain_id round.node_set_version s.intervals)
    write_verdicts round (verdicts_of round submitters intervals)
    mark_misses_judged round.round_id

  pub is_finished : RoundState → Bool
  is_finished settled = true
  is_finished failed = true
  is_finished _ = false

  -- An int32 by its pattern: no count is below a negative one.
  abbrev pub recorded : ℕ → ℕ
  recorded count = if ltb count 2147483648 then count else 0

  pub judge_submitted : RoundRow → JudgeAction ℕ → List Text → JudgeAction ℕ
  unfolding judge_one
  judge_submitted r rest submitters =
      if ltb (length submitters) (recorded r.round.submission_count)
      then pure 0
      else do judge_one r.round submitters; n ← rest; pure (suc n)

  pub judge_next : JudgeAction ℕ → Option RoundRow → JudgeAction ℕ
  unfolding query judge_submitted is_finished submitters_of
  judge_next rest none = pure 0
  judge_next rest (some r) = if not (is_finished r.round.state) then pure 0 else do
    submitters ← query store_failed (λ s. submitters_of chain_id r.round.round_id s.submissions)
    judge_submitted r rest submitters

  -- `JudgeMisses`; the first argument is what is left of BatchSize.
  unfoldable pub judge_misses : ℕ → JudgeAction ℕ
  unfolding query judge_next next_round
  judge_misses zero = pure 0
  judge_misses (suc left) =
      let rest = judge_misses left in
      query store_failed (λ s. next_round chain_id s.rounds) >>= judge_next rest
