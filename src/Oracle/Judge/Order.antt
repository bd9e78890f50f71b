-- ===== src/Oracle/Judge/Order.antt =====
-- The order in which internal/oracle/aggregator.go judges rounds for misses.
use aegis_protocol.Base.{
  ℕ, ◌≡◌, ◌⊎◌, refl, ap, ◌∙◌, inl, inr, List, [], ◌∷◌, map, Option, none, some, Text, ◌>>◌, exec,
  Keeps, Keeps-then, Keeps-query, Keeps-exec, arith,
}
use aegis_protocol.Indexer.RoundTables.{Round}
use aegis_protocol.Indexer.StakingTables.{SlashRow, OracleNode}
use aegis_protocol.Oracle.Missed.{
  Verdict, Penalty, Outcome, submitted, missed, excused, penalties_for,
}
use aegis_protocol.Oracle.Aggregator.{decided_amount}
use aegis_protocol.Oracle.Judge.{
  RoundRow, JudgeTables, store_failed, record_slash_decision, record_decided, decide_for, decide,
  decide_penalty, record_outcome, record_round_outcomes, decide_missed, decide_outcome, decide_all,
  verdicts_of, last_penalty, mark_row, mark_misses_judged, write_verdicts, judge_one,
}

module _ (rows : List RoundRow) where
  -- The rounds are as they were.
  abbrev Same : JudgeTables → Type 0
  Same s = s.rounds ≡ rows

  decision_Same : (d : SlashRow) → Keeps Same (record_slash_decision d)
  unfolding record_slash_decision exec
  decision_Same d w h = ground arith

  module _ (c now : ℕ) where
    decided_Same :
        (r : Round) (n reason : Text) (a : Option ℕ)
        → Keeps Same (record_decided c now r n reason a)
    unfolding record_decided
    decided_Same r n reason none w h = h
    decided_Same r n reason (some a) w h = decision_Same _ w h

    for_Same :
        (r : Round) (a : Text) (p : Penalty) (n : Option OracleNode)
        → Keeps Same (decide_for c now r a p n)
    unfolding decide_for
    for_Same r a p none w h = h
    for_Same r a p (some n) w h =
        decided_Same r a p.reason (decided_amount n.staked_amount p.bps) w h

    decide-Same : (r : Round) (a : Text) (p : Penalty) → Keeps Same (decide c now r a p)
    unfolding decide
    decide-Same r a p = Keeps-query Same store_failed _ (decide_for c now r a p) (for_Same r a p)

    penalty_Same :
        (r : Round) (a : Text) (p : Option Penalty) → Keeps Same (decide_penalty c now r a p)
    unfolding decide_penalty
    penalty_Same r a none w h = h
    penalty_Same r a (some p) w h = decide-Same r a p w h

    missed_Same : (r : Round) (a : Text) → Keeps Same (decide_missed c now r a)
    unfolding decide_missed
    missed_Same r a =
        Keeps-query Same store_failed _
          (λ history. decide_penalty c now r a (last_penalty (penalties_for history)))
          (λ history. penalty_Same r a (last_penalty (penalties_for history)))

    outcome_Same : (r : Round) (a : Text) (o : Outcome) → Keeps Same (decide_outcome c now r a o)
    unfolding decide_outcome
    outcome_Same r a missed w h = missed_Same r a w h
    outcome_Same r a submitted w h = h
    outcome_Same r a excused w h = h

    all_Same : (r : Round) (vs : List Verdict) → Keeps Same (decide_all c now r vs)
    unfolding decide_all
    all_Same r [] w h = h
    all_Same r (v ∷ vs) w h =
        Keeps-then Same (decide_outcome c now r v.node v.outcome) (decide_all c now r vs)
          (outcome_Same r v.node v.outcome) (all_Same r vs) w h

    recorded_Same : (i : ℕ) (v : Verdict) → Keeps Same (record_outcome c now i v)
    unfolding record_outcome
    recorded_Same i v = Keeps-exec Same store_failed _ (λ s e. e)

    outcomes_Same : (i : ℕ) (vs : List Verdict) → Keeps Same (record_round_outcomes c now i vs)
    unfolding record_round_outcomes
    outcomes_Same i [] w h = h
    outcomes_Same i (v ∷ vs) w h =
        Keeps-then Same (record_outcome c now i v) (record_round_outcomes c now i vs)
          (recorded_Same i v) (outcomes_Same i vs) w h

    write_Same : (r : Round) (vs : List Verdict) → Keeps Same (write_verdicts c now r vs)
    unfolding write_verdicts
    write_Same r vs =
        Keeps-then Same (record_round_outcomes c now r.round_id vs) (decide_all c now r vs)
          (outcomes_Same r.round_id vs) (all_Same r vs)

module _ (c now : ℕ) where
  mark_twice :
      (i : ℕ) (rows : List RoundRow)
      → map (mark_row c now i) (map (mark_row c now i) rows) ≡ map (mark_row c now i) rows
  mark_twice i [] = refl
  mark_twice i (r ∷ rows) = ground (arith, mark_twice i rows)

  -- The rounds are as they were, but that the round may be marked.
  abbrev pub Marked : ℕ → List RoundRow → JudgeTables → Type 0
  Marked i rows s = (s.rounds ≡ rows) ⊎ (s.rounds ≡ map (mark_row c now i) rows)

  mark_Marked : (i : ℕ) (rows : List RoundRow) → Keeps (Marked i rows) (mark_misses_judged c now i)
  unfolding mark_misses_judged
  mark_Marked i rows = Keeps-exec (Marked i rows) store_failed _ (λ s h. elim h [
    | inl e ↦ inr (ap (map (mark_row c now i)) e)
    | inr e ↦ inr (ap (map (mark_row c now i)) e ∙ mark_twice i rows)
  ])

  write_Marked :
      (r : Round) (vs : List Verdict) (rows : List RoundRow)
      → Keeps (Marked r.round_id rows) (write_verdicts c now r vs)
  write_Marked r vs rows w (inl e) = inl (write_Same rows c now r vs w e)
  write_Marked r vs rows w (inr e) =
      inr (write_Same (map (mark_row c now r.round_id) rows) c now r vs w e)

  pub one_Marked :
      (r : Round) (subs : List Text) (rows : List RoundRow)
      → Keeps (Marked r.round_id rows) (judge_one c now r subs)
  unfolding judge_one
  one_Marked r subs rows =
      let M = Marked r.round_id rows in
      Keeps-query M store_failed _
        (λ is.
          write_verdicts c now r (verdicts_of c now r subs is)
          >> mark_misses_judged c now r.round_id)
        (λ is.
          Keeps-then M (write_verdicts c now r (verdicts_of c now r subs is))
            (mark_misses_judged c now r.round_id)
            (write_Marked r (verdicts_of c now r subs is) rows) (mark_Marked r.round_id rows))
