-- ===== src/Indexer/Rounds/States.antt =====
-- The rows of the rounds handler (internal/indexer/oracle.go) from one delivery to the next.
use aegis_protocol.Base.{
  ℕ, ◌≡◌, refl, ap, sym, ◌∙◌, subst, inl, inr, Bool, true, false, List, World, exec, exec_cases,
  arith, Bool-cases,
}
use aegis_protocol.Indexer.Event.{Event, store_failed}
use aegis_protocol.Indexer.Grown.{Grown, Grown-refl, Grown-map, Grown-insert_new}
use aegis_protocol.Indexer.RoundTables.{
  Round, RoundState, RoundTables, opened, quorum_met, settled, failed, same_round, update_rounds,
  quorum_row, settle_row, fail_row, mark_oracle_round_quorum_met, settle_oracle_round,
  fail_oracle_round, insert_oracle_round, ensure_oracle_feed, upsert_oracle_feed,
  deactivate_oracle_feed, insert_oracle_submission,
}
use aegis_protocol.Indexer.Rounds.{OracleRoundsHandler}
use aegis_protocol.Indexer.Rounds.Deliver.{IsKept, deliver, deliver_kept}

-- Which state may stand where another stood before.
abbrev pub leads_to : RoundState → RoundState → Bool
leads_to opened _ = true
leads_to quorum_met opened = false
leads_to quorum_met _ = true
leads_to settled settled = true
leads_to settled _ = false
leads_to failed failed = true
leads_to failed _ = false

abbrev pub is_final : RoundState → Bool
is_final settled = true
is_final failed = true
is_final _ = false

-- The announcement of a round is as it was.
abbrev pub SameRound : Round → Round → Type 0
SameRound q r =
    (r.chain_id ≡ q.chain_id)
    × (r.round_id ≡ q.round_id)
    × (r.feed_id ≡ q.feed_id)
    × (r.opened_at ≡ q.opened_at)
    × (r.deadline ≡ q.deadline)
    × (r.eligible_count ≡ q.eligible_count)
    × (r.node_set_version ≡ q.node_set_version)

-- `r` is what a row `q` of the same round may have become: its announcement is as it was, its state
-- may follow, and if it was final the whole row is as it was.
pub data RoundStep (q r : Round) : Type 0 where
  unchanged : r ≡ q → RoundStep q r
  moved : is_final q.state ≡ false → SameRound q r → leads_to q.state r.state ≡ true → RoundStep q r

-- A change of rows that leaves the final ones, and that a row may undergo.
record IsStep (f : Round → Round) : Type 0 where
  final : (r : Round) → is_final r.state ≡ true → f r ≡ r
  same : (r : Round) → SameRound r (f r)
  leads : (r : Round) → leads_to r.state (f r).state ≡ true

leads_to_trans :
    (a b c : RoundState) → leads_to a b ≡ true → leads_to b c ≡ true → leads_to a c ≡ true
leads_to_trans a b c h k = ground arith

SameRound-trans : (q r t : Round) → SameRound q r → SameRound r t → SameRound q t
SameRound-trans q r t h k =
    (k.0 ∙ h.0, k.1 ∙ h.1, k.2 ∙ h.2, k.3 ∙ h.3, k.4 ∙ h.4, k.5 ∙ h.5, k.6 ∙ h.6)

then_step : (f : Round → Round) → IsStep f → (q r : Round) → RoundStep q r → RoundStep q (f r)
then_step f st q r (unchanged e) = elim (Bool-cases (is_final q.state)) [
  | inl fin ↦ unchanged (ap f e ∙ st.final q fin)
  | inr going ↦ subst (λ t. RoundStep q (f t)) (sym e) (moved going (st.same q) (st.leads q))
]
then_step f st q r (moved going s l) =
    moved going (SameRound-trans q r (f r) s (st.same r))
      (leads_to_trans q.state r.state (f r).state l (st.leads r))

quorum_row-IsStep : (c i n : ℕ) → IsStep (quorum_row c i n)
unfolding quorum_row
quorum_row-IsStep c i n = record {
  final = λ r e. ground arith;
  same = λ r. ground arith;
  leads = λ r. ground arith;
}

settle_row-IsStep : (c i v n t : ℕ) → IsStep (settle_row c i v n t)
unfolding settle_row
settle_row-IsStep c i v n t = record {
  final = λ r e. ground arith;
  same = λ r. ground arith;
  leads = λ r. ground arith;
}

fail_row-IsStep : (c i n t : ℕ) → IsStep (fail_row c i n t)
unfolding fail_row
fail_row-IsStep c i n t = record {
  final = λ r e. ground arith;
  same = λ r. ground arith;
  leads = λ r. ground arith;
}

module _ (before : List Round) where
  abbrev LaterRounds : RoundTables → Type 0
  LaterRounds s = Grown RoundStep before s.rounds

  update_Later :
      (f : Round → Round) (w : World RoundTables)
      → IsStep f
      → LaterRounds w.state
      → LaterRounds (update_rounds f w).1.state
  update_Later f w st h =
      exec_cases (λ s. Grown RoundStep before s.rounds) store_failed _ w h
        (Grown-map RoundStep f before w.state.rounds (then_step f st) h)

  quorum_Later :
      (c i n : ℕ) (w : World RoundTables)
      → LaterRounds w.state
      → LaterRounds (mark_oracle_round_quorum_met c i n w).1.state
  unfolding mark_oracle_round_quorum_met
  quorum_Later c i n w = update_Later (quorum_row c i n) w (quorum_row-IsStep c i n)

  settle_Later :
      (c i v n t : ℕ) (w : World RoundTables)
      → LaterRounds w.state
      → LaterRounds (settle_oracle_round c i v n t w).1.state
  unfolding settle_oracle_round
  settle_Later c i v n t w = update_Later (settle_row c i v n t) w (settle_row-IsStep c i v n t)

  fail_Later :
      (c i n t : ℕ) (w : World RoundTables)
      → LaterRounds w.state
      → LaterRounds (fail_oracle_round c i n t w).1.state
  unfolding fail_oracle_round
  fail_Later c i n t w = update_Later (fail_row c i n t) w (fail_row-IsStep c i n t)

  insert_Later :
      (r : Round) (w : World RoundTables)
      → LaterRounds w.state
      → LaterRounds (insert_oracle_round r w).1.state
  unfolding insert_oracle_round
  insert_Later r w h =
      grind (arith, Grown-insert_new RoundStep same_round r before w.state.rounds h)

  pub rounds-IsKept : IsKept LaterRounds
  unfolding upsert_oracle_feed ensure_oracle_feed deactivate_oracle_feed insert_oracle_submission
      exec
  rounds-IsKept = record {
    upsert_kept = λ f w h. ground arith;
    ensure_kept = λ c i d w h. ground arith;
    deactivate_kept = λ c i w h. ground arith;
    insert_kept = λ r e v t w. insert_Later r w;
    quorum_kept = quorum_Later;
    settle_kept = settle_Later;
    fail_kept = fail_Later;
    submission_kept = λ sub w h. ground arith;
  }

-- Whatever events are delivered, in whatever order and however often, and whatever fails, every
-- round stays, announced as it was; its state only moves on, and a settled or failed round's whole
-- row, its value included, never changes again.
pub deliver-RoundStep :
    (g : OracleRoundsHandler) (events : List Event) (w : World RoundTables)
    → Grown RoundStep w.state.rounds (deliver g events w).state.rounds
deliver-RoundStep g events w =
    deliver_kept (LaterRounds w.state.rounds) (rounds-IsKept w.state.rounds) g events w
      (Grown-refl RoundStep (λ r. unchanged refl) w.state.rounds)
