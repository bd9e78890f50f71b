-- ===== src/Witnesses/JudgeRuns.antt =====
-- The theorem on the judging of missed rounds at concrete inputs.
use aegis_protocol.Base.{ℕ, refl, Bool, true, false, [], ◌∷◌, none, codes, quiet}
use aegis_protocol.Indexer.RoundTables.{RoundState, opened, settled}
use aegis_protocol.Oracle.Judge.{RoundRow, JudgeTables, judge_misses}
use aegis_protocol.Oracle.Judge.Loop.{IsPrefix, judge_misses-IsPrefix}

abbrev row : ℕ → RoundState → Bool → RoundRow
row id state judged = record {
  round = record {
    chain_id = 1;
    round_id = id;
    feed_id = codes "0x0a";
    opened_at = 100;
    deadline = 400;
    eligible_count = 1;
    node_set_version = 5;
    tx_hash = codes "0x01";
    log_index = id;
    block_number = 4;
    state = state;
    submission_count = 0;
    aggregated_value = none;
    settled_at = none;
  };
  judged = judged;
}

-- Rounds 1 to 4 of a chain, of which the first is judged and the third is still open; alice was in the
-- active set throughout.
abbrev tables : JudgeTables
tables = record {
  rounds = row 1 settled true ∷ row 2 settled false ∷ row 3 opened false ∷ row 4 settled false ∷ [];
  submissions = [];
  intervals =
      record {
        chain_id = 1;
        node = codes "alice";
        activated_version = 2;
        activated_at = 50;
        deactivated = none;
      }
      ∷ [];
  outcomes = [];
  nodes = [];
  slashings = [];
}

judge_misses-IsPrefix_example : IsPrefix 1 (judge_misses 1 500 10 (quiet tables)).1.state
judge_misses-IsPrefix_example = judge_misses-IsPrefix 1 500 10 (quiet tables) (2, refl)
