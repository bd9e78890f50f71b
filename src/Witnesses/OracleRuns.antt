-- ===== src/Witnesses/OracleRuns.antt =====
-- The theorems at concrete inputs, at which their conditions hold.
use aegis_protocol.Base.{
  ℕ, suc, ◌+◌, ◌*◌, ◌≤◌, ◌<◌, ◌≡◌, ◌↔◌, refl, true, false, not, List, [], ◌∷◌, ◌++◌, none, some,
  length, get_or, count_if, ltb, ◌==◌, if◌then◌else◌, codes, text_eq, ok, quiet, All, Any, arith,
}
use mathlib.Core.List.{Perm, Permᴰ}
use aegis_protocol.Oracle.Aggregate.{OracleSubmission, median, detect_outliers}
use aegis_protocol.Oracle.Aggregate.Median.{median-majority, median-perm}
use aegis_protocol.Oracle.Aggregate.Outliers.{distance, detect_outliers_iff}
use aegis_protocol.Oracle.Aggregator.{
  OracleRound, Signatures, service_value, partition_by_signature, charges_of_round,
}
use aegis_protocol.Oracle.Aggregator.Deserved.{
  IsDeserved, charges_of_round-IsDeserved, partition_by_signature-count,
}
use aegis_protocol.Oracle.Missed.{
  NodeInterval, JudgedRound, Outcome, missed, excused, judge_round, penalties_for,
  deactivation_manual,
}
use aegis_protocol.Oracle.Missed.Verdicts.{
  judge_round-once, judge_round-Explains, Explains, is_eligible,
}
use aegis_protocol.Oracle.Missed.Streaks.{
  penalties_for-last_miss, penalties_for-count, cost_of_miss, run_length, is_missed, is_penalty,
  is_consecutive,
}
use aegis_protocol.Oracle.Executor.{
  Slashing, PendingSlash, SlashAnswer, ExecutorOptions, sent, already_slashed, failed, claimed,
  claimable,
}
use aegis_protocol.Oracle.Executor
use aegis_protocol.Oracle.Executor.Settles.{step-settles, settled_count, settle_rows}
use aegis_protocol.Oracle.Executor.Faults.{
  step-WithinAttempts, step-last_attempt_lost, WithinAttempts,
}
use aegis_protocol.OracleNode.Price.{parse_scaled, format_scaled}
use aegis_protocol.OracleNode.Price.Digits.{value_from}
use aegis_protocol.OracleNode.Price.RoundTrip.{
  parse_scaled-format_scaled, parse_scaled-ignores_rest,
}

-- Three honest values and one that is not.
median-majority_example :
    (10 ≤ median (12 ∷ 900 ∷ 10 ∷ 11 ∷ [])) × (median (12 ∷ 900 ∷ 10 ∷ 11 ∷ []) ≤ 12)
median-majority_example =
    median-majority 10 12 (12 ∷ 900 ∷ 10 ∷ 11 ∷ []) (omega arith) (omega arith)

swapped : Perm {A = ℕ} (3 ∷ 8 ∷ 5 ∷ []) (8 ∷ 3 ∷ 5 ∷ [])
swapped = ∣ Permᴰ.swap refl refl ∣₁

median-perm_example : median (3 ∷ 8 ∷ 5 ∷ []) ≡ median (8 ∷ 3 ∷ 5 ∷ [])
median-perm_example = median-perm swapped

abbrev submissions : List OracleSubmission
submissions =
    record { node = codes "a"; value = 1000; nonce = 0; nonce_known = true }
    ∷ record { node = codes "b"; value = 1100; nonce = 0; nonce_known = true }
    ∷ []

detect_outliers_iff_example :
    Any (λ o. (o.node ≡ codes "b") × (o.value ≡ 1100)) (detect_outliers submissions 1000 200) ↔ (
      (0 < 1000)
      × Any
          (λ s. (s.node ≡ codes "b") × (s.value ≡ 1100) × (201 * 1000 ≤ distance 1100 1000 * 10000))
          submissions)
detect_outliers_iff_example = detect_outliers_iff submissions 1000 200 (codes "b") 1100

-- Signatures that all load, and verify but for the node "b".
abbrev signatures : Signatures
signatures = record {
  signature = λ round node. some (codes "0x");
  verify = λ round feed value node nonce signature. some (not (text_eq node (codes "b")));
}

abbrev settled : OracleRound
settled = record {
  round_id = 7;
  feed_id = codes "ETH-USD";
  state = codes "settled";
  aggregated_value = 1000;
}

charges_of_round-IsDeserved_example :
    All
      (IsDeserved signatures 500 settled
        (service_value (partition_by_signature signatures settled submissions))
        submissions)
      (charges_of_round signatures 500 settled submissions)
charges_of_round-IsDeserved_example = charges_of_round-IsDeserved signatures 500 settled submissions

partition_by_signature-count_example :
    let p = partition_by_signature signatures settled submissions in
    count_if (λ x. ltb 1050 x.value) p.valid
      + count_if (λ x. ltb 1050 x.value) p.invalid
      + count_if (λ x. ltb 1050 x.value) p.unverifiable
    ≡ count_if (λ x. ltb 1050 x.value) submissions
partition_by_signature-count_example =
    partition_by_signature-count signatures settled (λ x. ltb 1050 x.value) submissions

abbrev round : JudgedRound
round = record {
  round_id = 7;
  node_set_version = 4;
  deadline = 1000;
  settled_at = some 1200;
  submitters = codes "a" ∷ [];
}

-- One node that submitted, one that was silent, and one put out before the deadline.
abbrev intervals : List NodeInterval
intervals =
    record {
      node = codes "a";
      activated = 1;
      deactivated = none;
      deactivated_at = none;
      reason = [];
    }
    ∷ record {
      node = codes "b";
      activated = 2;
      deactivated = none;
      deactivated_at = none;
      reason = [];
    }
    ∷ record {
      node = codes "c";
      activated = 3;
      deactivated = some 5;
      deactivated_at = some 900;
      reason = deactivation_manual;
    }
    ∷ []

judge_round-once_example :
    count_if (λ v. text_eq v.node (codes "b")) (judge_round round intervals)
    ≡ (if is_eligible round intervals (codes "b") then 1 else 0)
judge_round-once_example = judge_round-once round intervals (codes "b")

judge_round-Explains_example :
    All (λ v. Any (Explains round v) intervals) (judge_round round intervals)
judge_round-Explains_example = judge_round-Explains round intervals

abbrev history : List Outcome
history = missed ∷ excused ∷ missed ∷ []

penalties_for-last_miss_example :
    get_or (penalties_for (history ++ missed ∷ [])) (length history) none
    ≡ some (cost_of_miss (suc (run_length history)))
penalties_for-last_miss_example = penalties_for-last_miss history

penalties_for-count_example :
    (count_if is_penalty (penalties_for history) ≡ count_if is_missed history)
    × (3 * count_if is_consecutive (penalties_for history) ≤ count_if is_missed history)
    × (length (penalties_for history) ≡ length history)
penalties_for-count_example = penalties_for-count history

-- A chain that accepts the first decision, and fails on the others.
abbrev slasher : PendingSlash → SlashAnswer
slasher p = if p.id == 1 then sent (codes "0xabc") else failed (codes "reverted")

abbrev executor_options : ExecutorOptions
executor_options = record { batch_size = 10; max_attempts = 3 }

abbrev slashing : ℕ → ℕ → Slashing
slashing id attempts = record {
  id = id;
  node = codes "a";
  round_id = some 7;
  amount = 100;
  reason = codes "OUTLIER";
  attempts = attempts;
  submitted = none;
  abandoned = none;
  executed = false;
}

abbrev slashings : List Slashing
slashings = slashing 1 0 ∷ slashing 2 2 ∷ []

step-settles_example :
    Executor.step slasher executor_options (quiet slashings)
    ≡ (ok (settled_count slasher 3 10 0 slashings), quiet (settle_rows slasher 3 10 slashings))
step-settles_example =
    step-settles slasher executor_options slashings ((ground arith, tt), (tt, tt))

step-WithinAttempts_example :
    WithinAttempts 3
      (Executor.step slasher executor_options
        (record { state = slashings; faults = false ∷ true ∷ [] })).1.state
step-WithinAttempts_example =
    step-WithinAttempts slasher executor_options
      (record { state = slashings; faults = false ∷ true ∷ [] }) (omega arith, (omega arith, tt))

slashing-claimable : claimable 3 (slashing 2 2) ≡ true
unfolding claimable
slashing-claimable = refl

step-last_attempt_lost_example :
    ((Executor.step slasher executor_options
        (record { state = slashing 2 2 ∷ []; faults = false ∷ true ∷ [] })).1.state
      ≡ claimed (slashing 2 2) ∷ [])
    × ((Executor.step slasher executor_options
          (record { state = claimed (slashing 2 2) ∷ []; faults = [] })).1.state
        ≡ claimed (slashing 2 2) ∷ [])
step-last_attempt_lost_example =
    step-last_attempt_lost slasher slasher executor_options (slashing 2 2) [] slashing-claimable
      refl (omega arith)

parse_scaled-format_scaled_example : parse_scaled (format_scaled 300042 2) 2 ≡ ok 300042
parse_scaled-format_scaled_example = parse_scaled-format_scaled 300042 2

parse_scaled-ignores_rest_example :
    parse_scaled (codes "1" ++ b'.' ∷ (codes "23" ++ codes "abc")) 2
    ≡ ok (value_from 0 (codes "123"))
parse_scaled-ignores_rest_example =
    parse_scaled-ignores_rest (codes "1") (codes "23") (codes "abc") (refl, tt) (refl, (refl, tt))
      (omega arith) (omega arith) (refl, (refl, (refl, tt)))
