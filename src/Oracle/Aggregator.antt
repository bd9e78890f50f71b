-- ===== src/Oracle/Aggregator.antt =====
-- internal/oracle/aggregator.go: what the analysis of a settled round concludes. The stored
-- signatures and the verifier are parameters, where `none` is an error; the writes of the conclusions
-- to the database are left out.
pub mod Deserved
use aegis_protocol.Base.{
  ℕ, zero, suc, ◌+◌, ◌-◌, ◌*◌, ◌/◌, ◌%◌, ◌^◌, ◌≤◌, ◌<◌, ◌≡◌, ◌≢◌, ◌↔◌, ◌⊎◌, refl, ap, sym, ◌∙◌,
  subst, inl, inr, Bool, true, false, not, ◌&&◌, ◌||◌, List, [], ◌∷◌, ◌++◌, map, Option, none, some,
  length, take, drop, replicate, get_or, any_of, count_if, keep_if, ltb, leb, ◌==◌, if◌then◌else◌,
  Text, codes, text_eq, text_lt, text_eq_refl, text_eq→eq, text_eq_iff, Result, ok, err, World,
  Action, ◌>>=◌, ◌>>◌, pure, throw, lift, gets, modify, exec, query, returning, exec_cases, quiet,
  All, Any, All-map, arith, Bool-cases, Option-cases, ==_iff, length-append, length-replicate,
  ltb→lt, ltb→ge, lt→ltb, leb→le,
}
use aegis_protocol.Oracle.Aggregate.{OracleSubmission, Outlier, median, detect_outliers}

-- The fields of `types.OracleRound` that the analysis reads.
pub record OracleRound : Type 0 where
  pub round_id : ℕ
  pub feed_id : Text
  pub state : Text
  pub aggregated_value : ℕ

-- `SubmissionSignature` of the store and `Verify`, for one chain.
pub record Signatures : Type 0 where
  pub signature : ℕ → Text → Option Text
  pub verify : ℕ → Text → ℕ → Text → ℕ → Text → Option Bool

pub data Standing : Type 0 where
  is_valid is_invalid is_unverifiable : Standing

verified : Option Bool → Standing
verified none = is_invalid
verified (some true) = is_valid
verified (some false) = is_invalid

-- The body of the loop of `partitionBySignature`.
pub standing : Signatures → OracleRound → OracleSubmission → Standing
unfolding verified
standing s round sub = elim (s.signature round.round_id sub.node) [
  | none ↦ is_invalid
  | some signature ↦
      if not sub.nonce_known
      then is_unverifiable
      else verified (s.verify round.round_id round.feed_id sub.value sub.node sub.nonce signature)
]

pub record Partition : Type 0 where
  pub valid : List OracleSubmission
  pub invalid : List OracleSubmission
  pub unverifiable : List OracleSubmission

abbrev put_in : Standing → OracleSubmission → Partition → Partition
put_in is_valid sub p = record p { valid = sub ∷ p.valid }
put_in is_invalid sub p = record p { invalid = sub ∷ p.invalid }
put_in is_unverifiable sub p = record p { unverifiable = sub ∷ p.unverifiable }

pub partition_by_signature : Signatures → OracleRound → List OracleSubmission → Partition
unfolding standing
partition_by_signature s round [] = record { valid = []; invalid = []; unverifiable = [] }
partition_by_signature s round (sub ∷ submissions) =
    put_in (standing s round sub) sub (partition_by_signature s round submissions)

abbrev pub counted : Partition → List OracleSubmission
counted p = p.valid ++ p.unverifiable

-- The service's own median.
pub service_value : Partition → ℕ
service_value p = median (map (λ sub. sub.value) (counted p))

unfoldable pub mismatch : OracleRound → Partition → Bool
unfolding service_value
mismatch round p =
    text_eq round.state (codes "settled") && not (service_value p == round.aggregated_value)

abbrev pub reason_invalid_signature : Text
reason_invalid_signature = codes "INVALID_SIGNATURE"

abbrev pub reason_outlier : Text
reason_outlier = codes "OUTLIER_SUBMISSION"

abbrev pub penalty_invalid_signature_bps : ℕ
penalty_invalid_signature_bps = 500

abbrev pub penalty_outlier_bps : ℕ
penalty_outlier_bps = 100

-- A call of `decide`: node, reason and basis points.
pub record Charge : Type 0 where
  pub node : Text
  pub reason : Text
  pub bps : ℕ

-- The two loops of `analyse` that decide penalties, in order.
pub charges : ℕ → Partition → List Charge
unfolding service_value
charges threshold p =
    map
      (λ sub. record {
        node = sub.node;
        reason = reason_invalid_signature;
        bps = penalty_invalid_signature_bps;
      })
      p.invalid
    ++ map (λ o. record { node = o.node; reason = reason_outlier; bps = penalty_outlier_bps })
        (detect_outliers (counted p) (service_value p) threshold)

-- The charges of `analyse` that follow from a round's submissions.
pub charges_of_round : Signatures → ℕ → OracleRound → List OracleSubmission → List Charge
unfolding charges partition_by_signature
charges_of_round s threshold round submissions =
    charges threshold (partition_by_signature s round submissions)

-- The amount that `decide` records for a stake: none where the penalty rounds to zero.
unfoldable pub decided_amount : ℕ → ℕ → Option ℕ
decided_amount staked bps =
    let amount = staked * bps / 10000 in if amount == 0 then none else some amount
