-- ===== src/Oracle/Missed.antt =====
-- internal/oracle/missed.go: which silences count as misses, and what they cost. Instants and
-- node-set versions are numbers; `Submitters` is the list of the map's keys, all of which the
-- store maps to true.
pub mod Verdicts
pub mod Streaks
use aegis_protocol.Base.{
  ℕ, ◌+◌, Bool, true, false, not, ◌&&◌, ◌||◌, List, [], ◌∷◌, ◌++◌, Option, none, some, ltb, leb,
  suc, any_of, Text, codes, text_eq, text_lt, if◌then◌else◌,
}
use aegis_protocol.Base.Sort.{sort_by}

-- Deactivation reasons, as the contract writes them.
abbrev pub deactivation_unstake_requested : Text
deactivation_unstake_requested = codes "UNSTAKE_REQUESTED"

abbrev pub deactivation_manual : Text
deactivation_manual = codes "MANUAL"

abbrev pub deactivation_below_stake_floor : Text
deactivation_below_stake_floor = codes "BELOW_STAKE_FLOOR"

-- A period in the active set, [activated, deactivated).
pub record NodeInterval : Type 0 where
  pub node : Text
  pub activated : ℕ
  pub deactivated : Option ℕ
  pub deactivated_at : Option ℕ
  pub reason : Text

pub contains : NodeInterval → ℕ → Bool
contains iv version =
    if ltb version iv.activated
    then false
    else elim iv.deactivated [ none ↦ true | some d ↦ ltb version d ]

pub record JudgedRound : Type 0 where
  pub round_id : ℕ
  pub node_set_version : ℕ
  pub deadline : ℕ
  pub settled_at : Option ℕ
  pub submitters : List Text

pub data Outcome : Type 0 where
  submitted missed excused : Outcome

pub record Verdict : Type 0 where
  pub node : Text
  pub outcome : Outcome
  pub why : Text

-- `round.Submitters[node]`, and membership in `seen`.
abbrev pub mem_text : Text → List Text → Bool
mem_text n names = any_of (λ m. text_eq m n) names

abbrev pub is_empty {ℓ} : {A : Type ℓ} → List A → Bool
is_empty [] = true
is_empty (_ ∷ _) = false

-- A removal before the deadline that the node did not ask for.
removed_within_window : NodeInterval → ℕ → Bool
removed_within_window iv deadline = elim iv.deactivated [
  | none ↦ false
  | some _ ↦ elim iv.deactivated_at [
    | none ↦ false
    | some at ↦
        if not (text_eq iv.reason deactivation_manual)
          && not (text_eq iv.reason deactivation_below_stake_floor)
        then false
        else ltb at deadline
  ]
]

closed_early : JudgedRound → Bool
closed_early round = elim round.settled_at [ none ↦ false | some at ↦ ltb at round.deadline ]

-- The `switch` of `JudgeRound`, for the first interval of a node that contains the version.
verdict_for : JudgedRound → NodeInterval → Verdict
unfolding removed_within_window closed_early
verdict_for round iv =
    if mem_text iv.node round.submitters
    then record { node = iv.node; outcome = submitted; why = [] }
    else if is_empty round.submitters
    then record { node = iv.node; outcome = excused; why = codes "no node submitted" }
    else if closed_early round
    then record {
      node = iv.node;
      outcome = excused;
      why = codes "the round settled before its deadline";
    }
    else if removed_within_window iv round.deadline
    then record {
      node = iv.node;
      outcome = excused;
      why = codes "removed before the deadline: " ++ iv.reason;
    }
    else record { node = iv.node; outcome = missed; why = [] }

-- The loop of `JudgeRound`, over the intervals left and the nodes seen.
judge_from : JudgedRound → List Text → List NodeInterval → List Verdict
unfolding verdict_for contains
judge_from round seen [] = []
judge_from round seen (iv ∷ intervals) =
    let skip = judge_from round seen intervals in
    let judged = verdict_for round iv ∷ judge_from round (iv.node ∷ seen) intervals in
    if mem_text iv.node seen || not (contains iv round.node_set_version) then skip else judged

abbrev pub by_node : Verdict → Verdict → Bool
by_node a b = text_lt a.node b.node

pub judge_round : JudgedRound → List NodeInterval → List Verdict
unfolding judge_from
judge_round round intervals = sort_by by_node (judge_from round [] intervals)

-- Penalties.
abbrev pub consecutive_miss_limit : ℕ
consecutive_miss_limit = 3

abbrev pub reason_missed_round : Text
reason_missed_round = codes "MISSED_ROUND"

abbrev pub reason_consecutive_misses : Text
reason_consecutive_misses = codes "CONSECUTIVE_MISSES"

pub record Penalty : Type 0 where
  pub reason : Text
  pub bps : ℕ

abbrev pub missed_round_penalty : Penalty
missed_round_penalty = record { reason = reason_missed_round; bps = 50 }

abbrev pub consecutive_misses_penalty : Penalty
consecutive_misses_penalty = record { reason = reason_consecutive_misses; bps = 1000 }

-- The loop of `PenaltiesFor`: one entry for each outcome, nil where there is no penalty.
penalties_from : ℕ → List Outcome → List (Option Penalty)
penalties_from streak [] = []
penalties_from streak (submitted ∷ outcomes) = none ∷ penalties_from 0 outcomes
penalties_from streak (excused ∷ outcomes) = none ∷ penalties_from streak outcomes
penalties_from streak (missed ∷ outcomes) =
    let restart = some consecutive_misses_penalty ∷ penalties_from 0 outcomes in
    let go_on = some missed_round_penalty ∷ penalties_from (suc streak) outcomes in
    if leb consecutive_miss_limit (suc streak) then restart else go_on

pub penalties_for : List Outcome → List (Option Penalty)
unfolding penalties_from
penalties_for outcomes = penalties_from 0 outcomes
