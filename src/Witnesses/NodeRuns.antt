-- ===== src/Witnesses/NodeRuns.antt =====
-- The theorems on the oracle node at concrete inputs.
use aegis_protocol.Base.{
  ℕ, ◌*◌, ◌≤◌, ◌<◌, ◌≡◌, refl, true, false, List, [], ◌∷◌, length, count_if, ◌==◌, if◌then◌else◌,
  Text, codes, ok, err, All, arith,
}
use mathlib.Core.List.{Perm, Permᴰ}
use aegis_protocol.Base.Sort.{sort_ℕ}
use aegis_protocol.Oracle.Aggregate.{median}
use aegis_protocol.Oracle.Aggregate.Median.{within}
use aegis_protocol.OracleNode.Fetch.{Source, Fetcher, fetch_with_backoff, price}
use aegis_protocol.OracleNode.Fetch.Majority.{
  answers, AnswersBefore, fetch_with_backoff-answers, price-order, price-majority,
}
use aegis_protocol.OracleNode.Node.{RoundView, Node, step}
use aegis_protocol.OracleNode.Node.Discipline.{IsJustified, step-IsJustified}

-- A source that fails at its first attempt, and then answers with `value`.
abbrev source : Text → ℕ → Source
source name value = record {
  name = name;
  fetch = λ decimals k. if k == 0 then err (codes "timeout") else ok value;
  interrupted = λ k. false;
  ended = λ k. false;
}

abbrev sources : List Source
sources = source (codes "a") 100 ∷ source (codes "b") 9000 ∷ source (codes "c") 102 ∷ []

abbrev fetcher : Fetcher
fetcher = record { sources = sources; min_sources = 3; max_retries = 5 }

fetched : fetch_with_backoff fetcher 2 (source (codes "a") 100) ≡ ok 100
unfolding fetch_with_backoff
fetched = refl

fetch_with_backoff-answers_example : AnswersBefore (source (codes "a") 100) 2 5 100
fetch_with_backoff-answers_example =
    fetch_with_backoff-answers fetcher 2 (source (codes "a") 100) 100 fetched

abbrev finished : List Source
finished = source (codes "b") 9000 ∷ source (codes "a") 100 ∷ source (codes "c") 102 ∷ []

in_another_order : Perm finished sources
in_another_order = ∣ Permᴰ.swap refl refl ∣₁

price-order_example : (price fetcher 2 finished).0 ≡ (price fetcher 2 sources).0
price-order_example = price-order fetcher 2 in_another_order

priced : (price fetcher 2 finished).0 ≡ ok 102
unfolding price median sort_ℕ
priced = refl

most_within :
    length (answers fetcher 2 finished) < 2 * count_if (within 100 102) (answers fetcher 2 finished)
unfolding answers fetch_with_backoff
most_within = omega arith

price-majority_example : (3 ≤ length (answers fetcher 2 finished)) × (100 ≤ 102) × (102 ≤ 102)
price-majority_example =
    price-majority fetcher 2 finished 100 102 102 (omega arith) priced most_within

abbrev round : RoundView
round = record {
  round_id = 7;
  feed_id = codes "ETH-USD";
  decimals = 2;
  deadline = 100000;
  open_round = true;
  eligible = true;
  submitted = false;
}

abbrev node : Node
node = record {
  chain = record { current_round = λ feed. ok round; submit = λ id feed value. ok (codes "0xabc") };
  fetcher = fetcher;
  opts = record { feed_id = codes "ETH-USD"; poll_interval = 5000; submit_before = 15000 };
}

step-IsJustified_example : All (IsJustified node 1000 finished) (step node 1000 finished).1
step-IsJustified_example = step-IsJustified node 1000 finished
