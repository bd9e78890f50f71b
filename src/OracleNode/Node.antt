-- ===== src/OracleNode/Node.antt =====
-- internal/oraclenode/node.go: one round of the node. The chain is a parameter, and so is the clock;
-- the fetcher's part is `price`, in the order in which its sources finish.
pub mod Discipline
use aegis_protocol.Base.{
  ℕ, zero, suc, ◌+◌, ◌-◌, ◌*◌, ◌/◌, ◌%◌, ◌^◌, ◌≤◌, ◌<◌, ◌≡◌, ◌≢◌, ◌↔◌, ◌⊎◌, refl, ap, sym, ◌∙◌,
  subst, inl, inr, Bool, true, false, not, ◌&&◌, ◌||◌, List, [], ◌∷◌, ◌++◌, map, Option, none, some,
  length, take, drop, replicate, get_or, any_of, count_if, keep_if, ltb, leb, ◌==◌, if◌then◌else◌,
  Text, codes, text_eq, text_lt, text_eq_refl, text_eq→eq, text_eq_iff, Result, ok, err, World,
  Action, ◌>>=◌, ◌>>◌, pure, throw, lift, gets, modify, exec, query, returning, exec_cases, quiet,
  All, Any, All-map, arith, Bool-cases, Option-cases, ==_iff, length-append, length-replicate,
  ltb→lt, ltb→ge, lt→ltb, leb→le,
}
use aegis_protocol.OracleNode.Fetch.{
  Source, FetchError, Fetcher, price, cancelled, source_failed, too_few_sources,
}

pub record RoundView : Type 0 where
  pub round_id : ℕ
  pub feed_id : Text
  pub decimals : ℕ
  pub deadline : ℕ
  pub open_round : Bool
  pub eligible : Bool
  pub submitted : Bool

-- `Chain`: the methods that the node calls.
pub record Chain : Type 0 where
  pub current_round : Text → Result Text RoundView
  pub submit : ℕ → Text → ℕ → Result Text Text

pub record NodeOptions : Type 0 where
  pub feed_id : Text
  pub poll_interval : ℕ
  pub submit_before : ℕ

-- The defaults, in milliseconds.
with_defaults : NodeOptions → NodeOptions
with_defaults opts = record opts {
  poll_interval = if opts.poll_interval == 0 then 5000 else opts.poll_interval;
  submit_before = if opts.submit_before == 0 then 15000 else opts.submit_before;
}

-- `NewNode`.
pub record Node : Type 0 where
  pub chain : Chain
  pub fetcher : Fetcher
  pub opts : NodeOptions

unfoldable pub new_node : Chain → Fetcher → NodeOptions → Node
unfolding with_defaults
new_node chain fetcher opts = record { chain = chain; fetcher = fetcher; opts = with_defaults opts }

pub data NodeError : Type 0 where
  read_failed : Text → NodeError
  fetch_failed : FetchError → NodeError
  submit_failed : Text → NodeError

-- A call of `Submit`: round, feed and value.
abbrev pub Sent : Type 0
Sent = ℕ × Text × ℕ

-- What a step returns, and the submissions that it sent.
abbrev pub NodeOutcome : Type 0
NodeOutcome = Result NodeError Bool × List Sent

skipped : NodeOutcome
skipped = (ok false, [])

on_submit : Sent → Result Text Text → NodeOutcome
on_submit sent (ok tx) = (ok true, sent ∷ [])
on_submit sent (err e) = (err (submit_failed e), sent ∷ [])

-- Too few sources is silence, anything else an error.
on_price : Chain → RoundView → Result FetchError ℕ → NodeOutcome
unfolding on_submit skipped
on_price chain r (ok value) =
    on_submit (r.round_id, r.feed_id, value) (chain.submit r.round_id r.feed_id value)
on_price chain r (err (too_few_sources answered total need)) = skipped
on_price chain r (err cancelled) = (err (fetch_failed cancelled), [])
on_price chain r (err (source_failed name e)) = (err (fetch_failed (source_failed name e)), [])

-- `remaining` is what is left of the deadline, negative when it has passed.
on_round : Node → ℕ → List Source → RoundView → NodeOutcome
unfolding skipped on_price price
on_round n now finished r =
    if not r.open_round
    then skipped
    else if r.submitted
    then skipped
    else if not r.eligible
    then skipped
    else if leb r.deadline (now + n.opts.submit_before)
    then skipped
    else on_price n.chain r (price n.fetcher r.decimals finished).0

on_current : Node → ℕ → List Source → Result Text RoundView → NodeOutcome
unfolding on_round
on_current n now finished (ok r) = on_round n now finished r
on_current n now finished (err e) = (err (read_failed e), [])

-- `Step`, at the time `now`, when the sources finish in the order `finished`.
unfoldable pub step : Node → ℕ → List Source → NodeOutcome
unfolding on_current
step n now finished = on_current n now finished (n.chain.current_round n.opts.feed_id)
