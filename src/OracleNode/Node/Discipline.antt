-- ===== src/OracleNode/Node/Discipline.antt =====
-- The submissions of a step of the node (internal/oraclenode/node.go).
use aegis_protocol.Base.{
  ℕ, ◌+◌, ◌<◌, ◌≡◌, refl, inl, inr, true, false, List, leb, Text, Result, ok, err, All, arith,
  Bool-cases,
}
use aegis_protocol.OracleNode.Fetch.{
  Source, FetchError, price, cancelled, source_failed, too_few_sources,
}
use aegis_protocol.OracleNode.Node.{
  RoundView, Node, Sent, on_submit, on_current, on_price, on_round, step,
}

-- The round takes a submission of this node, with more time left than the headroom.
pub record MaySubmit (n : Node) (now : ℕ) (r : RoundView) : Type 0 where
  pub is_open : r.open_round ≡ true
  pub is_new : r.submitted ≡ false
  pub is_eligible : r.eligible ≡ true
  pub in_time : now + n.opts.submit_before < r.deadline

-- A submission follows from the current round and the price of its sources.
pub record IsJustified (n : Node) (now : ℕ) (finished : List Source) (sent : Sent) : Type 0 where
  pub round : RoundView
  pub current : n.chain.current_round n.opts.feed_id ≡ ok round
  pub may_submit : MaySubmit n now round
  pub value : ℕ
  pub priced : (price n.fetcher round.decimals finished).0 ≡ ok value
  pub is_sent : sent ≡ (round.round_id, round.feed_id, value)

module _ (n : Node) (now : ℕ) (finished : List Source) (r : RoundView)
    (e : n.chain.current_round n.opts.feed_id ≡ ok r) where
  on_submit-IsJustified :
      (v : ℕ) (answer : Result Text Text)
      → MaySubmit n now r
      → (price n.fetcher r.decimals finished).0 ≡ ok v
      → All (IsJustified n now finished) (on_submit (r.round_id, r.feed_id, v) answer).1
  unfolding on_submit
  on_submit-IsJustified v (ok tx) m p =
      (record { round = r; current = e; may_submit = m; value = v; priced = p; is_sent = refl }, tt)
  on_submit-IsJustified v (err x) m p =
      (record { round = r; current = e; may_submit = m; value = v; priced = p; is_sent = refl }, tt)

  on_price-IsJustified :
      (p : Result FetchError ℕ)
      → MaySubmit n now r
      → (price n.fetcher r.decimals finished).0 ≡ p
      → All (IsJustified n now finished) (on_price n.chain r p).1
  unfolding on_price
  on_price-IsJustified (ok v) m k =
      on_submit-IsJustified v (n.chain.submit r.round_id r.feed_id v) m k
  on_price-IsJustified (err (too_few_sources a b c)) m k = tt
  on_price-IsJustified (err cancelled) m k = tt
  on_price-IsJustified (err (source_failed a b)) m k = tt

  on_round-IsJustified : All (IsJustified n now finished) (on_round n now finished r).1
  unfolding on_round
  on_round-IsJustified = elim (Bool-cases r.open_round) [
    | inr o ↦ rw o tt
    | inl o ↦ elim (Bool-cases r.submitted) [
      | inl s ↦ rw (o, s) tt
      | inr s ↦ elim (Bool-cases r.eligible) [
        | inr g ↦ rw (o, s, g) tt
        | inl g ↦ elim (Bool-cases (leb r.deadline (now + n.opts.submit_before))) [
          | inl t ↦ rw (o, s, g, t) tt
          | inr t ↦
              rw (o, s, g, t)
                (on_price-IsJustified (price n.fetcher r.decimals finished).0
                  (record { is_open = o; is_new = s; is_eligible = g; in_time = ground arith })
                  refl)
        ]
      ]
    ]
  ]

-- The node sends a submission only for the current round of its feed, while that is open, takes it
-- from this node and has none from it, with more time left than the headroom; and what it sends is
-- the price that its sources gave.
pub step-IsJustified :
    (n : Node) (now : ℕ) (finished : List Source)
    → All (IsJustified n now finished) (step n now finished).1
unfolding step
step-IsJustified n now finished = go (n.chain.current_round n.opts.feed_id) refl
  where
    go :
        (current : Result Text RoundView)
        → n.chain.current_round n.opts.feed_id ≡ current
        → All (IsJustified n now finished) (on_current n now finished current).1
    go (ok r) e = on_round-IsJustified n now finished r e
    go (err x) e = tt
