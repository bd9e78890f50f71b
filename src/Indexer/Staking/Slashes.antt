-- ===== src/Indexer/Staking/Slashes.antt =====
-- A NodeSlashed event of internal/indexer/oracle_staking.go delivered again.
use aegis_protocol.Base.{
  ℕ, ◌+◌, ◌≡◌, refl, ap, sym, ◌∙◌, subst, Bool, true, false, ◌||◌, List, [], ◌∷◌, ◌++◌, map, some,
  any_of, Text, codes, text_eq, text_eq_refl, text_eq→eq, ok, World, quiet, arith,
}
use aegis_protocol.Indexer.Event.{Event, Identity, identity_field, raw_field, bytes32_field}
use aegis_protocol.Indexer.StakingTables.{OracleNode, StakingState, SlashRow, Slash, on_node}
use aegis_protocol.Indexer.SlashTables.{
  is_event, is_decision, reconcile_row, executed_row, record_rows, apply_slash, record_oracle_slash,
}
use aegis_protocol.Indexer.Staking.{
  OracleStakingHandler, slash_of, on_staking, staking_event, handle_slashed, handle,
  event_node_slashed, event_node_registered, event_node_staked, event_unstake_request,
  event_unstake_cancel, event_node_unstaked,
}

-- The row has the event.
event_of_executed : (sl : Slash) → is_event sl (executed_row sl) ≡ true
event_of_executed sl = ground (arith, text_eq_refl sl.tx_hash)

not_decided : (sl : Slash) (r : SlashRow) → is_decision sl (reconcile_row sl r) ≡ false
unfolding reconcile_row is_decision
not_decided sl r = ground arith

executed_decided : (sl : Slash) → is_decision sl (executed_row sl) ≡ false
unfolding is_decision
executed_decided sl = ground arith

none_decided :
    (sl : Slash) (rows : List SlashRow)
    → any_of (is_decision sl) (map (reconcile_row sl) rows) ≡ false
none_decided sl [] = refl
none_decided sl (r ∷ rows) = rw (not_decided sl r, none_decided sl rows)

has_event :
    (sl : Slash) (rows : List SlashRow)
    → any_of (is_decision sl) rows ≡ true
    → any_of (is_event sl) (map (reconcile_row sl) rows) ≡ true
unfolding reconcile_row is_decision
has_event sl [] h = absurd (ground arith)
has_event sl (r ∷ rows) h = ground (arith, has_event sl rows, text_eq_refl sl.tx_hash)

any_of-last :
    (p : SlashRow → Bool) (rows : List SlashRow) (r : SlashRow)
    → any_of p (rows ++ r ∷ []) ≡ any_of p rows || p r
any_of-last p [] r = ground arith
any_of-last p (q ∷ rows) r = ground (arith, any_of-last p rows r)

-- Once a slash is recorded, recording it again leaves the rows as they are.
recorded_again :
    (sl : Slash) (nodes nodes' : List OracleNode) (rows rows' : List SlashRow)
    → record_rows sl nodes rows ≡ some rows'
    → record_rows sl nodes' rows' ≡ some rows'
unfolding record_rows
recorded_again sl nodes nodes' rows rows' e = grind (
  arith,
  none_decided sl rows,
  has_event sl rows,
  any_of-last (is_decision sl) rows (executed_row sl),
  any_of-last (is_event sl) rows (executed_row sl),
  event_of_executed sl,
  executed_decided sl,
)

-- The node's total with the amount once more.
abbrev pub add_slashed : ℕ → Text → ℕ → OracleNode → OracleNode
add_slashed c a amount = on_node c a (λ n. record n { slashed_total = n.slashed_total + amount })

apply_again :
    (sl : Slash) (rows : List OracleNode)
    → map (apply_slash sl) (map (apply_slash sl) rows)
      ≡ map (add_slashed sl.chain_id sl.node sl.amount) (map (apply_slash sl) rows)
unfolding apply_slash
apply_again sl [] = refl
apply_again sl (n ∷ rows) = ground (arith, apply_again sl rows)

slash_again :
    (sl : Slash) (s : StakingState)
    → (record_oracle_slash sl (quiet s)).0 ≡ ok tt
    → let s' = (record_oracle_slash sl (quiet s)).1.state in
      record_oracle_slash sl (quiet s') ≡ (
        ok tt,
        quiet (record s' { nodes = map (add_slashed sl.chain_id sl.node sl.amount) s'.nodes }),
      )
unfolding record_oracle_slash
slash_again sl s e = grind (arith, recorded_again, apply_again)

-- What a NodeSlashed event of the staking contract carries.
pub record IsSlash (h : OracleStakingHandler) (ev : Event) (sl : Slash) : Type 0 where
  pub node : Identity
  pub reason : Text
  pub contract_is : text_eq ev.contract h.contract ≡ true
  pub name_is : text_eq ev.name event_node_slashed ≡ true
  pub node_is : identity_field ev (codes "node") ≡ ok node
  pub amount_is : raw_field ev (codes "amount") ≡ ok sl.amount
  pub remaining_is : raw_field ev (codes "remainingStake") ≡ ok sl.remaining_stake
  pub reason_is : bytes32_field ev (codes "reason") ≡ ok reason
  pub round_is : raw_field ev (codes "roundId") ≡ ok sl.round_id
  pub slash_is : slash_of ev (h.encode node) sl.amount sl.remaining_stake reason sl.round_id ≡ sl

other_name :
    (name other : Text)
    → text_eq name event_node_slashed ≡ true
    → text_eq event_node_slashed other ≡ false
    → text_eq name other ≡ false
other_name name other e k =
    subst (λ n. text_eq n other ≡ false) (sym (text_eq→eq name event_node_slashed e)) k

slash_name_first :
    (ev : Event)
    → text_eq ev.name event_node_slashed ≡ true
    → (text_eq ev.name event_node_registered ≡ false)
      × (text_eq ev.name event_node_staked ≡ false)
      × (text_eq ev.name event_unstake_request ≡ false)
      × (text_eq ev.name event_unstake_cancel ≡ false)
      × (text_eq ev.name event_node_unstaked ≡ false)
unfolding text_eq
slash_name_first ev e = (
  other_name ev.name event_node_registered e refl,
  other_name ev.name event_node_staked e refl,
  other_name ev.name event_unstake_request e refl,
  other_name ev.name event_unstake_cancel e refl,
  other_name ev.name event_node_unstaked e refl,
)

handle-IsSlash :
    (h : OracleStakingHandler) (ev : Event) (sl : Slash) (w : World StakingState)
    → IsSlash h ev sl
    → handle h ev w ≡ record_oracle_slash sl w
unfolding handle on_staking staking_event handle_slashed
handle-IsSlash h ev sl w i =
    let (a, b, c, d, e) = slash_name_first ev i.name_is in
    simp
      (
        i.contract_is, a, b, c, d, e, i.name_is, i.node_is, i.amount_is, i.remaining_is,
        i.reason_is, i.round_is,
      )
      (ap (λ x. record_oracle_slash x w) i.slash_is)

-- A NodeSlashed event that was handled without an error and is delivered again records no second
-- penalty and leaves the stake, but adds its amount to the node's slashed total once more.
pub handle-adds_again :
    (h : OracleStakingHandler) (ev : Event) (sl : Slash) (s : StakingState)
    → IsSlash h ev sl
    → (handle h ev (quiet s)).0 ≡ ok tt
    → let s' = (handle h ev (quiet s)).1.state in
      handle h ev (quiet s') ≡ (
        ok tt,
        quiet (record s' { nodes = map (add_slashed sl.chain_id sl.node sl.amount) s'.nodes }),
      )
handle-adds_again h ev sl s i =
    rw (handle-IsSlash h ev sl (quiet s) i) (λ e. handle-IsSlash h ev sl _ i ∙ slash_again sl s e)
