-- ===== src/Indexer/SlashTables.antt =====
-- `RecordOracleSlash` of internal/db/oracle.go: the three statements of one transaction.
use aegis_protocol.Base.{
  ◌+◌, Bool, true, false, not, ◌&&◌, ◌||◌, List, [], ◌∷◌, ◌++◌, map, Option, none, some, any_of,
  ◌==◌, if◌then◌else◌, text_eq, ◌>>=◌, throw, gets, exec,
}
use aegis_protocol.Indexer.Event.{store_failed}
use aegis_protocol.Indexer.StakingTables.{
  OracleNode, Execution, SlashRow, Slash, StakingAction, is_node, on_node,
}

-- UNIQUE (chain_id, tx_hash, log_index), which rows that were never executed do not meet.
abbrev pub is_event : Slash → SlashRow → Bool
is_event sl r = elim r.execution [
  | none ↦ false
  | some e ↦
      r.chain_id == sl.chain_id && text_eq e.tx_hash sl.tx_hash && e.log_index == sl.log_index
]

-- The index of migrations/000006_slash_execution.up.sql: one penalty of a node in a round.
abbrev pub is_penalty : Slash → SlashRow → Bool
is_penalty sl r = r.chain_id == sl.chain_id && text_eq r.node sl.node && r.round_id == sl.round_id

is_pending : Option Execution → Bool
is_pending none = true
is_pending (some e) = false

-- The `WHERE` of qReconcileSlash.
unfoldable pub is_decision : Slash → SlashRow → Bool
unfolding is_pending
is_decision sl r = is_penalty sl r && is_pending r.execution

abbrev pub execution_of : Slash → Execution
execution_of sl = record {
  at = sl.at;
  tx_hash = sl.tx_hash;
  log_index = sl.log_index;
  block_number = sl.block_number;
}

unfoldable pub reconcile_row : Slash → SlashRow → SlashRow
unfolding is_decision
reconcile_row sl r =
    if is_decision sl r
    then record r { amount = sl.amount; execution = some (execution_of sl) }
    else r

abbrev pub executed_row : Slash → SlashRow
executed_row sl = record {
  chain_id = sl.chain_id;
  node = sl.node;
  round_id = sl.round_id;
  amount = sl.amount;
  reason = sl.reason;
  decided_at = sl.at;
  execution = some (execution_of sl);
}

-- qReconcileSlash, and qRecordSlash when it changed no row; `none` where a constraint refuses: an
-- event or a penalty that another row has, or a node that has no row.
unfoldable pub record_rows : Slash → List OracleNode → List SlashRow → Option (List SlashRow)
unfolding reconcile_row
record_rows sl nodes rows =
    if any_of (is_decision sl) rows
    then (if any_of (is_event sl) rows then none else some (map (reconcile_row sl) rows))
    else if any_of (is_event sl) rows
    then some rows
    else if any_of (is_penalty sl) rows || not (any_of (is_node sl.chain_id sl.node) nodes)
    then none
    else some (rows ++ executed_row sl ∷ [])

-- qApplySlash.
unfoldable pub apply_slash : Slash → OracleNode → OracleNode
apply_slash sl = on_node sl.chain_id sl.node (λ n. record n {
  staked_amount = sl.remaining_stake;
  slashed_total = n.slashed_total + sl.amount;
})

commit_slash : Slash → Option (List SlashRow) → StakingAction (Unit {0})
unfolding exec apply_slash
commit_slash sl none = throw store_failed
commit_slash sl (some rows) =
    exec store_failed (λ s. record s { slashings = rows; nodes = map (apply_slash sl) s.nodes })

-- The column's CHECK refuses an amount of zero. A failure of any of the statements rolls back all.
unfoldable pub record_oracle_slash : Slash → StakingAction (Unit {0})
unfolding record_rows commit_slash
record_oracle_slash sl = do
  recorded ← gets (λ s. if sl.amount == 0 then none else record_rows sl s.nodes s.slashings)
  commit_slash sl recorded
