-- ===== src/Indexer/StakingTables.antt =====
-- The node rows, slashings and intervals of internal/db/oracle.go, with the statements that the staking handler runs on them and the constraints of
-- migrations/000002, 000006 and 000009 that these can meet.
use aegis_protocol.Base.{
  ℕ, Bool, true, not, ◌&&◌, ◌||◌, List, [], ◌∷◌, map, Option, none, some, any_of, ltb, leb, ◌==◌,
  if◌then◌else◌, Text, text_eq, Action, ◌>>=◌, throw, gets, exec, returning,
}
use aegis_protocol.Indexer.Event.{IndexError, store_failed, foreign_key}
use aegis_protocol.Indexer.Table.{insert_new, upsert}
use aegis_protocol.Indexer.Vault.{AssetMetadata, same_asset, is_asset}

-- A row of oracle_nodes.
pub record OracleNode : Type 0 where
  pub chain_id : ℕ
  pub address : Text
  pub stake_asset : Text
  pub staked_amount : ℕ
  pub slashed_total : ℕ
  pub pending_unstake : ℕ
  pub claimable_at : Option ℕ
  pub active : Bool
  pub registered_at : ℕ

-- `NodeStakeEvent`.
pub record NodeStakeEvent : Type 0 where
  pub chain_id : ℕ
  pub address : Text
  pub stake_asset : Text
  pub staked_amount : ℕ
  pub at : ℕ

-- The columns that an execution sets together.
pub record Execution : Type 0 where
  pub at : ℕ
  pub tx_hash : Text
  pub log_index : ℕ
  pub block_number : ℕ

-- A row of oracle_slashings, as far as the indexer writes it.
pub record SlashRow : Type 0 where
  pub chain_id : ℕ
  pub node : Text
  pub round_id : ℕ
  pub amount : ℕ
  pub reason : Text
  pub decided_at : ℕ
  pub execution : Option Execution

-- `Slash`.
pub record Slash : Type 0 where
  pub chain_id : ℕ
  pub node : Text
  pub round_id : ℕ
  pub amount : ℕ
  pub remaining_stake : ℕ
  pub reason : Text
  pub tx_hash : Text
  pub log_index : ℕ
  pub block_number : ℕ
  pub at : ℕ

-- A deactivation: its version, its instant and its reason, which the table sets together.
pub record Deactivation : Type 0 where
  pub version : ℕ
  pub at : ℕ
  pub reason : Text

-- A row of oracle_node_intervals.
pub record Interval : Type 0 where
  pub chain_id : ℕ
  pub node : Text
  pub activated_version : ℕ
  pub activated_at : ℕ
  pub deactivated : Option Deactivation

pub record StakingState : Type 0 where
  pub assets : List AssetMetadata
  pub nodes : List OracleNode
  pub slashings : List SlashRow
  pub intervals : List Interval
  pub asset_saved : Bool

abbrev pub StakingAction : Type 0 → Type 0
StakingAction A = Action IndexError StakingState A

abbrev pub is_node : ℕ → Text → OracleNode → Bool
is_node chain_id address n = n.chain_id == chain_id && text_eq n.address address

-- A scale above 38 is refused.
unfoldable pub upsert_asset : AssetMetadata → StakingAction (Unit {0})
unfolding exec
upsert_asset a =
    if leb a.decimals 38
    then exec store_failed (λ s. record s { assets = upsert same_asset a s.assets })
    else throw store_failed

-- qUpsertNode, which on a conflict sets only the stake and `active`.
unfoldable pub upsert_node : NodeStakeEvent → List OracleNode → List OracleNode
upsert_node e [] =
    record {
      chain_id = e.chain_id;
      address = e.address;
      stake_asset = e.stake_asset;
      staked_amount = e.staked_amount;
      slashed_total = 0;
      pending_unstake = 0;
      claimable_at = none;
      active = true;
      registered_at = e.at;
    }
    ∷ []
upsert_node e (n ∷ rows) =
    if is_node e.chain_id e.address n
    then record n { staked_amount = e.staked_amount; active = true } ∷ rows
    else n ∷ upsert_node e rows

-- A new row wants its asset.
unfoldable pub upsert_oracle_node : NodeStakeEvent → StakingAction (Unit {0})
unfolding exec upsert_node
upsert_oracle_node e = do
  allowed ← gets (λ s.
      any_of (is_node e.chain_id e.address) s.nodes
      || any_of (is_asset e.chain_id e.stake_asset) s.assets)
  if allowed
      then exec store_failed (λ s. record s { nodes = upsert_node e s.nodes })
      else throw foreign_key

-- `UPDATE oracle_nodes SET … WHERE chain_id = $1 AND address = $2`.
abbrev pub on_node : ℕ → Text → (OracleNode → OracleNode) → OracleNode → OracleNode
on_node chain_id address f n = if is_node chain_id address n then f n else n

abbrev pub update_nodes : (OracleNode → OracleNode) → StakingAction (Unit {0})
update_nodes f = exec store_failed (λ s. record s { nodes = map f s.nodes })

unfoldable pub stake_row : ℕ → Text → ℕ → OracleNode → OracleNode
stake_row chain_id node stake = on_node chain_id node (λ n. record n { staked_amount = stake })

unfoldable pub unstake_row : ℕ → Text → ℕ → Option ℕ → OracleNode → OracleNode
unstake_row chain_id node pending claimable_at =
    on_node chain_id node (λ n. record n { pending_unstake = pending; claimable_at = claimable_at })

unfoldable pub active_row : ℕ → Text → Bool → OracleNode → OracleNode
active_row chain_id node active = on_node chain_id node (λ n. record n { active = active })

unfoldable pub set_oracle_node_stake : ℕ → Text → ℕ → StakingAction (Unit {0})
unfolding exec stake_row
set_oracle_node_stake chain_id node stake = update_nodes (stake_row chain_id node stake)

unfoldable pub set_oracle_node_unstake : ℕ → Text → ℕ → Option ℕ → StakingAction (Unit {0})
unfolding exec unstake_row
set_oracle_node_unstake chain_id node pending claimable_at =
    update_nodes (unstake_row chain_id node pending claimable_at)

unfoldable pub set_oracle_node_active : ℕ → Text → Bool → StakingAction (Unit {0})
unfolding exec active_row
set_oracle_node_active chain_id node active = update_nodes (active_row chain_id node active)

abbrev pub same_interval : Interval → Interval → Bool
same_interval a b =
    a.chain_id == b.chain_id && text_eq a.node b.node && a.activated_version == b.activated_version

unfoldable pub open_oracle_node_interval : ℕ → Text → ℕ → ℕ → StakingAction (Unit {0})
unfolding exec
open_oracle_node_interval chain_id node version at =
    let i : Interval = record {
      chain_id = chain_id;
      node = node;
      activated_version = version;
      activated_at = at;
      deactivated = none;
    } in
    exec store_failed (λ s. record s { intervals = insert_new same_interval i s.intervals })

-- The interval is the node's and began before the version.
abbrev pub began_before : ℕ → Text → ℕ → Interval → Bool
began_before chain_id node version i =
    i.chain_id == chain_id && text_eq i.node node && ltb i.activated_version version

-- `MAX(activated_version) … AND activated_version < $3` is at most `bound`.
unfoldable pub none_later : ℕ → Text → ℕ → ℕ → List Interval → Bool
none_later chain_id node version bound [] = true
none_later chain_id node version bound (i ∷ rows) =
    not (began_before chain_id node version i && ltb bound i.activated_version)
    && none_later chain_id node version bound rows

abbrev pub open_or_at : ℕ → Option Deactivation → Bool
open_or_at version none = true
open_or_at version (some d) = d.version == version

-- The `WHERE` of qCloseNodeInterval, over all rows.
unfoldable pub is_closed_by : ℕ → Text → ℕ → List Interval → Interval → Bool
unfolding none_later
is_closed_by chain_id node version rows i =
    began_before chain_id node version i
    && none_later chain_id node version i.activated_version rows
    && open_or_at version i.deactivated

abbrev pub close_row : ℕ → Text → Deactivation → List Interval → Interval → Interval
close_row chain_id node d rows i =
    if is_closed_by chain_id node d.version rows i then record i { deactivated = some d } else i

-- The rows after qCloseNodeInterval, and whether it found one.
unfoldable pub close_interval : ℕ → Text → Deactivation → List Interval → Bool × List Interval
unfolding is_closed_by
close_interval chain_id node d rows = (
  any_of (is_closed_by chain_id node d.version rows) rows,
  map (close_row chain_id node d rows) rows,
)

unfoldable pub close_oracle_node_interval : ℕ → Text → Deactivation → StakingAction Bool
unfolding returning close_interval
close_oracle_node_interval chain_id node d = returning store_failed (λ s.
    let (found, rows) = close_interval chain_id node d s.intervals in
    (found, record s { intervals = rows }))
