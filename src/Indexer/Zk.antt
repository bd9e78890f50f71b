-- ===== src/Indexer/Zk.antt =====
-- internal/indexer/zk.go with the statements of internal/db/zk.go that it runs.
pub mod Replay
pub mod Lasting
use aegis_protocol.Base.{
  ℕ, zero, suc, ◌+◌, ◌-◌, ◌*◌, ◌/◌, ◌%◌, ◌^◌, ◌≤◌, ◌<◌, ◌≡◌, ◌≢◌, ◌↔◌, ◌⊎◌, refl, ap, sym, ◌∙◌,
  subst, inl, inr, Bool, true, false, not, ◌&&◌, ◌||◌, List, [], ◌∷◌, ◌++◌, map, Option, none, some,
  length, take, drop, replicate, get_or, any_of, count_if, keep_if, ltb, leb, ◌==◌, if◌then◌else◌,
  Text, codes, text_eq, text_lt, text_eq_refl, text_eq→eq, text_eq_iff, Result, ok, err, World,
  Action, ◌>>=◌, ◌>>◌, pure, throw, lift, gets, modify, exec, query, returning, exec_cases, quiet,
  All, Any, All-map, arith, Bool-cases, Option-cases, ==_iff, length-append, length-replicate,
  ltb→lt, ltb→ge, lt→ltb, leb→le,
}
use aegis_protocol.Indexer.Event.{
  Identity, Event, Filter, IndexError, resolve_failed, store_failed, foreign_key, raw_field,
  bytes32_field, string_field, unix_field, hex_bytes32, low64,
}
use aegis_protocol.Indexer.Table.{insert_new, upsert}

abbrev pub event_commitment_inserted : Text
event_commitment_inserted = codes "CommitmentInserted"

abbrev pub event_private_action_executed : Text
event_private_action_executed = codes "PrivateActionExecuted"

abbrev pub event_action_registered : Text
event_action_registered = codes "ActionRegistered"

abbrev pub event_action_deregistered : Text
event_action_deregistered = codes "ActionDeregistered"

pub record ZkGateMetadata : Type 0 where
  pub chain_id : ℕ
  pub address : Text
  pub tree_address : Text
  pub verifier_address : Text

pub record ZkCommitment : Type 0 where
  pub chain_id : ℕ
  pub tree_address : Text
  pub leaf_index : ℕ
  pub commitment : Text
  pub root_after : Text
  pub tx_hash : Text
  pub log_index : ℕ
  pub block_number : ℕ
  pub inserted_at : ℕ

-- A row of zk_actions: `ZkActionRow` and the column `registered`.
pub record ZkActionRow : Type 0 where
  pub chain_id : ℕ
  pub gate_address : Text
  pub action_id : Text
  pub name : Text
  pub tx_hash : Text
  pub log_index : ℕ
  pub block_number : ℕ
  pub registered : Bool

pub record ZkPrivateAction : Type 0 where
  pub chain_id : ℕ
  pub gate_address : Text
  pub nullifier : Text
  pub action_id : Text
  pub root : Text
  pub tx_hash : Text
  pub log_index : ℕ
  pub block_number : ℕ
  pub executed_at : ℕ

-- The handler's fixed fields; `gate_metadata` is the gate's tree and verifier, or an error.
pub record ZkHandler : Type 0 where
  pub tree : Identity
  pub gate : Identity
  pub encode : Identity → Text
  pub gate_metadata : Option (Identity × Identity)
  pub chain_id : ℕ

pub record ZkState : Type 0 where
  pub gates : List ZkGateMetadata
  pub commitments : List ZkCommitment
  pub actions : List ZkActionRow
  pub private_actions : List ZkPrivateAction
  pub gate_set : Bool

abbrev pub ZkAction : Type 0 → Type 0
ZkAction A = Action IndexError ZkState A

abbrev pub same_gate : ZkGateMetadata → ZkGateMetadata → Bool
same_gate a b = a.chain_id == b.chain_id && text_eq a.address b.address

abbrev pub same_commitment : ZkCommitment → ZkCommitment → Bool
same_commitment a b =
    a.chain_id == b.chain_id && text_eq a.tx_hash b.tx_hash && a.log_index == b.log_index

abbrev pub same_private_action : ZkPrivateAction → ZkPrivateAction → Bool
same_private_action a b =
    a.chain_id == b.chain_id && text_eq a.tx_hash b.tx_hash && a.log_index == b.log_index

abbrev pub is_action : ℕ → Text → Text → ZkActionRow → Bool
is_action chain_id gate action_id a =
    a.chain_id == chain_id && text_eq a.gate_address gate && text_eq a.action_id action_id

upsert_zk_gate : ZkGateMetadata → ZkAction (Unit {0})
unfolding exec
upsert_zk_gate g = exec store_failed (λ s. record s { gates = upsert same_gate g s.gates })

abbrev pub is_gate : ℕ → Text → ZkGateMetadata → Bool
is_gate chain_id gate g = g.chain_id == chain_id && text_eq g.address gate

-- The keys (chain_id, tree_address, leaf_index) and (chain_id, tree_address, commitment).
abbrev pub same_leaf : ZkCommitment → ZkCommitment → Bool
same_leaf a b =
    a.chain_id == b.chain_id
    && text_eq a.tree_address b.tree_address
    && (a.leaf_index == b.leaf_index || text_eq a.commitment b.commitment)

-- The key (chain_id, gate_address, nullifier).
abbrev pub same_nullifier : ZkPrivateAction → ZkPrivateAction → Bool
same_nullifier a b =
    a.chain_id == b.chain_id
    && text_eq a.gate_address b.gate_address
    && text_eq a.nullifier b.nullifier

-- Whether an insert may go on: the row is there, and nothing happens, or no row has one of its other
-- keys. The index is stored as a signed number, which must not be negative.
abbrev pub may_insert_commitment : ZkCommitment → ZkState → Bool
may_insert_commitment c s =
    ltb c.leaf_index (2 ^ 63)
    && (any_of (same_commitment c) s.commitments || not (any_of (same_leaf c) s.commitments))

insert_zk_commitment : ZkCommitment → ZkAction (Unit {0})
unfolding exec
insert_zk_commitment c = do
  allowed ← gets (may_insert_commitment c)
  if allowed
      then exec store_failed
          (λ s. record s { commitments = insert_new same_commitment c s.commitments })
      else throw store_failed

-- The upsert of qUpsertZkAction, which on a conflict sets only the name and `registered`.
register_row : ZkActionRow → List ZkActionRow → List ZkActionRow
register_row a [] = record a { registered = true } ∷ []
register_row a (b ∷ rows) =
    if is_action a.chain_id a.gate_address a.action_id b
    then record b { name = a.name; registered = true } ∷ rows
    else b ∷ register_row a rows

-- The action wants its gate.
upsert_zk_action : ZkActionRow → ZkAction (Unit {0})
unfolding exec register_row
upsert_zk_action a = do
  allowed ← gets (λ s.
      any_of (is_action a.chain_id a.gate_address a.action_id) s.actions
      || any_of (is_gate a.chain_id a.gate_address) s.gates)
  if allowed
      then exec store_failed (λ s. record s { actions = register_row a s.actions })
      else throw foreign_key

abbrev pub deregister_row : ℕ → Text → Text → ZkActionRow → ZkActionRow
deregister_row chain_id gate action_id a =
    if is_action chain_id gate action_id a then record a { registered = false } else a

deregister_zk_action : ℕ → Text → Text → ZkAction (Unit {0})
unfolding exec
deregister_zk_action chain_id gate action_id =
    exec store_failed
      (λ s. record s { actions = map (deregister_row chain_id gate action_id) s.actions })

abbrev pub may_insert_private_action : ZkPrivateAction → ZkState → Bool
may_insert_private_action a s =
    any_of (same_private_action a) s.private_actions
    || not (any_of (same_nullifier a) s.private_actions)
      && any_of (is_gate a.chain_id a.gate_address) s.gates

insert_zk_private_action : ZkPrivateAction → ZkAction (Unit {0})
unfolding exec
insert_zk_private_action a = do
  allowed ← gets (may_insert_private_action a)
  if allowed
      then exec store_failed
          (λ s. record s { private_actions = insert_new same_private_action a s.private_actions })
      else throw store_failed

module _ (h : ZkHandler) where
  -- `Filters`.
  unfoldable pub filters : List Filter
  filters =
      record { contract = h.tree; names = event_commitment_inserted ∷ [] }
      ∷ record {
        contract = h.gate;
        names =
            event_private_action_executed ∷ event_action_registered ∷ event_action_deregistered
            ∷ [];
      }
      ∷ []

  record_gate : Option (Identity × Identity) → ZkAction (Unit {0})
  unfolding upsert_zk_gate
  record_gate none = throw resolve_failed
  record_gate (some (tree, verifier)) = do
    upsert_zk_gate (record {
      chain_id = h.chain_id;
      address = h.encode h.gate;
      tree_address = h.encode tree;
      verifier_address = h.encode verifier;
    })
    modify (λ s. record s { gate_set = true })

  -- `ensureGate`.
  ensure_gate : ZkAction (Unit {0})
  unfolding record_gate
  ensure_gate = do
    done ← gets (λ s. s.gate_set)
    if done then pure tt else record_gate h.gate_metadata

  handle_commitment_inserted : Event → ZkAction (Unit {0})
  unfolding insert_zk_commitment
  handle_commitment_inserted ev = do
    leaf_index ← lift (raw_field ev (codes "leafIndex"))
    commitment ← lift (bytes32_field ev (codes "commitment"))
    root ← lift (bytes32_field ev (codes "root"))
    inserted_at ← lift (unix_field ev (codes "timestamp"))
    insert_zk_commitment (record {
      chain_id = ev.chain_id;
      tree_address = h.encode h.tree;
      leaf_index = low64 leaf_index;
      commitment = hex_bytes32 commitment;
      root_after = hex_bytes32 root;
      tx_hash = ev.tx_hash;
      log_index = ev.log_index;
      block_number = ev.block_number;
      inserted_at = inserted_at;
    })

  handle_private_action : Event → ZkAction (Unit {0})
  unfolding ensure_gate insert_zk_private_action
  handle_private_action ev = do
    ensure_gate
    nullifier ← lift (bytes32_field ev (codes "nullifier"))
    action_id ← lift (bytes32_field ev (codes "actionId"))
    root ← lift (bytes32_field ev (codes "root"))
    insert_zk_private_action (record {
      chain_id = ev.chain_id;
      gate_address = h.encode h.gate;
      nullifier = hex_bytes32 nullifier;
      action_id = hex_bytes32 action_id;
      root = hex_bytes32 root;
      tx_hash = ev.tx_hash;
      log_index = ev.log_index;
      block_number = ev.block_number;
      executed_at = ev.block_time;
    })

  handle_action_registered : Event → ZkAction (Unit {0})
  unfolding ensure_gate upsert_zk_action
  handle_action_registered ev = do
    ensure_gate
    action_id ← lift (bytes32_field ev (codes "actionId"))
    name ← lift (string_field ev (codes "name"))
    upsert_zk_action (record {
      chain_id = ev.chain_id;
      gate_address = h.encode h.gate;
      action_id = hex_bytes32 action_id;
      name = name;
      tx_hash = ev.tx_hash;
      log_index = ev.log_index;
      block_number = ev.block_number;
      registered = true;
    })

  handle_action_deregistered : Event → ZkAction (Unit {0})
  unfolding deregister_zk_action
  handle_action_deregistered ev = do
    action_id ← lift (bytes32_field ev (codes "actionId"))
    deregister_zk_action ev.chain_id (h.encode h.gate) (hex_bytes32 action_id)

  -- `Handle`.
  unfoldable pub handle : Event → ZkAction (Unit {0})
  unfolding handle_commitment_inserted handle_private_action handle_action_registered
      handle_action_deregistered
  handle ev =
      if text_eq ev.contract h.tree && text_eq ev.name event_commitment_inserted
      then handle_commitment_inserted ev
      else if text_eq ev.contract h.gate && text_eq ev.name event_private_action_executed
      then handle_private_action ev
      else if text_eq ev.contract h.gate && text_eq ev.name event_action_registered
      then handle_action_registered ev
      else if text_eq ev.contract h.gate && text_eq ev.name event_action_deregistered
      then handle_action_deregistered ev
      else pure tt
