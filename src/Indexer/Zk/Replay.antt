-- ===== src/Indexer/Zk/Replay.antt =====
-- The zk handler (internal/indexer/zk.go) on an event delivered again, and on fields that it does not
-- read.
use aegis_protocol.Base.{
  ℕ, ◌≡◌, refl, true, false, any_of, List, [], ◌∷◌, map, Text, codes, text_eq, text_eq_refl, ok,
  World, quiet, arith,
}
use aegis_protocol.Indexer.Event.{raw_field, bytes32_field, string_field, unix_field, Field, Event}
use aegis_protocol.Indexer.Table.{insert_new, insert_new_idem, any_of-insert_new}
use aegis_protocol.Indexer.Zk.{
  ZkCommitment, ZkPrivateAction, ZkActionRow, ZkHandler, ZkState, same_commitment,
  same_private_action, is_action, register_row, deregister_row, handle_commitment_inserted,
  handle_private_action, handle_action_registered, handle_action_deregistered, handle,
}

commitment_again :
    (c : ZkCommitment) (rows : List ZkCommitment)
    → insert_new same_commitment c (insert_new same_commitment c rows)
      ≡ insert_new same_commitment c rows
commitment_again c rows =
    insert_new_idem same_commitment c rows (ground (arith, text_eq_refl c.tx_hash))

private_action_again :
    (a : ZkPrivateAction) (rows : List ZkPrivateAction)
    → insert_new same_private_action a (insert_new same_private_action a rows)
      ≡ insert_new same_private_action a rows
private_action_again a rows =
    insert_new_idem same_private_action a rows (ground (arith, text_eq_refl a.tx_hash))

pub commitment_there :
    (c : ZkCommitment) (rows : List ZkCommitment)
    → any_of (same_commitment c) (insert_new same_commitment c rows) ≡ true
commitment_there c rows =
    any_of-insert_new same_commitment c rows (ground (arith, text_eq_refl c.tx_hash))

pub private_action_there :
    (a : ZkPrivateAction) (rows : List ZkPrivateAction)
    → any_of (same_private_action a) (insert_new same_private_action a rows) ≡ true
private_action_there a rows =
    any_of-insert_new same_private_action a rows (ground (arith, text_eq_refl a.tx_hash))

action_there :
    (a : ZkActionRow) (rows : List ZkActionRow)
    → any_of (is_action a.chain_id a.gate_address a.action_id) (register_row a rows) ≡ true
unfolding register_row
action_there a [] = ground (arith, text_eq_refl a.gate_address, text_eq_refl a.action_id)
action_there a (b ∷ rows) = ground (arith, action_there a rows)

register_again :
    (a : ZkActionRow) (rows : List ZkActionRow)
    → register_row a (register_row a rows) ≡ register_row a rows
unfolding register_row
register_again a [] = ground (arith, text_eq_refl a.gate_address, text_eq_refl a.action_id)
register_again a (b ∷ rows) = ground (arith, register_again a rows)

deregister_again :
    (c : ℕ) (g n : Text) (rows : List ZkActionRow)
    → map (deregister_row c g n) (map (deregister_row c g n) rows) ≡ map (deregister_row c g n) rows
deregister_again c g n [] = refl
deregister_again c g n (a ∷ rows) = ground (arith, deregister_again c g n rows)

module _ (h : ZkHandler) (ev : Event) (s : ZkState) where
  commitment_replay :
      (handle_commitment_inserted h ev (quiet s)).0 ≡ ok tt
      → let s' = (handle_commitment_inserted h ev (quiet s)).1.state in
        handle_commitment_inserted h ev (quiet s') ≡ (ok tt, quiet s')
  unfolding handle_commitment_inserted
  commitment_replay e = grind (arith, commitment_again, commitment_there)

  private_action_replay :
      (handle_private_action h ev (quiet s)).0 ≡ ok tt
      → let s' = (handle_private_action h ev (quiet s)).1.state in
        handle_private_action h ev (quiet s') ≡ (ok tt, quiet s')
  unfolding handle_private_action
  private_action_replay e = grind (arith, private_action_again, private_action_there)

  registered_replay :
      (handle_action_registered h ev (quiet s)).0 ≡ ok tt
      → let s' = (handle_action_registered h ev (quiet s)).1.state in
        handle_action_registered h ev (quiet s') ≡ (ok tt, quiet s')
  unfolding handle_action_registered
  registered_replay e = grind (arith, register_again, action_there)

  deregistered_replay :
      (handle_action_deregistered h ev (quiet s)).0 ≡ ok tt
      → let s' = (handle_action_deregistered h ev (quiet s)).1.state in
        handle_action_deregistered h ev (quiet s') ≡ (ok tt, quiet s')
  unfolding handle_action_deregistered
  deregistered_replay e = grind (arith, deregister_again)

-- An event that was handled without an error changes no row, and nothing that the process keeps,
-- when it is delivered again at once, with no other event in between.
pub handle-replay :
    (h : ZkHandler) (ev : Event) (s : ZkState)
    → (handle h ev (quiet s)).0 ≡ ok tt
    → let s' = (handle h ev (quiet s)).1.state in handle h ev (quiet s') ≡ (ok tt, quiet s')
unfolding handle
handle-replay h ev s e = ground (
  arith,
  commitment_replay h ev s,
  private_action_replay h ev s,
  registered_replay h ev s,
  deregistered_replay h ev s,
)

-- The event with one more field in front of its payload.
abbrev pub with_field : Text → Field → Event → Event
with_field key v ev = record ev { payload = (key, v) ∷ ev.payload }

-- A field whose key the handler does not read.
pub record IsUnread (key : Text) : Type 0 where
  pub not_leaf_index : text_eq key (codes "leafIndex") ≡ false
  pub not_commitment : text_eq key (codes "commitment") ≡ false
  pub not_root : text_eq key (codes "root") ≡ false
  pub not_timestamp : text_eq key (codes "timestamp") ≡ false
  pub not_nullifier : text_eq key (codes "nullifier") ≡ false
  pub not_action_id : text_eq key (codes "actionId") ≡ false
  pub not_name : text_eq key (codes "name") ≡ false

module _ (key k : Text) (v : Field) (ev : Event) (other : text_eq key k ≡ false) where
  raw_unread : raw_field (with_field key v ev) k ≡ raw_field ev k
  unfolding raw_field
  raw_unread = rw other

  bytes32_unread : bytes32_field (with_field key v ev) k ≡ bytes32_field ev k
  unfolding bytes32_field
  bytes32_unread = rw other

  string_unread : string_field (with_field key v ev) k ≡ string_field ev k
  unfolding string_field
  string_unread = rw other

  unix_unread : unix_field (with_field key v ev) k ≡ unix_field ev k
  unfolding unix_field raw_field
  unix_unread = rw other

-- Nothing that the event says beyond the fields above reaches a row, such as who sent a commitment
-- or an action: an event with any other field added is handled alike, whatever fails.
pub handle-unread :
    (h : ZkHandler) (key : Text) (v : Field) (ev : Event) (w : World ZkState)
    → IsUnread key
    → handle h (with_field key v ev) w ≡ handle h ev w
unfolding handle handle_commitment_inserted handle_private_action handle_action_registered
    handle_action_deregistered
handle-unread h key v ev w u = simp (
  raw_unread key (codes "leafIndex") v ev u.not_leaf_index,
  bytes32_unread key (codes "commitment") v ev u.not_commitment,
  bytes32_unread key (codes "root") v ev u.not_root,
  bytes32_unread key (codes "nullifier") v ev u.not_nullifier,
  bytes32_unread key (codes "actionId") v ev u.not_action_id,
  unix_unread key (codes "timestamp") v ev u.not_timestamp,
  string_unread key (codes "name") v ev u.not_name,
)
