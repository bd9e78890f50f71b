-- ===== src/Indexer/Vault/Replay.antt =====
-- The vault handler (internal/indexer/vault.go) on an event delivered again.
use aegis_protocol.Base.{◌≡◌, true, any_of, List, text_eq_refl, ok, exec, quiet, arith}
use aegis_protocol.Indexer.Event.{Event}
use aegis_protocol.Indexer.Table.{insert_new, insert_new_idem, any_of-insert_new}
use aegis_protocol.Indexer.Vault.{
  VaultEvent, VaultHandler, VaultState, same_vault_event, cache_get, ensure_asset, resolve_asset,
  ensure_vault, resolve_vault, record_vault, row, insert_vault_deposit, insert_vault_withdrawal,
  upsert_asset, upsert_vault, store_event, or_unresolved, handle,
}

event_again :
    (e : VaultEvent) (rows : List VaultEvent)
    → insert_new same_vault_event e (insert_new same_vault_event e rows)
      ≡ insert_new same_vault_event e rows
event_again e rows =
    insert_new_idem same_vault_event e rows (ground (arith, text_eq_refl e.tx_hash))

event_there :
    (e : VaultEvent) (rows : List VaultEvent)
    → any_of (same_vault_event e) (insert_new same_vault_event e rows) ≡ true
event_there e rows =
    any_of-insert_new same_vault_event e rows (ground (arith, text_eq_refl e.tx_hash))

-- An event that was handled without an error changes no row, and nothing that the process keeps,
-- when it is delivered again at once, with no other event in between.
pub vault_handle-replay :
    (h : VaultHandler) (ev : Event) (s : VaultState)
    → (handle h ev (quiet s)).0 ≡ ok tt
    → let s' = (handle h ev (quiet s)).1.state in handle h ev (quiet s') ≡ (ok tt, quiet s')
unfolding handle store_event ensure_asset resolve_asset ensure_vault resolve_vault record_vault row
    insert_vault_deposit insert_vault_withdrawal upsert_asset upsert_vault cache_get exec
    or_unresolved
vault_handle-replay h ev s e = grind (arith, event_again, event_there, text_eq_refl)
