-- ===== src/Indexer/Vault/Scaled.antt =====
-- The vault handler (internal/indexer/vault.go) and the metadata of what it stores.
use aegis_protocol.Base.{
  ◌≡◌, ◌≢◌, true, not, ◌&&◌, exec, Text, refl, inl, inr, List, [], ◌∷◌, ◌++◌, any_of, if◌then◌else◌,
  codes, text_eq, Result, ok, err, World, ◌>>=◌, ◌>>◌, lift, exec_cases, All, arith, Bool-cases,
}
use aegis_protocol.Indexer.Event.{
  identity_field, raw_field, Event, Identity, IndexError, store_failed, foreign_key,
}
use aegis_protocol.Indexer.Table.{insert_new}
use aegis_protocol.Indexer.Vault.{
  VaultEvent, VaultHandler, VaultState, same_vault_event, ensure_asset, ensure_vault, row,
  insert_vault_deposit, insert_vault_withdrawal, store_event, handle, event_deposited,
  event_withdrawn, may_store, upsert_unless, refusal,
}
use aegis_protocol.Indexer.Vault.Metadata.{HasAsset, HasVault, IsScaled, IsBacked}
use aegis_protocol.Indexer.Vault.Resolve.{ensure_asset-IsBacked, ensure_vault-IsBacked}

insert_new-All :
    (P : VaultEvent → Type 0) (e : VaultEvent) (rows : List VaultEvent)
    → P e
    → All P rows
    → All P (insert_new same_vault_event e rows)
unfolding insert_new
insert_new-All P e rows p h = elim (Bool-cases (any_of (same_vault_event e) rows)) [
  | inl t ↦ rw t h
  | inr t ↦ rw t (last rows h)
]
  where
    last : (xs : List VaultEvent) → All P xs → All P (xs ++ e ∷ [])
    last [] k = (p, tt)
    last (x ∷ xs) k = (k.0, last xs k.1)

-- An outcome that keeps the rows backed, and is no violation of a foreign key.
abbrev Stays : VaultHandler → {A : Type 0} → Result IndexError A × World VaultState → Type 0
Stays h r = IsBacked h r.1.state × (r.0 ≢ err foreign_key)

stored_exec :
    (h : VaultHandler) (f : VaultState → VaultState) (w : World VaultState)
    → IsBacked h w.state
    → IsBacked h (f w.state)
    → Stays h (exec store_failed f w)
unfolding exec
stored_exec h f w b after = (exec_cases (IsBacked h) store_failed f w b after, λ e. ground arith)

insert_deposit-IsBacked :
    (h : VaultHandler) (e : VaultEvent) (w : World VaultState)
    → IsScaled w.state.assets w.state.vaults e
    → IsBacked h w.state
    → Stays h (insert_vault_deposit e w)
unfolding insert_vault_deposit
insert_deposit-IsBacked h e w p b =
    let allowed : may_store e w.state.deposits w.state ≡ true = ground (arith, p.0, p.1) in
    rw allowed (
      stored_exec h _ w b (record {
        deposits = insert_new-All _ e w.state.deposits p b.deposits;
        withdrawals = b.withdrawals;
        cached_assets = b.cached_assets;
        cached_vaults = b.cached_vaults;
      }))

insert_withdrawal-IsBacked :
    (h : VaultHandler) (e : VaultEvent) (w : World VaultState)
    → IsScaled w.state.assets w.state.vaults e
    → IsBacked h w.state
    → Stays h (insert_vault_withdrawal e w)
unfolding insert_vault_withdrawal
insert_withdrawal-IsBacked h e w p b =
    let allowed : may_store e w.state.withdrawals w.state ≡ true = ground (arith, p.0, p.1) in
    rw allowed (
      stored_exec h _ w b (record {
        deposits = b.deposits;
        withdrawals = insert_new-All _ e w.state.withdrawals p b.withdrawals;
        cached_assets = b.cached_assets;
        cached_vaults = b.cached_vaults;
      }))

after_bind :
    {A : Type 0} (h : VaultHandler) (m : Result IndexError A × World VaultState)
    (f : A → World VaultState → Result IndexError (Unit {0}) × World VaultState)
    → Stays h m
    → ((a : A) → m.0 ≡ ok a → Stays h (f a m.1))
    → Stays h (elim m.0 as (λ x. Result IndexError (Unit {0}) × World VaultState) [
      | ok a ↦ f a m.1
      | err e ↦ (err e, m.1)
    ])
after_bind h (ok a, w) f b k = k a refl
after_bind h (err e, w) f b k = (b.0, λ x. b.1 (ground arith))

-- No other call is refused by a foreign key, since a vault's asset comes before it.
field_found : (ev : Event) (key : Text) → identity_field ev key ≢ err foreign_key
unfolding identity_field
field_found ev key e = ground arith

amount_found : (ev : Event) (key : Text) → raw_field ev key ≢ err foreign_key
unfolding raw_field
amount_found ev key e = ground arith

asset_resolves :
    (h : VaultHandler) (asset : Identity) (w : World VaultState)
    → (ensure_asset h asset w).0 ≢ err foreign_key
unfolding ensure_asset exec
asset_resolves h asset w e = ground arith

vault_resolves :
    (h : VaultHandler) (emitter asset : Identity) (w : World VaultState)
    → HasAsset h.chain_id w.state.assets (h.encode asset)
    → (ensure_vault h emitter asset w).0 ≢ err foreign_key
unfolding ensure_vault exec upsert_unless refusal
vault_resolves h emitter asset w known e = grind (arith, known)

row_found :
    (h : VaultHandler) (ev : Event) (vault asset : Identity) (w : World VaultState)
    → (row h ev vault asset w).0 ≢ err foreign_key
unfolding row
row_found h ev vault asset w e = ground (
  arith,
  field_found ev (codes "user"),
  amount_found ev (codes "amount"),
  amount_found ev (codes "shares"),
)

-- A row names the asset and the vault that it is built from, and the chain of its event.
row-names :
    (h : VaultHandler) (ev : Event) (vault asset : Identity) (w : World VaultState) (e : VaultEvent)
    → (row h ev vault asset w).0 ≡ ok e
    → (e.chain_id ≡ ev.chain_id) × (e.asset ≡ h.encode asset) × (e.vault ≡ h.encode vault)
unfolding row
row-names h ev vault asset w e k = ground arith

row-world :
    (h : VaultHandler) (ev : Event) (vault asset : Identity) (w : World VaultState)
    → (row h ev vault asset w).1 ≡ w
unfolding row
row-world h ev vault asset w = ground arith

insert_row : Event → VaultEvent → World VaultState → Result IndexError (Unit {0}) × World VaultState
insert_row ev stored =
    if text_eq ev.name event_deposited
    then insert_vault_deposit stored
    else insert_vault_withdrawal stored

insert_row-IsBacked :
    (h : VaultHandler) (ev : Event) (e : VaultEvent) (w : World VaultState)
    → IsScaled w.state.assets w.state.vaults e
    → IsBacked h w.state
    → Stays h (insert_row ev e w)
unfolding insert_row
insert_row-IsBacked h ev e w p b = elim (Bool-cases (text_eq ev.name event_deposited)) [
  | inl t ↦ rw t (insert_deposit-IsBacked h e w p b)
  | inr t ↦ rw t (insert_withdrawal-IsBacked h e w p b)
]

row_stored-IsBacked :
    (h : VaultHandler) (ev : Event) (vault asset : Identity) (w : World VaultState)
    → ev.chain_id ≡ h.chain_id
    → HasAsset h.chain_id w.state.assets (h.encode asset)
    → HasVault h.chain_id w.state.vaults (h.encode vault)
    → IsBacked h w.state
    → Stays h ((row h ev vault asset >>= insert_row ev) w)
row_stored-IsBacked h ev vault asset w c a v b =
    after_bind h (row h ev vault asset w) (insert_row ev)
      (rw (row-world h ev vault asset w) b, row_found h ev vault asset w)
      (λ e k. rw (row-world h ev vault asset w) (
        let names = row-names h ev vault asset w e k in
        insert_row-IsBacked h ev e w (rw (names.0, c, names.1) a, rw (names.0, c, names.2) v) b))

-- What `store_event` does once the asset is known, and once its row is there.
with_vault :
    VaultHandler
    → Event
    → Identity
    → Identity
    → World VaultState
    → Result IndexError (Unit {0}) × World VaultState
unfolding insert_row
with_vault h ev asset vault = row h ev vault asset >>= insert_row ev

with_asset :
    VaultHandler
    → Event
    → Identity
    → World VaultState
    → Result IndexError (Unit {0}) × World VaultState
unfolding with_vault
with_asset h ev asset = ensure_vault h ev.contract asset >>= with_vault h ev asset

with_field_read :
    VaultHandler
    → Event
    → Identity
    → World VaultState
    → Result IndexError (Unit {0}) × World VaultState
unfolding with_asset
with_field_read h ev asset = ensure_asset h asset >> with_asset h ev asset

with_asset-IsBacked :
    (h : VaultHandler) (ev : Event) (asset : Identity) (w : World VaultState)
    → ev.chain_id ≡ h.chain_id
    → HasAsset h.chain_id w.state.assets (h.encode asset)
    → IsBacked h w.state
    → Stays h (with_asset h ev asset w)
unfolding with_asset
with_asset-IsBacked h ev asset w c a b =
    let V = ensure_vault-IsBacked h ev.contract asset w.state w.faults b in
    after_bind h (ensure_vault h ev.contract asset w) (with_vault h ev asset)
      (V.0, vault_resolves h ev.contract asset w a)
      (λ vault v.
        row_stored-IsBacked h ev vault asset (ensure_vault h ev.contract asset w).1 c (rw (V.1) a)
          (V.2 vault v) V.0)

with_field_read-IsBacked :
    (h : VaultHandler) (ev : Event) (asset : Identity) (w : World VaultState)
    → ev.chain_id ≡ h.chain_id
    → IsBacked h w.state
    → Stays h (with_field_read h ev asset w)
unfolding with_field_read
with_field_read-IsBacked h ev asset w c b =
    let A = ensure_asset-IsBacked h asset w.state w.faults b in
    after_bind h (ensure_asset h asset w) (λ u. with_asset h ev asset)
      (A.0, asset_resolves h asset w)
      (λ u k. with_asset-IsBacked h ev asset (ensure_asset h asset w).1 c (A.1 k) A.0)

store_event-IsBacked :
    (h : VaultHandler) (ev : Event) (w : World VaultState)
    → ev.chain_id ≡ h.chain_id
    → IsBacked h w.state
    → Stays h (store_event h ev w)
unfolding store_event with_field_read
store_event-IsBacked h ev w c b =
    after_bind h (lift (identity_field ev (codes "asset")) w) (with_field_read h ev)
      (b, field_found ev (codes "asset")) (λ asset i. with_field_read-IsBacked h ev asset w c b)

-- Whatever fails, when an event of the handler's chain is handled every stored deposit and withdrawal
-- has, on its own chain, the row of metadata of its asset, which holds the decimals, and of its
-- vault, which holds the share offset, if that held before and if what the process remembered had its
-- rows on the handler's chain, as it then still has; and no insert is refused for want of such a row.
pub handle-IsBacked :
    (h : VaultHandler) (ev : Event) (w : World VaultState)
    → ev.chain_id ≡ h.chain_id
    → IsBacked h w.state
    → IsBacked h (handle h ev w).1.state × ((handle h ev w).0 ≢ err foreign_key)
unfolding handle
handle-IsBacked h ev w c b = elim (Bool-cases (text_eq ev.contract h.contract)) [
  | inr o ↦ rw o (b, λ e. ground arith)
  | inl o ↦
      elim (Bool-cases
        (not (text_eq ev.name event_deposited) && not (text_eq ev.name event_withdrawn))) [
          | inl n ↦ rw (o, n) (b, λ e. ground arith)
          | inr n ↦ rw (o, n) (store_event-IsBacked h ev w c b)
        ]
]
