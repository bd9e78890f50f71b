-- ===== src/Indexer/Vault.antt =====
-- internal/indexer/vault.go with the statements of internal/db/vault.go and assets.go that it runs.
-- What the chain answers about tokens and vaults is in `VaultHandler`; a share offset and decimals
-- are bytes.
pub mod Replay
pub mod Metadata
pub mod Resolve
pub mod Scaled
use aegis_protocol.Base.{
  ℕ, zero, suc, ◌+◌, ◌-◌, ◌*◌, ◌/◌, ◌%◌, ◌^◌, ◌≤◌, ◌<◌, ◌≡◌, ◌≢◌, ◌↔◌, ◌⊎◌, refl, ap, sym, ◌∙◌,
  subst, inl, inr, Bool, true, false, not, ◌&&◌, ◌||◌, List, [], ◌∷◌, ◌++◌, map, Option, none, some,
  length, take, drop, replicate, get_or, any_of, count_if, keep_if, ltb, leb, ◌==◌, if◌then◌else◌,
  Text, codes, text_eq, text_lt, text_eq_refl, text_eq→eq, text_eq_iff, Result, ok, err, World,
  Action, ◌>>=◌, ◌>>◌, pure, throw, lift, gets, modify, exec, query, returning, exec_cases, quiet,
  All, Any, All-map, arith, Bool-cases, Option-cases, ==_iff, length-append, length-replicate,
  ltb→lt, ltb→ge, lt→ltb, leb→le,
}
use aegis_protocol.Indexer.Event.{
  Identity, Event, Filter, IndexError, resolve_failed, asset_mismatch, store_failed, foreign_key,
  identity_field, raw_field,
}
use aegis_protocol.Indexer.Table.{insert_new, upsert}

abbrev pub event_deposited : Text
event_deposited = codes "Deposited"

abbrev pub event_withdrawn : Text
event_withdrawn = codes "Withdrawn"

pub record TokenMeta : Type 0 where
  pub decimals : ℕ
  pub symbol : Text
  pub name : Text

pub record AssetMetadata : Type 0 where
  pub chain_id : ℕ
  pub address : Text
  pub decimals : ℕ
  pub symbol : Text
  pub name : Text

-- The columns of a row of `vaults`.
pub record VaultMetadata : Type 0 where
  pub chain_id : ℕ
  pub address : Text
  pub asset_address : Text
  pub share_offset : ℕ

-- `db.VaultEvent`.
pub record VaultEvent : Type 0 where
  pub chain_id : ℕ
  pub user : Text
  pub asset : Text
  pub vault : Text
  pub amount : ℕ
  pub shares : ℕ
  pub tx_hash : Text
  pub log_index : ℕ
  pub block_number : ℕ
  pub at : ℕ

-- What `LocateVault` answers: the vault, the asset that it reports, and its share offset.
pub record Located : Type 0 where
  pub vault : Identity
  pub asset : Identity
  pub share_offset : ℕ

-- The handler's fixed fields; `none` is an error of the chain.
pub record VaultHandler : Type 0 where
  pub contract : Identity
  pub chain_id : ℕ
  pub encode : Identity → Text
  pub token_metadata : Identity → Option TokenMeta
  pub locate_vault : Identity → Identity → Option Located

-- The tables, and the two maps that the process keeps.
pub record VaultState : Type 0 where
  pub assets : List AssetMetadata
  pub vaults : List VaultMetadata
  pub deposits : List VaultEvent
  pub withdrawals : List VaultEvent
  pub cached_assets : List (Identity × AssetMetadata)
  pub cached_vaults : List (Identity × Identity)

abbrev pub VaultAction : Type 0 → Type 0
VaultAction A = Action IndexError VaultState A

-- The keys (chain_id, address) and (chain_id, tx_hash, log_index).
abbrev pub same_asset : AssetMetadata → AssetMetadata → Bool
same_asset a b = a.chain_id == b.chain_id && text_eq a.address b.address

abbrev pub same_vault : VaultMetadata → VaultMetadata → Bool
same_vault a b = a.chain_id == b.chain_id && text_eq a.address b.address

abbrev pub same_vault_event : VaultEvent → VaultEvent → Bool
same_vault_event a b =
    a.chain_id == b.chain_id && text_eq a.tx_hash b.tx_hash && a.log_index == b.log_index

abbrev pub is_asset : ℕ → Text → AssetMetadata → Bool
is_asset chain address a = a.chain_id == chain && text_eq a.address address

abbrev pub is_vault : ℕ → Text → VaultMetadata → Bool
is_vault chain address v = v.chain_id == chain && text_eq v.address address

-- The upserts, where a scale above 38 is refused, and a vault whose asset has no row.
upsert_asset : AssetMetadata → VaultAction (Unit {0})
unfolding exec
upsert_asset a =
    if leb a.decimals 38
    then exec store_failed (λ s. record s { assets = upsert same_asset a s.assets })
    else throw store_failed

-- The error of an upsert of a vault, if its checks and its foreign key refuse the row.
unfoldable pub refusal : VaultMetadata → List AssetMetadata → Option IndexError
refusal v assets =
    if not (leb v.share_offset 38)
    then some store_failed
    else if any_of (is_asset v.chain_id v.asset_address) assets
    then none
    else some foreign_key

upsert_unless : Option IndexError → VaultMetadata → VaultAction (Unit {0})
unfolding exec
upsert_unless (some e) v = throw e
upsert_unless none v = exec store_failed (λ s. record s { vaults = upsert same_vault v s.vaults })

upsert_vault : VaultMetadata → VaultAction (Unit {0})
unfolding upsert_unless
upsert_vault v = do refused ← gets (λ s. refusal v s.assets); upsert_unless refused v

-- Whether an insert may go on: the row is there, and nothing happens, or its asset and its vault are,
-- as its foreign keys ask.
abbrev pub may_store : VaultEvent → List VaultEvent → VaultState → Bool
may_store e rows s =
    any_of (same_vault_event e) rows
    || any_of (is_asset e.chain_id e.asset) s.assets
      && any_of (is_vault e.chain_id e.vault) s.vaults

insert_vault_deposit : VaultEvent → VaultAction (Unit {0})
unfolding exec
insert_vault_deposit e = do
  allowed ← gets (λ s. may_store e s.deposits s)
  if allowed
      then exec store_failed (λ s. record s { deposits = insert_new same_vault_event e s.deposits })
      else throw foreign_key

insert_vault_withdrawal : VaultEvent → VaultAction (Unit {0})
unfolding exec
insert_vault_withdrawal e = do
  allowed ← gets (λ s. may_store e s.withdrawals s)
  if allowed
      then exec store_failed
          (λ s. record s { withdrawals = insert_new same_vault_event e s.withdrawals })
      else throw foreign_key

-- A read of one of the maps.
pub cache_get : {V : Type 0} → Identity → List (Identity × V) → Option V
cache_get key [] = none
cache_get key ((k, v) ∷ cache) = if text_eq k key then some v else cache_get key cache

unfoldable pub or_unresolved : {A : Type 0} → Option A → VaultAction A
or_unresolved none = throw resolve_failed
or_unresolved (some a) = pure a

module _ (h : VaultHandler) where
  -- `Filters`.
  unfoldable pub filters : List Filter
  filters = record { contract = h.contract; names = event_deposited ∷ event_withdrawn ∷ [] } ∷ []

  resolve_asset : Identity → Option AssetMetadata → VaultAction (Unit {0})
  unfolding or_unresolved upsert_asset
  resolve_asset asset (some cached) = pure tt
  resolve_asset asset none = do
    meta ← or_unresolved (h.token_metadata asset)
    let stored : AssetMetadata = record {
      chain_id = h.chain_id;
      address = h.encode asset;
      decimals = meta.decimals;
      symbol = meta.symbol;
      name = meta.name;
    }
    upsert_asset stored
    modify (λ s. record s { cached_assets = (asset, stored) ∷ s.cached_assets })

  -- `ensureAsset`.
  pub ensure_asset : Identity → VaultAction (Unit {0})
  unfolding resolve_asset cache_get
  ensure_asset asset = do
    cached ← gets (λ s. cache_get asset s.cached_assets)
    resolve_asset asset cached

  record_vault : Identity → Located → VaultAction Identity
  unfolding upsert_vault
  record_vault asset found = if not (text_eq found.asset asset) then throw asset_mismatch else do
    upsert_vault (record {
      chain_id = h.chain_id;
      address = h.encode found.vault;
      asset_address = h.encode asset;
      share_offset = found.share_offset;
    })
    modify (λ s. record s { cached_vaults = (asset, found.vault) ∷ s.cached_vaults })
    pure found.vault

  resolve_vault : Identity → Identity → Option Identity → VaultAction Identity
  unfolding or_unresolved record_vault
  resolve_vault emitter asset (some vault) = pure vault
  resolve_vault emitter asset none = do
    found ← or_unresolved (h.locate_vault emitter asset)
    record_vault asset found

  -- `ensureVault`.
  pub ensure_vault : Identity → Identity → VaultAction Identity
  unfolding resolve_vault cache_get
  ensure_vault emitter asset = do
    cached ← gets (λ s. cache_get asset s.cached_vaults)
    resolve_vault emitter asset cached

  -- `row`.
  pub row : Event → Identity → Identity → VaultAction VaultEvent
  row ev vault asset = do
    user ← lift (identity_field ev (codes "user"))
    amount ← lift (raw_field ev (codes "amount"))
    shares ← lift (raw_field ev (codes "shares"))
    pure (record {
      chain_id = ev.chain_id;
      user = h.encode user;
      asset = h.encode asset;
      vault = h.encode vault;
      amount = amount;
      shares = shares;
      tx_hash = ev.tx_hash;
      log_index = ev.log_index;
      block_number = ev.block_number;
      at = ev.block_time;
    })

  store_event : Event → VaultAction (Unit {0})
  unfolding ensure_asset ensure_vault row insert_vault_deposit insert_vault_withdrawal
  store_event ev = do
    asset ← lift (identity_field ev (codes "asset"))
    ensure_asset asset
    vault ← ensure_vault ev.contract asset
    stored ← row ev vault asset
    if text_eq ev.name event_deposited
        then insert_vault_deposit stored
        else insert_vault_withdrawal stored

  -- `Handle`.
  unfoldable pub handle : Event → VaultAction (Unit {0})
  unfolding store_event
  handle ev =
      if not (text_eq ev.contract h.contract)
      then pure tt
      else if not (text_eq ev.name event_deposited) && not (text_eq ev.name event_withdrawn)
      then pure tt
      else store_event ev
