-- ===== src/Indexer/Vault/Metadata.antt =====
-- The rows of metadata that deposits and withdrawals need (internal/db/vault.go, assets.go).
use aegis_protocol.Base.{
  ℕ, ◌≡◌, subst, inl, inr, true, List, [], ◌∷◌, some, any_of, Text, text_eq, text_eq_refl,
  text_eq→eq, All, All-map, arith, Bool-cases,
}
use aegis_protocol.Indexer.Event.{Identity}
use aegis_protocol.Indexer.Table.{upsert, any_of-upsert, any_of-upsert_self}
use aegis_protocol.Indexer.Vault.{
  VaultEvent, VaultHandler, VaultState, AssetMetadata, VaultMetadata, same_asset, same_vault,
  is_asset, is_vault, cache_get,
}

-- There is a row of metadata for the asset, or for the vault, on the chain.
abbrev pub HasAsset : ℕ → List AssetMetadata → Text → Type 0
HasAsset chain assets address = any_of (is_asset chain address) assets ≡ true

abbrev pub HasVault : ℕ → List VaultMetadata → Text → Type 0
HasVault chain vaults address = any_of (is_vault chain address) vaults ≡ true

-- A deposit or a withdrawal whose asset and vault have their rows on its chain, as its foreign keys
-- to the tables of assets and vaults ask.
abbrev pub IsScaled : List AssetMetadata → List VaultMetadata → VaultEvent → Type 0
IsScaled assets vaults e = HasAsset e.chain_id assets e.asset × HasVault e.chain_id vaults e.vault

-- All rows are scaled, and what the process remembers is stored.
pub record IsBacked (h : VaultHandler) (s : VaultState) : Type 0 where
  pub deposits : All (IsScaled s.assets s.vaults) s.deposits
  pub withdrawals : All (IsScaled s.assets s.vaults) s.withdrawals
  pub cached_assets : All (λ c. HasAsset h.chain_id s.assets (h.encode c.0)) s.cached_assets
  pub cached_vaults : All (λ c. HasVault h.chain_id s.vaults (h.encode c.1)) s.cached_vaults

HasAsset-upsert :
    (chain : ℕ) (a : AssetMetadata) (assets : List AssetMetadata) (address : Text)
    → HasAsset chain assets address
    → HasAsset chain (upsert same_asset a assets) address
HasAsset-upsert chain a assets address h =
    any_of-upsert same_asset (is_asset chain address) a assets
      (λ b s k. ground (arith, text_eq→eq a.address b.address)) h

HasVault-upsert :
    (chain : ℕ) (a : VaultMetadata) (vaults : List VaultMetadata) (address : Text)
    → HasVault chain vaults address
    → HasVault chain (upsert same_vault a vaults) address
HasVault-upsert chain a vaults address h =
    any_of-upsert same_vault (is_vault chain address) a vaults
      (λ b s k. ground (arith, text_eq→eq a.address b.address)) h

pub HasAsset-upsert_self :
    (a : AssetMetadata) (assets : List AssetMetadata)
    → HasAsset a.chain_id (upsert same_asset a assets) a.address
HasAsset-upsert_self a assets =
    any_of-upsert_self same_asset (is_asset a.chain_id a.address) a assets
      (ground (arith, text_eq_refl a.address))

pub HasVault-upsert_self :
    (a : VaultMetadata) (vaults : List VaultMetadata)
    → HasVault a.chain_id (upsert same_vault a vaults) a.address
HasVault-upsert_self a vaults =
    any_of-upsert_self same_vault (is_vault a.chain_id a.address) a vaults
      (ground (arith, text_eq_refl a.address))

-- A row of metadata more keeps what is there.
pub asset_stored-IsBacked :
    (h : VaultHandler) (a : AssetMetadata) (s : VaultState)
    → IsBacked h s
    → IsBacked h (record s { assets = upsert same_asset a s.assets })
asset_stored-IsBacked h a s b = record {
  deposits =
      All-map (λ e k. (HasAsset-upsert e.chain_id a s.assets e.asset k.0, k.1)) s.deposits
        b.deposits;
  withdrawals =
      All-map (λ e k. (HasAsset-upsert e.chain_id a s.assets e.asset k.0, k.1)) s.withdrawals
        b.withdrawals;
  cached_assets =
      All-map (λ c k. HasAsset-upsert h.chain_id a s.assets (h.encode c.0) k) s.cached_assets
        b.cached_assets;
  cached_vaults = b.cached_vaults;
}

pub vault_stored-IsBacked :
    (h : VaultHandler) (a : VaultMetadata) (s : VaultState)
    → IsBacked h s
    → IsBacked h (record s { vaults = upsert same_vault a s.vaults })
vault_stored-IsBacked h a s b = record {
  deposits =
      All-map (λ e k. (k.0, HasVault-upsert e.chain_id a s.vaults e.vault k.1)) s.deposits
        b.deposits;
  withdrawals =
      All-map (λ e k. (k.0, HasVault-upsert e.chain_id a s.vaults e.vault k.1)) s.withdrawals
        b.withdrawals;
  cached_assets = b.cached_assets;
  cached_vaults =
      All-map (λ c k. HasVault-upsert h.chain_id a s.vaults (h.encode c.1) k) s.cached_vaults
        b.cached_vaults;
}

pub cache_get-HasAsset :
    (h : VaultHandler) (assets : List AssetMetadata) (asset : Identity) (a : AssetMetadata)
    (cache : List (Identity × AssetMetadata))
    → All (λ c. HasAsset h.chain_id assets (h.encode c.0)) cache
    → cache_get asset cache ≡ some a
    → HasAsset h.chain_id assets (h.encode asset)
unfolding cache_get
cache_get-HasAsset h assets asset a [] k e = ground arith
cache_get-HasAsset h assets asset a ((i, b) ∷ cache) k e = elim (Bool-cases (text_eq i asset)) [
  | inl t ↦ subst (λ n. HasAsset h.chain_id assets (h.encode n)) (text_eq→eq i asset t) k.0
  | inr t ↦ cache_get-HasAsset h assets asset a cache k.1 (ground arith)
]

pub cache_get-HasVault :
    (h : VaultHandler) (vaults : List VaultMetadata) (asset vault : Identity)
    (cache : List (Identity × Identity))
    → All (λ c. HasVault h.chain_id vaults (h.encode c.1)) cache
    → cache_get asset cache ≡ some vault
    → HasVault h.chain_id vaults (h.encode vault)
unfolding cache_get
cache_get-HasVault h vaults asset vault [] k e = ground arith
cache_get-HasVault h vaults asset vault ((i, b) ∷ cache) k e = elim (Bool-cases (text_eq i asset)) [
  | inl t ↦ subst (λ n. HasVault h.chain_id vaults (h.encode n)) (ground arith) k.0
  | inr t ↦ cache_get-HasVault h vaults asset vault cache k.1 (ground arith)
]
