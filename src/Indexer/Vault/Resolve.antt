-- ===== src/Indexer/Vault/Resolve.antt =====
-- `ensureAsset` and `ensureVault` of internal/indexer/vault.go: the metadata that they leave.
use aegis_protocol.Base.{
  ◌≡◌, refl, subst, inl, inr, Bool, true, false, leb, List, [], ◌∷◌, text_eq, Result, ok, Option,
  none, some, World, ◌>>◌, pure, modify, exec, arith, Bool-cases, Option-cases,
}
use aegis_protocol.Indexer.Event.{Identity, IndexError, store_failed}
use aegis_protocol.Indexer.Table.{upsert}
use aegis_protocol.Indexer.Vault.{
  VaultHandler, VaultState, AssetMetadata, VaultMetadata, TokenMeta, Located, same_asset,
  same_vault, refusal, upsert_unless, cache_get, ensure_asset, ensure_vault,
}
use aegis_protocol.Indexer.Vault.Metadata.{
  HasAsset, HasVault, IsBacked, HasAsset-upsert_self, HasVault-upsert_self, asset_stored-IsBacked,
  vault_stored-IsBacked, cache_get-HasAsset, cache_get-HasVault,
}

abbrev asset_of : VaultHandler → Identity → TokenMeta → AssetMetadata
asset_of h asset meta = record {
  chain_id = h.chain_id;
  address = h.encode asset;
  decimals = meta.decimals;
  symbol = meta.symbol;
  name = meta.name;
}

abbrev asset_resolved : VaultHandler → Identity → TokenMeta → VaultState → VaultState
asset_resolved h asset meta s = record s {
  assets = upsert same_asset (asset_of h asset meta) s.assets;
  cached_assets = (asset, asset_of h asset meta) ∷ s.cached_assets;
}

abbrev vault_of : VaultHandler → Identity → Located → VaultMetadata
vault_of h asset found = record {
  chain_id = h.chain_id;
  address = h.encode found.vault;
  asset_address = h.encode asset;
  share_offset = found.share_offset;
}

abbrev vault_resolved : VaultHandler → Identity → Located → VaultState → VaultState
vault_resolved h asset found s = record s {
  vaults = upsert same_vault (vault_of h asset found) s.vaults;
  cached_vaults = (asset, found.vault) ∷ s.cached_vaults;
}

-- The end of `resolve_asset`, and of `record_vault`.
abbrev resolved_asset :
    VaultHandler
    → Identity
    → TokenMeta
    → World VaultState
    → Result IndexError (Unit {0}) × World VaultState
resolved_asset h asset meta = do
  exec store_failed (λ s. record s { assets = upsert same_asset (asset_of h asset meta) s.assets })
  modify (λ s. record s { cached_assets = (asset, asset_of h asset meta) ∷ s.cached_assets })

asset_resolved-IsBacked :
    (h : VaultHandler) (asset : Identity) (meta : TokenMeta) (s : VaultState)
    → IsBacked h s
    → IsBacked h (asset_resolved h asset meta s)
asset_resolved-IsBacked h asset meta s b =
    let stored = asset_of h asset meta in
    let b' = asset_stored-IsBacked h stored s b in
    record {
      deposits = b'.deposits;
      withdrawals = b'.withdrawals;
      cached_assets = (HasAsset-upsert_self stored s.assets, b'.cached_assets);
      cached_vaults = b.cached_vaults;
    }

vault_resolved-IsBacked :
    (h : VaultHandler) (asset : Identity) (found : Located) (s : VaultState)
    → IsBacked h s
    → IsBacked h (vault_resolved h asset found s)
vault_resolved-IsBacked h asset found s b =
    let stored = vault_of h asset found in
    let b' = vault_stored-IsBacked h stored s b in
    record {
      deposits = b'.deposits;
      withdrawals = b'.withdrawals;
      cached_assets = b.cached_assets;
      cached_vaults = (HasVault-upsert_self stored s.vaults, b'.cached_vaults);
    }

-- What `ensure_asset` may leave: the state as it was, or with the row of metadata, or with that row
-- remembered as well; and the row is there if it succeeds.
pub ensure_asset-IsBacked :
    (h : VaultHandler) (asset : Identity) (s : VaultState) (faults : List Bool)
    → IsBacked h s
    → let r = ensure_asset h asset (record { state = s; faults = faults }) in
      IsBacked h r.1.state × ((r.0 ≡ ok tt) → HasAsset h.chain_id r.1.state.assets (h.encode asset))
unfolding ensure_asset exec
ensure_asset-IsBacked h asset s faults b = elim (Option-cases (cache_get asset s.cached_assets)) [
  | inr (a, e) ↦
      rw e (b, λ k. cache_get-HasAsset h s.assets asset a s.cached_assets b.cached_assets e)
  | inl e ↦ elim (Option-cases (h.token_metadata asset)) [
    | inl t ↦ rw (e, t) (b, λ k. absurd (ground arith))
    | inr (meta, t) ↦ elim (Bool-cases (leb meta.decimals 38)) [
      | inl d ↦ rw (e, t, d) (go meta faults)
      | inr d ↦ rw (e, t, d) (b, λ k. absurd (ground arith))
    ]
  ]
]
  where
    go :
        (meta : TokenMeta) (fs : List Bool)
        → let r = resolved_asset h asset meta (record { state = s; faults = fs }) in
          IsBacked h r.1.state
          × ((r.0 ≡ ok tt) → HasAsset h.chain_id r.1.state.assets (h.encode asset))
    go meta [] = (
      asset_resolved-IsBacked h asset meta s b,
      λ k. HasAsset-upsert_self (asset_of h asset meta) s.assets,
    )
    go meta (true ∷ fs) = (b, λ k. absurd (ground arith))
    go meta (false ∷ fs) = (
      asset_resolved-IsBacked h asset meta s b,
      λ k. HasAsset-upsert_self (asset_of h asset meta) s.assets,
    )

abbrev resolved_vault :
    VaultHandler
    → Identity
    → Located
    → World VaultState
    → Result IndexError Identity × World VaultState
resolved_vault h asset found = do
  exec store_failed (λ s. record s { vaults = upsert same_vault (vault_of h asset found) s.vaults })
  modify (λ s. record s { cached_vaults = (asset, found.vault) ∷ s.cached_vaults })
  pure found.vault

-- The end of `record_vault`, once the row is accepted or not.
abbrev unless_refused :
    VaultHandler
    → Identity
    → Located
    → Option IndexError
    → World VaultState
    → Result IndexError Identity × World VaultState
unless_refused h asset found refused = do
  upsert_unless refused (vault_of h asset found)
  modify (λ s. record s { cached_vaults = (asset, found.vault) ∷ s.cached_vaults })
  pure found.vault

-- The same of `ensure_vault`, which keeps the rows of assets.
pub ensure_vault-IsBacked :
    (h : VaultHandler) (emitter asset : Identity) (s : VaultState) (faults : List Bool)
    → IsBacked h s
    → let r = ensure_vault h emitter asset (record { state = s; faults = faults }) in
      IsBacked h r.1.state
      × (r.1.state.assets ≡ s.assets)
      × ((v : Identity) → r.0 ≡ ok v → HasVault h.chain_id r.1.state.vaults (h.encode v))
unfolding ensure_vault exec upsert_unless
ensure_vault-IsBacked h emitter asset s faults b =
    elim (Option-cases (cache_get asset s.cached_vaults)) [
      | inr (v, e) ↦ rw e (
        b,
        refl,
        λ u k. cache_get-HasVault h s.vaults asset u s.cached_vaults b.cached_vaults (ground arith),
      )
      | inl e ↦ elim (Option-cases (h.locate_vault emitter asset)) [
        | inl t ↦ rw (e, t) (b, refl, λ u k. absurd (ground arith))
        | inr (found, t) ↦ elim (Bool-cases (text_eq found.asset asset)) [
          | inr q ↦ rw (e, t, q) (b, refl, λ u k. absurd (ground arith))
          | inl q ↦ rw (e, t, q) (unless found (refusal (vault_of h asset found) s.assets) faults)
        ]
      ]
    ]
  where
    stored :
        (found : Located) (u : Identity)
        → (r : Result IndexError Identity) → r ≡ ok found.vault
        → r ≡ ok u
        → HasVault h.chain_id (upsert same_vault (vault_of h asset found) s.vaults) (h.encode u)
    stored found u r e k =
        subst
          (λ n.
            HasVault h.chain_id (upsert same_vault (vault_of h asset found) s.vaults) (h.encode n))
          (ground arith) (HasVault-upsert_self (vault_of h asset found) s.vaults)

    go :
        (found : Located) (fs : List Bool)
        → let r = resolved_vault h asset found (record { state = s; faults = fs }) in
          IsBacked h r.1.state
          × (r.1.state.assets ≡ s.assets)
          × ((v : Identity) → r.0 ≡ ok v → HasVault h.chain_id r.1.state.vaults (h.encode v))
    go found [] = (
      vault_resolved-IsBacked h asset found s b,
      refl,
      λ u k. stored found u (ok found.vault) refl k,
    )
    go found (true ∷ fs) = (b, refl, λ u k. absurd (ground arith))
    go found (false ∷ fs) = (
      vault_resolved-IsBacked h asset found s b,
      refl,
      λ u k. stored found u (ok found.vault) refl k,
    )

    unless :
        (found : Located) (refused : Option IndexError) (fs : List Bool)
        → let r = unless_refused h asset found refused (record { state = s; faults = fs }) in
          IsBacked h r.1.state
          × (r.1.state.assets ≡ s.assets)
          × ((v : Identity) → r.0 ≡ ok v → HasVault h.chain_id r.1.state.vaults (h.encode v))
    unless found none fs = go found fs
    unless found (some x) fs = (b, refl, λ u k. absurd (ground arith))
