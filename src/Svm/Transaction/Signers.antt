-- ===== src/Svm/Transaction/Signers.antt =====
-- Which accounts `BuildTransaction` of internal/chain/svm/tx.go has sign, and in which order.
use aegis_protocol.Base.{
  ◌≡◌, refl, ap, ◌∙◌, Bool, true, false, not, ◌&&◌, ◌||◌, List, [], ◌∷◌, any_of, ltb, if◌then◌else◌,
  text_eq, arith,
}
use aegis_protocol.Indexer.Event.{Identity}
use aegis_protocol.Svm.Transaction.{AccountMeta, rank, insert_ranked, sorted_accounts}

-- No account of the list signs.
abbrev pub none_signs : List AccountMeta → Bool
none_signs [] = true
none_signs (e ∷ entries) = not e.signer && none_signs entries

abbrev pub all_sign : List AccountMeta → Bool
all_sign [] = true
all_sign (e ∷ entries) = e.signer && all_sign entries

-- The accounts that sign stand first.
abbrev pub signers_first : List AccountMeta → Bool
signers_first [] = true
signers_first (e ∷ entries) = if e.signer then signers_first entries else none_signs entries

-- The payer signs, wherever it is named.
abbrev pub payer_signs : Identity → List AccountMeta → Bool
payer_signs payer [] = true
payer_signs payer (e ∷ entries) =
    (not (text_eq e.key payer) || e.signer) && payer_signs payer entries

module _ (payer : Identity) where
  insert_none :
      (e : AccountMeta) (entries : List AccountMeta)
      → e.signer ≡ false
      → none_signs entries ≡ true
      → none_signs (insert_ranked payer e entries) ≡ true
  unfolding insert_ranked
  insert_none e [] k h = ground arith
  insert_none e (f ∷ entries) k h = ground (arith, insert_none e entries)

  -- The rank tells who signs, where the payer does.
  rank_signs :
      (e : AccountMeta)
      → not (text_eq e.key payer) || e.signer ≡ true
      → ltb (rank payer e) 3 ≡ e.signer
  unfolding rank
  rank_signs e p = ground arith

  insert_first :
      (e : AccountMeta) (entries : List AccountMeta)
      → not (text_eq e.key payer) || e.signer ≡ true
      → payer_signs payer entries ≡ true
      → signers_first entries ≡ true
      → signers_first (insert_ranked payer e entries) ≡ true
  unfolding insert_ranked
  insert_first e [] p q h = ground arith
  insert_first e (f ∷ entries) p q h =
      ground (arith, rank_signs e p, rank_signs f, insert_first e entries p, insert_none e entries)

  insert_payer :
      (e : AccountMeta) (entries : List AccountMeta)
      → payer_signs payer (insert_ranked payer e entries) ≡ payer_signs payer (e ∷ entries)
  unfolding insert_ranked
  insert_payer e [] = refl
  insert_payer e (f ∷ entries) = ground (arith, insert_payer e entries)

  sorted_payer :
      (merged : List AccountMeta)
      → payer_signs payer (sorted_accounts payer merged) ≡ payer_signs payer merged
  unfolding sorted_accounts
  sorted_payer [] = refl
  sorted_payer (e ∷ merged) =
      insert_payer e (sorted_accounts payer merged)
      ∙ ap (λ b. (not (text_eq e.key payer) || e.signer) && b) (sorted_payer merged)

  pub sorted_first :
      (merged : List AccountMeta)
      → payer_signs payer merged ≡ true
      → signers_first (sorted_accounts payer merged) ≡ true
  unfolding sorted_accounts
  sorted_first [] h = refl
  sorted_first (e ∷ merged) h =
      insert_first e (sorted_accounts payer merged) (ground arith)
        (sorted_payer merged ∙ ground arith) (sorted_first merged (ground arith))

  abbrev pub names_payer : List AccountMeta → Bool
  names_payer entries = any_of (λ e. text_eq e.key payer) entries

  abbrev pub headed : List AccountMeta → Bool
  headed [] = false
  headed (e ∷ entries) = text_eq e.key payer

  insert_headed :
      (e : AccountMeta) (entries : List AccountMeta)
      → (text_eq e.key payer || headed entries) ≡ true
      → headed (insert_ranked payer e entries) ≡ true
  unfolding insert_ranked rank
  insert_headed e [] h = ground arith
  insert_headed e (f ∷ entries) h = ground arith

  pub sorted_headed :
      (merged : List AccountMeta)
      → names_payer merged ≡ true
      → headed (sorted_accounts payer merged) ≡ true
  unfolding sorted_accounts
  sorted_headed [] h = absurd (ground arith)
  sorted_headed (e ∷ merged) h =
      insert_headed e (sorted_accounts payer merged) (ground (arith, sorted_headed merged))
