-- ===== src/Svm/Transaction/Payer.antt =====
-- The signatures of `BuildTransaction` of internal/chain/svm/tx.go.
use aegis_protocol.Base.{
  ◌≡◌, ◌<◌, refl, ap, sym, subst, get_or, inl, inr, true, false, List, [], ◌∷◌, take, drop, text_eq,
  text_eq_refl, text_eq→eq, arith, Bool-cases,
}
use aegis_protocol.Indexer.Event.{Identity}
use aegis_protocol.Svm.Transaction.{
  AccountMeta, Instruction, add_account, add_accounts, add_instructions, merged_accounts,
  sorted_accounts, num_signers, message,
}
use aegis_protocol.Svm.Transaction.Signers.{
  none_signs, all_sign, signers_first, payer_signs, names_payer, headed, sorted_first,
  sorted_headed,
}

module _ (payer : Identity) where
  add_named :
      (m : AccountMeta) (merged : List AccountMeta)
      → names_payer payer merged ≡ true
      → names_payer payer (add_account m merged) ≡ true
  unfolding add_account
  add_named m [] h = absurd (ground arith)
  add_named m (e ∷ merged) h = ground (arith, add_named m merged)

  add_other :
      (m : AccountMeta) (merged : List AccountMeta)
      → text_eq m.key payer ≡ false
      → payer_signs payer merged ≡ true
      → payer_signs payer (add_account m merged) ≡ true
  unfolding add_account
  add_other m [] k h = ground arith
  add_other m (e ∷ merged) k h = ground (arith, add_other m merged k)

  add_payer :
      (m : AccountMeta) (merged : List AccountMeta)
      → m.key ≡ payer
      → names_payer payer merged ≡ true
      → payer_signs payer merged ≡ true
      → payer_signs payer (add_account m merged) ≡ true
  unfolding add_account
  add_payer m [] k n h = absurd (ground arith)
  add_payer m (e ∷ merged) k n h =
      rw (ap (λ key. text_eq e.key key) k) (ground (arith, add_payer m merged k))

  -- What merging keeps.
  abbrev IsPaid : List AccountMeta → Type 0
  IsPaid merged = (names_payer payer merged ≡ true) × (payer_signs payer merged ≡ true)

  add_account-IsPaid :
      (m : AccountMeta) (merged : List AccountMeta) → IsPaid merged → IsPaid (add_account m merged)
  add_account-IsPaid m merged (n, h) = (
    add_named m merged n,
    elim (Bool-cases (text_eq m.key payer)) [
      | inl e ↦ add_payer m merged (text_eq→eq m.key payer e) n h
      | inr e ↦ add_other m merged e h
    ],
  )

  add_accounts-IsPaid :
      (accounts merged : List AccountMeta) → IsPaid merged → IsPaid (add_accounts accounts merged)
  unfolding add_accounts
  add_accounts-IsPaid [] merged p = p
  add_accounts-IsPaid (m ∷ accounts) merged p =
      add_accounts-IsPaid accounts (add_account m merged) (add_account-IsPaid m merged p)

  add_instructions-IsPaid :
      (ixs : List Instruction) (merged : List AccountMeta)
      → IsPaid merged
      → IsPaid (add_instructions ixs merged)
  unfolding add_instructions
  add_instructions-IsPaid [] merged p = p
  add_instructions-IsPaid (ix ∷ ixs) merged p = add_instructions-IsPaid ixs _ (
      add_account-IsPaid _ (add_accounts ix.accounts merged)
        (add_accounts-IsPaid ix.accounts merged p))

  merged_accounts-IsPaid : (ixs : List Instruction) → IsPaid (merged_accounts payer ixs)
  unfolding merged_accounts
  merged_accounts-IsPaid ixs =
      add_instructions-IsPaid ixs _
        (ground (arith, text_eq_refl payer), ground (arith, text_eq_refl payer))

none_counted : (entries : List AccountMeta) → none_signs entries ≡ true → num_signers entries ≡ 0
unfolding num_signers
none_counted [] h = refl
none_counted (e ∷ entries) h = ground (arith, none_counted entries)

split_signers :
    (entries : List AccountMeta)
    → signers_first entries ≡ true
    → (all_sign (take (num_signers entries) entries) ≡ true)
      × (none_signs (drop (num_signers entries) entries) ≡ true)
unfolding num_signers
split_signers [] h = (refl, refl)
split_signers (e ∷ entries) h = elim (Bool-cases e.signer) [
  | inl y ↦ let (p, q) = split_signers entries (ground arith) in rw y (p, q)
  | inr n ↦ rw (n, none_counted entries (ground arith)) (refl, ground arith)
]

-- The first byte of the message, where a byte can hold the count.
header_signers :
    (blockhash : Identity) (entries : List AccountMeta) (ixs : List Instruction)
    → num_signers entries < 256
    → get_or (message blockhash entries ixs) 0 0 ≡ num_signers entries
unfolding message
header_signers blockhash entries ixs h = omega (arith, h)

-- Whatever instructions a transaction has, of whose accounts fewer than 256 sign: its accounts begin
-- with the payer, the first of them, as many as the first byte of its message says, all sign, and
-- none behind them does.
pub sorted_accounts-signers :
    (blockhash payer : Identity) (ixs : List Instruction)
    → num_signers (sorted_accounts payer (merged_accounts payer ixs)) < 256
    → let entries = sorted_accounts payer (merged_accounts payer ixs) in
      let n = get_or (message blockhash entries ixs) 0 0 in
      (headed payer entries ≡ true)
      × (all_sign (take n entries) ≡ true)
      × (none_signs (drop n entries) ≡ true)
sorted_accounts-signers blockhash payer ixs h =
    let merged = merged_accounts payer ixs in
    let entries = sorted_accounts payer merged in
    let (named, signs) = merged_accounts-IsPaid payer ixs in
    let (first, rest) = split_signers entries (sorted_first payer merged signs) in
    let same = header_signers blockhash entries ixs h in
    (
      sorted_headed payer merged named,
      subst (λ n. all_sign (take n entries) ≡ true) (sym same) first,
      subst (λ n. none_signs (drop n entries) ≡ true) (sym same) rest,
    )
