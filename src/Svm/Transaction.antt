-- ===== src/Svm/Transaction.antt =====
-- internal/chain/svm/tx.go: the layout of a transaction. What signs a message is a parameter.
pub mod Compact
pub mod Signers
pub mod Payer
use aegis_protocol.Base.{
  ℕ, zero, suc, ◌+◌, ◌-◌, ◌*◌, ◌/◌, ◌%◌, ◌^◌, ◌≤◌, ◌<◌, ◌≡◌, ◌≢◌, ◌↔◌, ◌⊎◌, refl, ap, sym, ◌∙◌,
  subst, inl, inr, Bool, true, false, not, ◌&&◌, ◌||◌, List, [], ◌∷◌, ◌++◌, map, Option, none, some,
  length, take, drop, replicate, get_or, any_of, count_if, keep_if, ltb, leb, ◌==◌, if◌then◌else◌,
  Text, codes, text_eq, text_lt, text_eq_refl, text_eq_sym, text_eq→eq, text_eq_iff, Result, ok,
  err, World, Action, ◌>>=◌, ◌>>◌, pure, throw, lift, gets, modify, exec, query, returning,
  exec_cases, quiet, Keeps, All, Any, All-map, take-append_length, drop-append_length, arith,
  Bool-cases, Option-cases, ==_iff, length-append, length-replicate, ltb→lt, ltb→ge, lt→ltb, leb→le,
}
use aegis_protocol.Indexer.Event.{Identity}

pub record AccountMeta : Type 0 where
  pub key : Identity
  pub signer : Bool
  pub writable : Bool

pub record Instruction : Type 0 where
  pub program : Identity
  pub accounts : List AccountMeta
  pub payload : Text

-- `Keypair`: its identity and `ed25519.Sign` with its private key.
pub record Keypair : Type 0 where
  pub identity : Identity
  pub sign : Text → Text

pub data BuildError : Type 0 where
  too_many_accounts : ℕ → BuildError
  no_key : Identity → BuildError

and_more : ℕ → Option Text → Option Text
and_more b none = none
and_more b (some bytes) = some ((b + 128) ∷ bytes)

-- The loop of `compactU16`, `none` where `fuel` is used up.
unfoldable pub compact_from : ℕ → ℕ → Option Text
unfolding and_more
compact_from zero n = none
compact_from (suc fuel) n =
    let rest = compact_from fuel (n / 128) in
    if n / 128 == 0 then some (n % 128 ∷ []) else and_more (n % 128) rest

-- `compactU16`: each turn divides, so one turn more than the number is enough.
unfoldable pub compact_option : ℕ → Option Text
unfolding compact_from
compact_option n = compact_from (suc n) n

or_empty : Option Text → Text
or_empty none = []
or_empty (some bytes) = bytes

unfoldable pub compact_u16 : ℕ → Text
unfolding compact_option or_empty
compact_u16 n = or_empty (compact_option n)

-- `add`: an account that is there takes on the roles, a new one goes to the end.
unfoldable pub add_account : AccountMeta → List AccountMeta → List AccountMeta
add_account m [] = m ∷ []
add_account m (e ∷ merged) =
    if text_eq e.key m.key
    then record e { signer = e.signer || m.signer; writable = e.writable || m.writable } ∷ merged
    else e ∷ add_account m merged

unfoldable pub add_accounts : List AccountMeta → List AccountMeta → List AccountMeta
unfolding add_account
add_accounts [] merged = merged
add_accounts (m ∷ accounts) merged = add_accounts accounts (add_account m merged)

unfoldable pub add_instructions : List Instruction → List AccountMeta → List AccountMeta
unfolding add_account add_accounts
add_instructions [] merged = merged
add_instructions (ix ∷ ixs) merged = add_instructions ixs (
    add_account (record { key = ix.program; signer = false; writable = false })
      (add_accounts ix.accounts merged))

-- The accounts in the order in which they were first named, the payer first.
unfoldable pub merged_accounts : Identity → List Instruction → List AccountMeta
unfolding add_instructions
merged_accounts payer ixs =
    add_instructions ixs (record { key = payer; signer = true; writable = true } ∷ [])

-- `rank`.
unfoldable pub rank : Identity → AccountMeta → ℕ
rank payer e =
    if text_eq e.key payer
    then 0
    else if e.signer && e.writable
    then 1
    else if e.signer
    then 2
    else if e.writable
    then 3
    else 4

unfoldable pub insert_ranked : Identity → AccountMeta → List AccountMeta → List AccountMeta
unfolding rank
insert_ranked payer e [] = e ∷ []
insert_ranked payer e (f ∷ entries) =
    if ltb (rank payer f) (rank payer e) then f ∷ insert_ranked payer e entries else e ∷ f ∷ entries

-- The sort by rank and then by order: accounts of one rank stay in their order.
unfoldable pub sorted_accounts : Identity → List AccountMeta → List AccountMeta
unfolding insert_ranked
sorted_accounts payer [] = []
sorted_accounts payer (e ∷ merged) = insert_ranked payer e (sorted_accounts payer merged)

abbrev pub is_signer : AccountMeta → Bool
is_signer e = e.signer

-- The three counts of the message's header.
unfoldable pub num_signers : List AccountMeta → ℕ
num_signers entries = count_if is_signer entries

unfoldable pub readonly_signed : List AccountMeta → ℕ
readonly_signed entries = count_if (λ e. e.signer && not e.writable) entries

unfoldable pub readonly_unsigned : List AccountMeta → ℕ
readonly_unsigned entries = count_if (λ e. not e.signer && not e.writable) entries

-- The map `index`; a key that is not in it reads as 0.
unfoldable pub index_of : ℕ → Identity → List AccountMeta → ℕ
index_of n key [] = 0
index_of n key (e ∷ entries) = if text_eq e.key key then n else index_of (n + 1) key entries

abbrev low8 : ℕ → ℕ
low8 n = n % 256

all_keys : List AccountMeta → Text
all_keys [] = []
all_keys (e ∷ entries) = e.key ++ all_keys entries

account_indices : List AccountMeta → List AccountMeta → Text
unfolding index_of
account_indices entries [] = []
account_indices entries (a ∷ accounts) =
    low8 (index_of 0 a.key entries) ∷ account_indices entries accounts

instruction_bytes : List AccountMeta → List Instruction → Text
unfolding account_indices compact_u16 index_of
instruction_bytes entries [] = []
instruction_bytes entries (ix ∷ ixs) =
    low8 (index_of 0 ix.program entries) ∷ compact_u16 (length ix.accounts)
    ++ (account_indices entries ix.accounts
        ++ (compact_u16 (length ix.payload) ++ (ix.payload ++ instruction_bytes entries ixs)))

-- `msg`.
unfoldable pub message : Identity → List AccountMeta → List Instruction → Text
unfolding num_signers readonly_signed readonly_unsigned all_keys instruction_bytes compact_u16
message blockhash entries ixs =
    low8 (num_signers entries)
      ∷ low8 (readonly_signed entries)
      ∷ low8 (readonly_unsigned entries)
      ∷ compact_u16 (length entries)
    ++ (all_keys entries
        ++ (blockhash ++ (compact_u16 (length ixs) ++ instruction_bytes entries ixs)))

-- The map `keys`, in which the payer stands first and a later signer replaces an earlier one.
unfoldable pub key_of : Identity → List Keypair → Option Keypair
key_of id [] = none
key_of id (k ∷ keys) =
    let later = key_of id keys in
    elim later [ some found ↦ some found | none ↦ if text_eq k.identity id then some k else none ]

signed_by : Text → Option Keypair → Identity → Result BuildError Text → Result BuildError Text
signed_by msg none id rest = err (no_key id)
signed_by msg (some k) id (ok rest) = ok (k.sign msg ++ rest)
signed_by msg (some k) id (err e) = err e

-- The loop over the signers, before the message itself.
unfoldable pub sign_all : List Keypair → Text → List AccountMeta → Result BuildError Text
unfolding key_of signed_by
sign_all keys msg [] = ok msg
sign_all keys msg (e ∷ entries) =
    signed_by msg (key_of e.key keys) e.key (sign_all keys msg entries)

prefixed : Text → Result BuildError Text → Result BuildError Text
prefixed bytes (ok rest) = ok (bytes ++ rest)
prefixed bytes (err e) = err e

signed_message :
    Identity → List AccountMeta → List Keypair → List Instruction → Result BuildError Text
unfolding message sign_all prefixed num_signers compact_u16
signed_message blockhash entries keys ixs =
    prefixed (compact_u16 (num_signers entries))
      (sign_all keys (message blockhash entries ixs) (take (num_signers entries) entries))

-- `BuildTransaction`.
unfoldable pub build_transaction :
    Identity → Keypair → List Keypair → List Instruction → Result BuildError Text
unfolding merged_accounts sorted_accounts signed_message
build_transaction blockhash payer signers ixs =
    let merged = merged_accounts payer.identity ixs in
    if ltb 256 (length merged)
    then err (too_many_accounts (length merged))
    else signed_message blockhash (sorted_accounts payer.identity merged) (payer ∷ signers) ixs
