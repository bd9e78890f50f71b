-- ===== src/Witnesses/SvmRuns.antt =====
-- The theorems on the receiver handler and on the Solana client at concrete inputs.
use aegis_protocol.Base.{
  ℕ, ◌≡◌, refl, Bool, true, false, not, ◌&&◌, List, [], ◌∷◌, ◌++◌, none, some, length, take, drop,
  ◌==◌, if◌then◌else◌, Text, codes, text_eq, ok, err, quiet, Result, keep_if, arith, ◌<◌, get_or,
}
use aegis_protocol.Indexer.Event.{Event, Field, identity, string, big_int}
use aegis_protocol.Indexer.Grown.{Grown}
use aegis_protocol.Indexer.Receiver.{
  GovernanceReceiverHandler, RemoteAction, pending, event_message_executed,
}
use aegis_protocol.Indexer.Receiver.Closed.{RemoteStep, deliver, deliver-RemoteStep}
use aegis_protocol.Svm.Idl.{
  FieldKind, FieldLayout, decode_fields, kind_uint, kind_enum, kind_string, trailing_bytes,
}
use aegis_protocol.Svm.Idl.RoundTrip.{encode_fields, named_from, decode_fields-encode_fields}
use aegis_protocol.Svm.Signatures.{SignatureInfo, failed, signatures_in_range}
use aegis_protocol.Svm.Signatures.Paging.{
  IsNewestFirst, Serves, in_range, signatures_in_range-history,
}
use aegis_protocol.Svm.Transaction.{
  Instruction, merged_accounts, sorted_accounts, num_signers, message, compact_option,
}
use aegis_protocol.Svm.Transaction.Compact.{read_compact, compact_u16-read_compact}
use aegis_protocol.Svm.Transaction.Signers.{none_signs, all_sign, headed}
use aegis_protocol.Svm.Transaction.Payer.{sorted_accounts-signers}

abbrev receiver_handler : GovernanceReceiverHandler
receiver_handler = record { contract = codes "receiver"; encode = λ i. i }

abbrev received : RemoteAction
received = record {
  chain_id = 900;
  receiver = codes "receiver";
  emitter_chain = 2;
  sequence = 7;
  source_chain_id = 1;
  operation_id = 3;
  target = codes "program";
  declared_value = 0;
  accounts_hash = [];
  executable_at = 600;
  received_at = 500;
  received_tx = codes "sig";
  status = pending;
  closing = none;
}

abbrev execution : Event
execution = record {
  chain_id = 900;
  block_number = 30;
  block_time = 700;
  tx_hash = codes "sig2";
  log_index = 0;
  contract = codes "receiver";
  name = event_message_executed;
  payload =
      (codes "emitterChain", big_int 2)
      ∷ (codes "sequence", big_int 7)
      ∷ (codes "executor", identity (codes "relayer"))
      ∷ [];
}

deliver-RemoteStep_example :
    Grown RemoteStep
      (received ∷ [])
      (deliver receiver_handler (execution ∷ execution ∷ []) (quiet (received ∷ []))).state
deliver-RemoteStep_example =
    deliver-RemoteStep receiver_handler (execution ∷ execution ∷ []) (quiet (received ∷ []))

abbrev layout : Text → FieldKind → ℕ → FieldLayout
layout name kind size = record {
  name = name;
  kind = kind;
  size = size;
  variants = codes "manual" ∷ codes "floor" ∷ [];
  elem_size = 0;
  elem_signed = false;
  count = 0;
}

abbrev fields : List FieldLayout
fields =
    layout (codes "amount") kind_uint 8
    ∷ layout (codes "name") kind_string 0
    ∷ layout (codes "reason") kind_enum 1
    ∷ []

abbrev values : List Field
values = big_int 1000 ∷ string (codes "ETH") ∷ string (codes "floor") ∷ []

abbrev behind : Text
behind = 5 ∷ []

abbrev encoded : Text
encoded = 232 ∷ 3 ∷ 0 ∷ 0 ∷ 0 ∷ 0 ∷ 0 ∷ 0 ∷ 3 ∷ 0 ∷ 0 ∷ 0 ∷ 69 ∷ 84 ∷ 72 ∷ 1 ∷ 5 ∷ []

abbrev all_valid : Text → Bool
all_valid t = true

values_encoded : encode_fields all_valid fields values behind ≡ some encoded
unfolding encode_fields text_eq
values_encoded = refl

decode_fields-encode_fields_example : decode_fields all_valid fields encoded true ≡ (
    if true && not (length behind == 0)
    then err (trailing_bytes (length behind))
    else ok (named_from all_valid fields values []))
decode_fields-encode_fields_example =
    decode_fields-encode_fields all_valid fields values behind encoded true values_encoded

compact_u16-read_compact_example :
    (bytes : Text) × (compact_option 300 ≡ some bytes)
    × (read_compact (bytes ++ 9 ∷ []) ≡ some (300, 9 ∷ []))
compact_u16-read_compact_example = compact_u16-read_compact 300 (9 ∷ [])

abbrev vote : Instruction
vote = record {
  program = codes "program";
  accounts =
      record { key = codes "state"; signer = false; writable = true }
      ∷ record { key = codes "node"; signer = true; writable = false }
      ∷ [];
  payload = [];
}

two_signers :
    num_signers (sorted_accounts (codes "payer") (merged_accounts (codes "payer") (vote ∷ [])))
    < 256
unfolding num_signers sorted_accounts merged_accounts text_eq
two_signers = omega arith

sorted_accounts-signers_example :
    let entries = sorted_accounts (codes "payer") (merged_accounts (codes "payer") (vote ∷ [])) in
    let n = get_or (message (codes "hash") entries (vote ∷ [])) 0 0 in
    (headed (codes "payer") entries ≡ true)
    × (all_sign (take n entries) ≡ true)
    × (none_signs (drop n entries) ≡ true)
sorted_accounts-signers_example =
    sorted_accounts-signers (codes "hash") (codes "payer") (vote ∷ []) two_signers

abbrev signed : ℕ → ℕ → Text → SignatureInfo
signed c at bad = record { signature = c ∷ []; slot = at; error = bad }

abbrev history : List SignatureInfo
history =
    signed 1 30 [] ∷ signed 2 20 (codes "{}") ∷ signed 3 20 (codes " null") ∷ signed 4 10 [] ∷ []

abbrev node : Text → Result Text (List SignatureInfo)
node [] = ok history
node (c ∷ t) = ok (drop c history)

signatures_in_range-history_example :
    signatures_in_range node 20 30 5 ≡ some (ok (keep_if (in_range 20 30) history))
unfolding Serves IsNewestFirst
signatures_in_range-history_example =
    signatures_in_range-history node 20 30 5 history refl (refl, (refl, (refl, (refl, tt))))
      (
        (omega arith, (omega arith, (omega arith, tt))),
        ((omega arith, (omega arith, tt)), ((omega arith, tt), (tt, tt))),
      )
      (omega arith)

found_in_range :
    signatures_in_range node 20 30 1 ≡ some (ok (signed 1 30 [] ∷ signed 3 20 (codes " null") ∷ []))
unfolding signatures_in_range failed
found_in_range = refl
