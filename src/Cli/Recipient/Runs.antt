-- ===== src/Cli/Recipient/Runs.antt =====
-- Keys of a recipient under stand-ins: a PRSN's bundle and a human's, with answers that verify.
use Prim.Native.String.{String, compare}
use Prim.Native.Nat.{lt, eq, gt}
use signet_drive.Base.{
  ℕ, ◌≡◌, refl, Bytes, Bool, true, false, List, [], ◌∷◌, ◌++◌, Option, none, some,
}
use signet_drive.Base.{replicate, if◌then◌else◌, bytes_eq}
use signet_drive.Base.Ints.{ℤ, pos}
use signet_drive.Base.Results.{Result, ok, err}
use signet_drive.Crypto.Hybrid.{push_field, hybrid_rfp, validate_recipient_keys}
use signet_drive.Crypto.Wrap.{fingerprint, fingerprint_raw}
use signet_drive.Crypto.Wrap.Toy.{toy_curve}
use signet_drive.Cli.{CliError, str_at}
use signet_drive.Cli.Anchors.{legacy}
use signet_drive.Cli.Anchors.Index.{index_under, check_receipt_epoch}
use signet_drive.Cli.Recipient.{Host, RecipientWrapKeys, verify_recipient_wrap_keys}
use signet_drive.Cli.Recipient.{verify_recipient_kem_pub}
use signet_drive.Cli.Recipient.Bundle.{Named}
use signet_drive.Cli.Recipient.Words.{word_active, word_kem, word_kem_pq, word_signing}
use signet_drive.Cli.Recipient.Words.{word_signing_pq, attestation_verification_pq}
use signet_drive.Cli.Recipient.Receipt.{verify_mldsa87, verify_receipt_signatures}
use signet_drive.Cli.Recipient.Receipt.{verify_one_receipt, inline_count, verify_inline_receipts}
use signet_drive.Cli.Recipient.Trust.{ServerTrust, Request, verification, log_receipt, server_info}
use signet_drive.Cli.Recipient.Trust.{server_info_pq, server_info_receipt, find_key_by_id}
use signet_drive.Cli.Recipient.Trust.{active_pq_key, index_for, verification_signing_input}
use signet_drive.Cli.Recipient.Trust.{key_by_id, verify_dual, verify_receipt_set}
use signet_drive.Cli.Recipient.Trust.{verify_verification_response}
use signet_drive.Cli.Recipient.Resolve.{user_named, server_listed, check_bundle_epoch, decode_b64}
use signet_drive.Cli.Recipient.Resolve.{check_subject, check_attested_keys, verify_half}
use signet_drive.Cli.Recipient.Resolve.{verify_against_attestation, verify_against_receipts}
use signet_drive.Cli.Recipient.Resolve.{verified_wrap_keys}
use signet_drive.Cli.Recipient.Resolve.{is_prsn_handle}
use signet_drive.Cli.Recipient.Source.{Attested}
use signet_drive.Cli.Recipient.Logged.{LoggedPair}
use signet_drive.Cli.Recipient.Accepted.{verified_wrap_keys-prsn, verified_wrap_keys-human}
use signet_drive.Cli.Recipient.Accepted.{verified_wrap_keys-user_named, AccountIn, ClaimAgrees}
use signet_drive.Cli.Recipient.Binds.{NamesEpoch}
use signet_drive.Base.{◌⊎◌}
use signet_drive.Crypto.Token.{verify_es256, parse_signature}
use signet_drive.Crypto.Translog.{receipt_signing_input}

abbrev same_text : String → String → Bool
same_text a b = elim (compare a b) [ lt ↦ false | eq ↦ true | gt ↦ false ]

-- A digest that does not read its input.
abbrev toy_sha256 : Bytes → Bytes
toy_sha256 input = replicate 32 0

-- One object holds every field that is read of the bundle, the response and the attestation; a
-- receipt and a server key have their own.
data Node : Type 0 where
  text : Bytes → Node
  number : ℕ → Node
  entries : Node
  server_key : Node
  receipt : Bytes → Bytes → Node
  whole : Bytes → Node

abbrev kem : Bytes
kem = toy_curve.public_key (replicate 32 9)

abbrev ek : Bytes
ek = replicate 1568 1

abbrev kem_fp : Bytes
kem_fp = toy_sha256 kem

abbrev ek_fp : Bytes
ek_fp = toy_sha256 ek

abbrev Table : Type 0
Table = List (String × Node)

abbrev find : String → Table → Option Node
find field [] = none
find field ((name, node) ∷ rest) =
    let more = find field rest in if same_text name field then some node else more

abbrev fields : Bytes → Table
fields handle =
    ("handle", text handle)
    ∷ ("account_id", text (7 ∷ []))
    ∷ ("kem_pubkey", text kem)
    ∷ ("kem_pubkey_fingerprint", text kem_fp)
    ∷ ("kem_pq_pubkey", text ek)
    ∷ ("kem_pq_pubkey_fingerprint", text ek_fp)
    ∷ ("attestation_id", text (1 ∷ []))
    ∷ ("attestation", whole handle)
    ∷ ("server_key_id", text (2 ∷ []))
    ∷ ("server_signature", text (3 ∷ []))
    ∷ ("server_signature_mldsa87", text (4 ∷ []))
    ∷ ("signed_at", number 5)
    ∷ ("status", text word_active)
    ∷ ("subject_account_id", text (7 ∷ []))
    ∷ ("subject_handle", text handle)
    ∷ ("subject_kem_pubkey", text kem)
    ∷ ("subject_kem_pq_pubkey", text ek)
    ∷ ("rfp", text (toy_sha256 (push_field kem ++ push_field ek)))
    ∷ ("subject_signing_pubkey_fingerprint", text (8 ∷ []))
    ∷ ("subject_signing_pq_pubkey_fingerprint", text (9 ∷ []))
    ∷ ("subject_kem_pubkey_fingerprint", text kem_fp)
    ∷ ("subject_kem_pq_pubkey_fingerprint", text ek_fp)
    ∷ ("subject_signing_pubkey_receipt", receipt word_signing (8 ∷ []))
    ∷ ("subject_signing_pq_pubkey_receipt", receipt word_signing_pq (9 ∷ []))
    ∷ ("subject_kem_pubkey_receipt", receipt word_kem kem_fp)
    ∷ ("subject_kem_pq_pubkey_receipt", receipt word_kem_pq ek_fp)
    ∷ []

abbrev get_field : Node → String → Option Node
get_field (text bytes) field = none
get_field (number n) field = none
get_field entries field = none
get_field server_key field = find field (
    ("key_id", text (2 ∷ []))
    ∷ ("purpose", text attestation_verification_pq)
    ∷ ("public_key", text (6 ∷ []))
    ∷ [])
get_field (receipt purpose fp) field = find field (
    ("public_key_fingerprint", text fp)
    ∷ ("key_purpose", text purpose)
    ∷ ("account_id", text (7 ∷ []))
    ∷ ("server_key_id", text (2 ∷ []))
    ∷ ("server_signature", text (3 ∷ []))
    ∷ ("server_signature_mldsa87", text (4 ∷ []))
    ∷ ("server_pq_key_id", text (2 ∷ []))
    ∷ [])
get_field (whole handle) field =
    if same_text field "current_signing_keys" then some entries else find field (fields handle)

abbrev text_of : Node → Option Bytes
text_of (text bytes) = some bytes
text_of (number n) = none
text_of entries = none
text_of server_key = none
text_of (receipt purpose fp) = none
text_of (whole handle) = none

abbrev number_of : Node → Option ℕ
number_of (text bytes) = none
number_of (number n) = some n
number_of entries = none
number_of server_key = none
number_of (receipt purpose fp) = none
number_of (whole handle) = none

abbrev integer_of : Node → Option ℤ
integer_of (text bytes) = none
integer_of (number n) = some (pos n)
integer_of entries = none
integer_of server_key = none
integer_of (receipt purpose fp) = none
integer_of (whole handle) = none

abbrev host : Host Node
host = record {
  reader = record {
    get = get_field;
    as_str = text_of;
    as_u64 = number_of;
    as_i64 = integer_of;
    as_bool = λ node. none;
    as_array = λ node. some (server_key ∷ []);
    is_null = λ node. false;
  };
  remove = λ node field. some node;
  decode64 = λ bytes. some bytes;
  to_canonical_bytes = λ node. ok [];
  i64_to_string = λ n. [];
  sha256 = toy_sha256;
  hex = λ bytes. bytes;
  curve = toy_curve;
  p256 = record {
    key_from_sec1 = λ bytes. some bytes;
    signature_from_slice = λ bytes. some bytes;
    signature_from_der = λ bytes. some bytes;
    key_verify = λ vk msg sig. true;
  };
  mldsa = record {
    key_from_slice = λ bytes. some bytes;
    signature_from_slice = λ bytes. some bytes;
    signature_decode = λ bytes. some bytes;
    verify_with_context = λ vk msg ctx sig. true;
  };
  vrf = record {
    key_from_bytes = λ bytes. some bytes;
    proof_from_bytes = λ bytes. some bytes;
    output = λ pk input proof. some input;
  };
  ids = record { hex_decode = λ bytes. some bytes; uuid_parse_str = λ bytes. some bytes };
}

abbrev is_ok : {A : Type 0} → Result CliError A → Bool
is_ok (ok a) = true
is_ok (err e) = false

-- "a-ai" and "ana".
abbrev prsn : Bytes
prsn = 97 ∷ 45 ∷ 97 ∷ 105 ∷ []

abbrev human : Bytes
human = 97 ∷ 110 ∷ 97 ∷ []

abbrev trust : ServerTrust Node
trust = record { info = whole human; mode = legacy; epoch = 1 }

abbrev answer : Request → Result CliError Node
answer (server_info key_id) = ok (whole human)
answer (server_info_pq key_id) = ok (whole human)
answer (server_info_receipt purpose key_id) = ok (whole human)
answer (verification id) = ok (whole prsn)
answer (log_receipt fp purpose epoch) = ok (receipt purpose fp)

abbrev keys : RecipientWrapKeys
keys = record { rk_ec = kem; rk_pq = some ek }

prsn_accepted : verified_wrap_keys host answer trust (whole prsn) (user_named prsn) ≡ ok keys
unfolding verified_wrap_keys verify_recipient_wrap_keys verify_recipient_kem_pub fingerprint
    fingerprint_raw check_bundle_epoch verify_against_attestation verify_verification_response
    verify_dual verification_signing_input key_by_id find_key_by_id verify_mldsa87 active_pq_key
    verify_receipt_set index_for index_under verify_inline_receipts inline_count check_receipt_epoch
    verify_one_receipt verify_receipt_signatures check_subject check_attested_keys decode_b64
    hybrid_rfp validate_recipient_keys bytes_eq verify_es256 parse_signature receipt_signing_input
prsn_accepted = refl

human_accepted : verified_wrap_keys host answer trust (whole human) server_listed ≡ ok keys
unfolding verified_wrap_keys verify_recipient_wrap_keys verify_recipient_kem_pub fingerprint
    fingerprint_raw check_bundle_epoch verify_against_receipts verify_half key_by_id find_key_by_id
    verify_mldsa87 active_pq_key index_for index_under verify_one_receipt verify_receipt_signatures
    bytes_eq verify_es256 parse_signature receipt_signing_input
human_accepted = refl

-- The human's bundle under a PRSN's name is refused.
other_refused : is_ok (verified_wrap_keys host answer trust (whole human) (user_named prsn)) ≡ false
unfolding verified_wrap_keys bytes_eq
other_refused = refl

verified_wrap_keys-prsn_example :
    (account_id : Bytes) × (proof : Option Bytes) × AccountIn host answer trust
      (whole prsn)
      account_id
      proof
    × Named host (whole prsn) keys
    × Attested host answer trust (whole prsn) account_id prsn keys
verified_wrap_keys-prsn_example =
    verified_wrap_keys-prsn host answer trust (whole prsn) (user_named prsn) prsn refl
      (unfold bytes_eq in refl) prsn_accepted

verified_wrap_keys-human_example :
    (account_id : Bytes) × (proof : Option Bytes) × AccountIn host answer trust
      (whole human)
      account_id
      proof
    × Named host (whole human) keys
    × LoggedPair host answer trust (whole human) account_id proof
verified_wrap_keys-human_example =
    verified_wrap_keys-human host answer trust (whole human) server_listed human refl
      (unfold bytes_eq in refl) human_accepted

verified_wrap_keys-user_named_example :
    (str_at host.reader (whole prsn) "handle" ≡ some prsn)
    × Named host (whole prsn) keys
    × NamesEpoch host.reader (whole prsn) (trust.epoch)
    × ClaimAgrees host answer trust
        (str_at host.reader (whole prsn) "account_type")
        (is_prsn_handle prsn)
    × (account_id : Bytes) × (proof : Option Bytes) × AccountIn host answer trust
        (whole prsn)
        account_id
        proof
    × (((is_prsn_handle prsn ≡ true) × Attested host answer trust (whole prsn) account_id prsn keys)
        ⊎ ((is_prsn_handle prsn ≡ false)
            × LoggedPair host answer trust (whole prsn) account_id proof))
verified_wrap_keys-user_named_example =
    verified_wrap_keys-user_named host answer trust (whole prsn) prsn prsn_accepted
