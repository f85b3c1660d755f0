-- ===== src/Cli/Anchors/Index.antt =====
-- What binds a key to an account in the anchored epoch: the account's VRF index, of cli/src/anchors.rs
-- and crypto/src/vrf.rs, and the epoch a receipt answers for.
--
-- The vrf-r255 crate, the hex crate and the uuid crate are parameters.
use Prim.Native.String.{String}
use signet_drive.Base.{ℕ, Bytes, not, [], ◌∷◌, ◌++◌, length, Option, none, some, ◌==◌}
use signet_drive.Base.{if◌then◌else◌}
use signet_drive.Base.Results.{Result, ok, err, ◌>>=◌, ◌>>◌, ok_or, refuse_if, map_err}
use signet_drive.Crypto.{CryptoError, invalid_input, signature_invalid}
use signet_drive.Cli.{CliError, invalid_data, transparency_violation, as_epoch_move, Reader}
use signet_drive.Cli.Anchors.{LogMode, legacy, v3}

-- `PublicKey::from_bytes`, `Proof::from_bytes` and `PublicKey::verify`; parsed keys and proofs are
-- kept as bytes.
pub record Vrf : Type 0 where
  pub key_from_bytes : Bytes → Option Bytes
  pub proof_from_bytes : Bytes → Option Bytes
  pub output : Bytes → Bytes → Bytes → Option Bytes

pub record Ids : Type 0 where
  pub hex_decode : Bytes → Option Bytes
  pub uuid_parse_str : Bytes → Option Bytes

-- "signet-pubkey-log-v3-account-index".
abbrev pub alpha_domain : Bytes
alpha_domain =
    115 ∷ 105 ∷ 103 ∷ 110 ∷ 101 ∷ 116 ∷ 45 ∷ 112 ∷ 117 ∷ 98 ∷ 107 ∷ 101 ∷ 121 ∷ 45 ∷ 108 ∷ 111 ∷ 103
    ∷ 45 ∷ 118 ∷ 51 ∷ 45 ∷ 97 ∷ 99 ∷ 99 ∷ 111 ∷ 117 ∷ 110 ∷ 116 ∷ 45 ∷ 105 ∷ 110 ∷ 100 ∷ 101 ∷ 120
    ∷ []

abbrev pub proof_len : ℕ
proof_len = 80

unfoldable pub alpha : Bytes → Bytes
alpha account_id = alpha_domain ++ (0x00 ∷ account_id)

-- crypto/src/vrf.rs `verify`.
unfoldable pub vrf_verify : Vrf → Bytes → Bytes → Bytes → Result CryptoError Bytes
unfolding alpha
vrf_verify vrf public_key account_id proof =
    ok_or (vrf.key_from_bytes public_key) (invalid_input "VRF public key") >>= λ pk.
    ok_or (vrf.proof_from_bytes proof) (invalid_input "VRF proof") >>= λ pi.
    ok_or (vrf.output pk (alpha account_id) pi) signature_invalid

unfoldable pub account_index : Vrf → Ids → Bytes → Bytes → Option Bytes → Result CliError Bytes
account_index vrf ids vrf_public_key account_id proof_hex =
    ok_or (ids.uuid_parse_str account_id) (invalid_data "the account id is not a UUID")
    >>= λ account.
        ok_or proof_hex
          (transparency_violation "the response names an account but carries no VRF proof for it")
        >>= λ text.
            ok_or (ids.hex_decode text)
              (transparency_violation "the account's VRF proof is not {}-byte hex")
            >>= λ proof.
                refuse_if (not (length proof == proof_len))
                  (transparency_violation "the account's VRF proof is not {}-byte hex")
                >> map_err
                    (λ e.
                      transparency_violation
                        "the account's VRF proof does not verify under the pinned epoch key")
                    (vrf_verify vrf vrf_public_key account proof)

-- `index_under`; `none` in epoch 1.
unfoldable pub index_under :
    Vrf → Ids → LogMode → Bytes → Option Bytes → Result CliError (Option (ℕ × Bytes))
index_under vrf ids legacy account_id proof = ok none
index_under vrf ids (v3 epoch vrf_public_key genesis) account_id proof =
    account_index vrf ids vrf_public_key account_id proof >>= λ index. ok (some (epoch, index))

-- `receipt.get("epoch").map_or(Some(1), Value::as_u64)`.
abbrev pub named_epoch : {J : Type 0} → Reader J → Option J → Option ℕ
named_epoch r none = some 1
named_epoch r (some j) = r.as_u64 j

abbrev pub check_epoch : Option ℕ → ℕ → String → Result CliError (Unit {0})
check_epoch none epoch what = err (as_epoch_move (transparency_violation what))
check_epoch (some n) epoch what =
    if n == epoch then ok tt else err (as_epoch_move (transparency_violation what))

unfoldable pub check_receipt_epoch : {J : Type 0} → Reader J → J → ℕ → Result CliError (Unit {0})
check_receipt_epoch r receipt epoch =
    check_epoch (named_epoch r (r.get receipt "epoch")) epoch
      "a log receipt answers for epoch {}, but the anchored epoch is {}"
