-- ===== src/Crypto/Translog.antt =====
-- The entries of the transparency log: crypto/src/translog.rs.
--
-- SHA-256 is the parameter `sha256`. A `u64` is a number below 2^64, and its eight bytes are `be 8`;
-- `len() as u32` keeps the low four bytes, as `be 4` does. The canonical JSON of a receipt is a
-- parameter of `receipt_signing_input`.
pub mod Binding
mod Runs
use signet_drive.Base.{ℕ, Bytes, Option, none, some, [], ◌∷◌, ◌++◌, length, replicate}
use signet_drive.Base.BigEndian.{be}
use signet_drive.Base.Results.{Result, ok, err, ◌>>=◌}
use signet_drive.Crypto.{CryptoError}

pub data KeyPurpose : Type 0 where
  epoch : KeyPurpose
  signing : KeyPurpose
  kem : KeyPurpose
  signing_pq : KeyPurpose
  kem_pq : KeyPurpose

-- `KeyPurpose::as_byte`.
abbrev pub as_byte : KeyPurpose → ℕ
as_byte epoch = 0x00
as_byte signing = 0x01
as_byte kem = 0x02
as_byte signing_pq = 0x03
as_byte kem_pq = 0x04

abbrev pub entry_version_v2 : ℕ
entry_version_v2 = 0x02

abbrev pub entry_version_v3 : ℕ
entry_version_v3 = 0x03

abbrev pub index_len : ℕ
index_len = 64

-- `Option::unwrap_or` of an account with `n` bytes.
abbrev pub account_or : ℕ → Option Bytes → Bytes
account_or n none = replicate n 0
account_or n (some account) = account

-- `"signet-pubkey-log-v3-epoch"`.
abbrev pub epoch_payload_v3_tag : Bytes
epoch_payload_v3_tag =
    115 ∷ 105 ∷ 103 ∷ 110 ∷ 101 ∷ 116 ∷ 45 ∷ 112 ∷ 117 ∷ 98 ∷ 107 ∷ 101 ∷ 121 ∷ 45 ∷ 108 ∷ 111 ∷ 103
    ∷ 45 ∷ 118 ∷ 51 ∷ 45 ∷ 101 ∷ 112 ∷ 111 ∷ 99 ∷ 104 ∷ []

-- `"signet-pubkey-log-receipt-v1\n"`.
abbrev pub receipt_prefix : Bytes
receipt_prefix =
    115 ∷ 105 ∷ 103 ∷ 110 ∷ 101 ∷ 116 ∷ 45 ∷ 112 ∷ 117 ∷ 98 ∷ 107 ∷ 101 ∷ 121 ∷ 45 ∷ 108 ∷ 111 ∷ 103
    ∷ 45 ∷ 114 ∷ 101 ∷ 99 ∷ 101 ∷ 105 ∷ 112 ∷ 116 ∷ 45 ∷ 118 ∷ 49 ∷ 10 ∷ []

module _ (sha256 : Bytes → Bytes) where
  pub entry_hash : ℕ → Bytes → KeyPurpose → Bytes → Bytes → ℕ → Bytes → Bytes
  entry_hash entry_id account_id key_purpose algorithm public_key created_at prev_entry_hash =
      sha256 (
        be 8 entry_id
        ++ (account_id
            ++ (as_byte key_purpose
                ∷ (be 4 (length algorithm)
                    ++ (algorithm ++ (public_key ++ (be 8 created_at ++ prev_entry_hash)))))))

  pub entry_hash_v2 : ℕ → Option Bytes → KeyPurpose → Bytes → Bytes → ℕ → Bytes → Bytes
  entry_hash_v2 entry_id account_id key_purpose algorithm public_key created_at prev_entry_hash =
      sha256 (
        entry_version_v2
        ∷ (be 8 entry_id
            ++ (account_or 16 account_id
                ++ (as_byte key_purpose
                    ∷ (be 4 (length algorithm)
                        ++ (algorithm
                            ++ (be 4 (length public_key)
                                ++ (public_key ++ (be 8 created_at ++ prev_entry_hash)))))))))

  unfoldable pub entry_hash_v3 : ℕ → Option Bytes → KeyPurpose → Bytes → Bytes → ℕ → Bytes → Bytes
  entry_hash_v3 entry_id account_index key_purpose algorithm public_key created_at prev_entry_hash =
      sha256 (
        entry_version_v3
        ∷ (be 8 entry_id
            ++ (account_or index_len account_index
                ++ (as_byte key_purpose
                    ∷ (be 4 (length algorithm)
                        ++ (algorithm
                            ++ (be 4 (length public_key)
                                ++ (public_key ++ (be 8 created_at ++ prev_entry_hash)))))))))

  unfoldable pub epoch_payload_v3 : ℕ → ℕ → Bytes → Bytes → Bytes
  epoch_payload_v3 epoch_number prev_epoch_size prev_epoch_root vrf_public_key =
      epoch_payload_v3_tag
      ++ (0x00
          ∷ (be 2 epoch_number
              ++ (be 8 prev_epoch_size ++ (prev_epoch_root ++ sha256 vrf_public_key))))

unfoldable pub receipt_signing_input :
    {Value : Type 0} → (Value → Result CryptoError Bytes) → Value → Result CryptoError Bytes
receipt_signing_input to_canonical_bytes receipt =
    to_canonical_bytes receipt >>= λ canonical. ok (receipt_prefix ++ canonical)
