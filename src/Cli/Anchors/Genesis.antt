-- ===== src/Cli/Anchors/Genesis.antt =====
-- `check_genesis` of cli/src/anchors.rs: the first entry of an epoch must be the one that the key line
-- pins.
--
-- SHA-256 and base64url are parameters. An error's message is without the epoch.
use signet_drive.Base.{ℕ, ◌+◌, ◌%◌, Bytes, Bool, true, false, not, ◌||◌, ◌==◌, [], ◌∷◌, Option}
use signet_drive.Base.{none, some, bytes_eq, replicate}
use signet_drive.Base.Results.{Result, ok, ◌>>=◌, ◌>>◌, ok_or, refuse_if}
use signet_drive.Crypto.Translog.{epoch, entry_hash_v3, epoch_payload_v3}
use signet_drive.Cli.{CliError, transparency_violation, Reader, and_then, str_at, u64_at}
use signet_drive.Cli.Anchors.{Anchors, LogMode, legacy, v3, epoch_end_of}

-- "signet-translog-v3".
abbrev pub epoch_algorithm_v3 : Bytes
epoch_algorithm_v3 =
    115 ∷ 105 ∷ 103 ∷ 110 ∷ 101 ∷ 116 ∷ 45 ∷ 116 ∷ 114 ∷ 97 ∷ 110 ∷ 115 ∷ 108 ∷ 111 ∷ 103 ∷ 45 ∷ 118
    ∷ 51 ∷ []

-- "epoch".
abbrev pub word_epoch : Bytes
word_epoch = 101 ∷ 112 ∷ 111 ∷ 99 ∷ 104 ∷ []

-- `epoch - 1` on a `u16`, in a release build.
abbrev pub epoch_before : ℕ → ℕ
epoch_before n = (n + 65535) % 65536

abbrev is_number : Option ℕ → ℕ → Bool
is_number none n = false
is_number (some m) n = m == n

abbrev is_text : Option Bytes → Bytes → Bool
is_text none word = false
is_text (some text) word = bytes_eq text word

module _ {J : Type 0} (reader : Reader J) (decode64 : Bytes → Option Bytes)
    (sha256 : Bytes → Bytes) where
  -- `is_none_or(Value::is_null)`.
  abbrev none_or_null : Option J → Bool
  none_or_null none = true
  none_or_null (some value) = reader.is_null value

  abbrev pub is_other_entry : J → Bool
  is_other_entry genesis =
      not (is_number (u64_at reader genesis "entry_id") 1)
      || (not (is_number (u64_at reader genesis "entry_version") 3)
          || (not (is_text (str_at reader genesis "key_purpose") word_epoch)
              || not (none_or_null (reader.get genesis "account_index"))))

  unfoldable pub check_genesis : LogMode → Anchors → J → Result CliError (Unit {0})
  check_genesis legacy anchors genesis = ok tt
  check_genesis (v3 e vrf_public_key genesis_entry_hash) anchors genesis =
      ok_or (epoch_end_of anchors (epoch_before e))
        (transparency_violation "no end line for epoch {}")
      >>= λ end.
          refuse_if (is_other_entry genesis)
            (transparency_violation "is not a v3, account-less, first entry")
          >> (ok_or (and_then (str_at reader genesis "public_key") decode64)
                (transparency_violation "has no readable payload")
              >>= λ payload.
                  refuse_if
                    (not (
                      bytes_eq payload (
                        epoch_payload_v3 sha256 e (end.log_size) (end.merkle_root) vrf_public_key)))
                    (transparency_violation "does not bind the published end of the previous epoch")
                  >> (ok_or (u64_at reader genesis "created_at")
                        (transparency_violation "has no created_at")
                      >>= λ created_at.
                          refuse_if
                            (not (
                              bytes_eq
                                (entry_hash_v3 sha256 1 none epoch epoch_algorithm_v3 payload
                                  created_at (replicate 32 0))
                                genesis_entry_hash))
                            (transparency_violation
                              "does not hash to the pinned genesis_entry_hash")))
