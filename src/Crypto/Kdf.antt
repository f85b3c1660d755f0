-- ===== src/Crypto/Kdf.antt =====
-- Key derivation: crypto/src/concatkdf.rs and crypto/src/kdf.rs.
--
-- SHA-256 (the sha2 crate) is a parameter, and so is the HKDF of the hkdf crate. The counter of the
-- Concat KDF is a `u32`.
pub mod Output
use Prim.Native.String.{String}
use signet_drive.Base.{ℕ, zero, suc, ◌+◌, ◌^◌, ◌%◌, ◌≡◌, ◌≤◌, Bytes, [], ◌++◌, length, take, ltb}
use signet_drive.Base.{if◌then◌else◌, Option, none, some}
use signet_drive.Base.Results.{Result, ok, err, ok_or}
use signet_drive.Base.BigEndian.{be}
use signet_drive.Crypto.{CryptoError, invalid_input}
use signet_drive.Crypto.Names.{as_jose, ecdh_es_a256_kw}

-- The bytes that `push_datum` appends; `be 4` takes the low 32 bits, as the cast does.
unfoldable pub push_datum : Bytes → Bytes
push_datum datum = be 4 (length datum) ++ datum

unfoldable pub jose_other_info : Bytes → Bytes → Bytes → ℕ → Bytes
unfolding push_datum
jose_other_info algorithm_id party_u party_v keydatalen_bits =
    push_datum algorithm_id ++ (push_datum party_u ++ (push_datum party_v ++ be 4 keydatalen_bits))

abbrev pub sha256_out : ℕ
sha256_out = 32

-- `Hkdf::<Sha256>::new(Some(salt), ikm)` and its `expand(info, okm)`: input key material, salt, info
-- and the length of the output. `none` is the crate's error.
abbrev pub Hkdf : Type 0
Hkdf = Bytes → Bytes → Bytes → ℕ → Option Bytes

-- The output is as long as asked for, up to 255 blocks.
pub record HkdfLaws (hkdf : Hkdf) : Type 0 where
  pub fills :
      (ikm salt info : Bytes) (n : ℕ)
      → n ≤ 8160
      → (okm : Bytes) × (hkdf ikm salt info n ≡ some okm) × (length okm ≡ n)

unfoldable pub hkdf_sha256 : Hkdf → Bytes → Bytes → Bytes → ℕ → Result CryptoError Bytes
hkdf_sha256 hkdf ikm salt info out_len =
    ok_or (hkdf ikm salt info out_len) (invalid_input "hkdf output length")

module _ (sha256 : Bytes → Bytes) where
  -- `while out.len() < out_len { … }` with fuel.
  unfoldable pub concat_kdf_loop : ℕ → Bytes → Bytes → ℕ → ℕ → Bytes → Bytes
  concat_kdf_loop zero z other_info out_len counter out = out
  concat_kdf_loop (suc fuel) z other_info out_len counter out =
      let more =
        concat_kdf_loop fuel z other_info out_len ((counter + 1) % 2 ^ 32)
          (out ++ sha256 (be 4 counter ++ (z ++ other_info))) in
      if ltb (length out) out_len then more else out

  -- A round adds 32 bytes, so `out_len` rounds are enough (`length-concat_kdf_sha256` in
  -- Crypto/Kdf/Output.antt).
  unfoldable pub concat_kdf_sha256 : Bytes → Bytes → ℕ → Bytes
  unfolding concat_kdf_loop
  concat_kdf_sha256 z other_info out_len =
      take out_len (concat_kdf_loop out_len z other_info out_len 1 [])

  -- The conversion to `[u8; 32]` cannot fail (`length-ecdh_es_a256kw_kek`).
  unfoldable pub ecdh_es_a256kw_kek : Bytes → Bytes → Bytes
  unfolding concat_kdf_sha256 jose_other_info
  ecdh_es_a256kw_kek z party_v =
      concat_kdf_sha256 z (jose_other_info (as_jose ecdh_es_a256_kw) [] party_v 256) sha256_out
