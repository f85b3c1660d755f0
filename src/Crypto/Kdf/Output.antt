-- ===== src/Crypto/Kdf/Output.antt =====
-- What the key derivation of crypto/src/concatkdf.rs returns: the blocks of SP 800-56A, as many
-- bytes as asked for.
use signet_drive.Base.{ℕ, zero, suc, ◌+◌, ◌-◌, ◌*◌, ◌/◌, ◌^◌, ◌%◌, ◌≡◌, ◌≤◌, ◌<◌, refl, ap, arith}
use signet_drive.Base.{sym, ◌∙◌, Bytes, [], ◌++◌, length, take}
use signet_drive.Base.{length-append, length-take, append_assoc, append-nil}
use signet_drive.Base.BigEndian.{be, field_inj}
use signet_drive.Base.{take_whole}
use signet_drive.Crypto.Names.{as_jose, ecdh_es_a256_kw}
use signet_drive.Crypto.Kdf.{push_datum, jose_other_info, concat_kdf_loop, concat_kdf_sha256}
use signet_drive.Crypto.Kdf.{ecdh_es_a256kw_kek}

-- Two contexts with one encoding are the same.
pub jose_other_info_inj :
    (a u v a' u' v' : Bytes) (n n' : ℕ)
    → length a < 2 ^ 32
    → length u < 2 ^ 32
    → length v < 2 ^ 32
    → length a' < 2 ^ 32
    → length u' < 2 ^ 32
    → length v' < 2 ^ 32
    → jose_other_info a u v n ≡ jose_other_info a' u' v' n'
    → (a ≡ a') × (u ≡ u') × (v ≡ v')
unfolding jose_other_info push_datum
jose_other_info_inj a u v a' u' v' n n' ha hu hv ha' hu' hv' e =
    let (p, e₁) = field_inj a a' ha ha' (sym (append_assoc _ a _) ∙ e ∙ append_assoc _ a' _) in
    let (q, e₂) = field_inj u u' hu hu' (sym (append_assoc _ u _) ∙ e₁ ∙ append_assoc _ u' _) in
    let (r, e₃) = field_inj v v' hv hv' (sym (append_assoc _ v _) ∙ e₂ ∙ append_assoc _ v' _) in
    (p, q, r)

module _ (sha256 : Bytes → Bytes) where
  -- SP 800-56A: the digests of `counter ‖ z ‖ other_info` for `n` counters from `counter`.
  abbrev pub blocks : ℕ → ℕ → Bytes → Bytes → Bytes
  blocks zero counter z other_info = []
  blocks (suc n) counter z other_info =
      sha256 (be 4 counter ++ (z ++ other_info)) ++ blocks n (counter + 1) z other_info

  module _ (digest_length : (x : Bytes) → length (sha256 x) ≡ 32) where
    length-blocks :
        (n counter : ℕ) (z other_info : Bytes) → length (blocks n counter z other_info) ≡ n * 32
    length-blocks zero counter z other_info = refl
    length-blocks (suc n) counter z other_info = omega (
      arith,
      length-append (sha256 (be 4 counter ++ (z ++ other_info)))
          (blocks n (counter + 1) z other_info),
      digest_length (be 4 counter ++ (z ++ other_info)),
      length-blocks n (counter + 1) z other_info,
    )

    -- With fuel for the blocks that are missing the loop appends exactly those.
    concat_kdf_loop-blocks :
        (fuel n counter : ℕ) (z other_info out : Bytes) (out_len : ℕ)
        → n ≤ fuel
        → out_len ≤ length out + n * 32
        → length out + n * 32 < out_len + 32
        → counter + n < 2 ^ 32
        → concat_kdf_loop sha256 fuel z other_info out_len counter out
          ≡ out ++ blocks n counter z other_info
    unfolding concat_kdf_loop
    concat_kdf_loop-blocks zero zero counter z other_info out out_len enough lo hi small =
        sym (append-nil out)
    concat_kdf_loop-blocks zero (suc n) counter z other_info out out_len enough lo hi small =
        absurd (omega arith)
    concat_kdf_loop-blocks (suc fuel) zero counter z other_info out out_len enough lo hi small =
        ground (arith, append-nil out)
    concat_kdf_loop-blocks (suc fuel) (suc n) counter z other_info out out_len enough lo hi small =
        let block = sha256 (be 4 counter ++ (z ++ other_info)) in
        let longer : length (out ++ block) ≡ length out + 32 =
          omega
            (arith, length-append out block, digest_length (be 4 counter ++ (z ++ other_info))) in
        let next : (counter + 1) % 2 ^ 32 ≡ counter + 1 = omega arith in
        let rest =
          concat_kdf_loop-blocks fuel n (counter + 1) z other_info (out ++ block) out_len
            (omega arith) (omega arith) (omega arith) (omega arith) in
        ground (arith, next, rest ∙ append_assoc out block (blocks n (counter + 1) z other_info))

    -- For up to 2^32 - 2 blocks, `concat_kdf_sha256` returns the first `out_len` bytes of the
    -- digests of SP 800-56A's rounds, as many as cover them.
    pub concat_kdf_sha256-blocks :
        (z other_info : Bytes) (out_len : ℕ)
        → out_len ≤ 32 * (2 ^ 32 - 2)
        → concat_kdf_sha256 sha256 z other_info out_len
          ≡ take out_len (blocks ((out_len + 31) / 32) 1 z other_info)
    unfolding concat_kdf_sha256
    concat_kdf_sha256-blocks z other_info out_len small = ap (take out_len) (
        concat_kdf_loop-blocks out_len ((out_len + 31) / 32) 1 z other_info [] out_len (omega arith)
          (omega arith) (omega arith) (omega arith))

    -- The loop ends with as many bytes as were asked for.
    pub length-concat_kdf_sha256 :
        (z other_info : Bytes) (out_len : ℕ)
        → out_len ≤ 32 * (2 ^ 32 - 2)
        → length (concat_kdf_sha256 sha256 z other_info out_len) ≡ out_len
    length-concat_kdf_sha256 z other_info out_len small =
        let n : ℕ = (out_len + 31) / 32 in
        omega (
          arith,
          ap length (concat_kdf_sha256-blocks z other_info out_len small),
          length-take out_len (blocks n 1 z other_info),
          length-blocks n 1 z other_info,
        )

    -- One block is the key-wrapping key: the digest of the counter 1, the secret and the context.
    pub length-ecdh_es_a256kw_kek :
        (z party_v : Bytes) → length (ecdh_es_a256kw_kek sha256 z party_v) ≡ 32
    unfolding ecdh_es_a256kw_kek
    length-ecdh_es_a256kw_kek z party_v = length-concat_kdf_sha256 z _ 32 (omega arith)

    -- The key-wrapping key is the digest of the one round.
    pub kek-digest :
        (z party_v : Bytes)
        → ecdh_es_a256kw_kek sha256 z party_v
          ≡ sha256 (be 4 1 ++ (z ++ jose_other_info (as_jose ecdh_es_a256_kw) [] party_v 256))
    unfolding ecdh_es_a256kw_kek
    kek-digest z party_v =
        let info : Bytes = jose_other_info (as_jose ecdh_es_a256_kw) [] party_v 256 in
        concat_kdf_sha256-blocks z info 32 (omega arith)
        ∙ ap (take 32) (append-nil (sha256 (be 4 1 ++ (z ++ info))))
        ∙ take_whole (sha256 (be 4 1 ++ (z ++ info))) 32
            (omega (arith, digest_length (be 4 1 ++ (z ++ info))))
