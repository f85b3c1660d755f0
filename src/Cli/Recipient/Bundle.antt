-- ===== src/Cli/Recipient/Bundle.antt =====
-- The bundles whose shape cli/src/commands.rs accepts: each key is the one its fingerprint names.
use signet_drive.Base.{◌≡◌, refl, ap, arith, sym, ◌∙◌, Bytes, Option, none, some, length, bytes_eq}
use signet_drive.Base.{not, bytes_eq→eq}
use signet_drive.Base.Results.{ok, bind_ok, then_ok, ok_inj, ok_or_ok, map_err_ok}
use signet_drive.Base.Results.{ok_or, map_err}
use signet_drive.Crypto.Wrap.{fingerprint, fingerprint_raw}
use signet_drive.Cli.{invalid_data, transparency_violation, str_at}
use signet_drive.Cli.Recipient.{Host, RecipientWrapKeys, verify_recipient_kem_pub}
use signet_drive.Cli.Recipient.{verify_recipient_wrap_keys, verify_pq_pair}

module _ {J : Type 0} (host : Host J) where
  -- Both keys are in the bundle, and the bundle's fingerprints are theirs.
  pub record Named (bundle : J) (keys : RecipientWrapKeys) : Type 0 where
    pub ek : Bytes
    pub fp_ec : Bytes
    pub fp_pq : Bytes
    pub states_ec : str_at host.reader bundle "kem_pubkey_fingerprint" ≡ some fp_ec
    pub states_pq : str_at host.reader bundle "kem_pq_pubkey_fingerprint" ≡ some fp_pq
    pub hybrid : keys.rk_pq ≡ some ek
    pub ec_fingerprint : fingerprint host.curve host.sha256 host.hex (keys.rk_ec) ≡ ok fp_ec
    pub pq_fingerprint : fingerprint_raw host.sha256 host.hex ek ≡ fp_pq
    pub pq_length : length ek ≡ 1568

  kem_pub_named :
      (bundle : J) {rk_ec : Bytes}
      → verify_recipient_kem_pub host bundle ≡ ok rk_ec
      → (fp : Bytes) × (str_at host.reader bundle "kem_pubkey_fingerprint" ≡ some fp)
        × (fingerprint host.curve host.sha256 host.hex rk_ec ≡ ok fp)
  unfolding verify_recipient_kem_pub
  kem_pub_named bundle e =
      let (kem_b64, h₀, e₀) =
        bind_ok
          (ok_or (str_at host.reader bundle "kem_pubkey") (invalid_data "has no KEM public key")) _
          e in
      let (fp, h₁, e₁) =
        bind_ok
          (ok_or (str_at host.reader bundle "kem_pubkey_fingerprint")
            (invalid_data "KEM key has no fingerprint"))
          _ e₀ in
      let (pubkey, h₂, e₂) =
        bind_ok (ok_or (host.decode64 kem_b64) (invalid_data "KEM pubkey is not base64url")) _ e₁ in
      let (computed, h₃, e₃) =
        bind_ok
          (map_err (λ e. invalid_data "KEM pubkey is not a valid P-256 point")
            (fingerprint host.curve host.sha256 host.hex pubkey))
          _ e₂ in
      let (same, e₄) =
        then_ok (not (bytes_eq computed fp)) (transparency_violation "KEM-key fingerprint mismatch")
          (ok pubkey) e₃ in
      let key = ok_inj e₄ in
      let fingerprints : computed ≡ fp = bytes_eq→eq computed fp (ground arith) in
      (fp, ok_or_ok _ _ h₁, rw (← key) (map_err_ok _ _ h₃ ∙ ap ok fingerprints))

  pq_pair_named :
      (k fp : Option Bytes) {rk_pq : Option Bytes}
      → verify_pq_pair host k fp ≡ ok rk_pq
      → (ek : Bytes) × (stated : Bytes) × (fp ≡ some stated)
        × (rk_pq ≡ some ek)
        × (fingerprint_raw host.sha256 host.hex ek ≡ stated)
        × (length ek ≡ 1568)
  pq_pair_named none none e = absurd (ground arith)
  pq_pair_named none (some fp) e = absurd (ground arith)
  pq_pair_named (some k) none e = absurd (ground arith)
  pq_pair_named (some k) (some fp) e =
      let (ek, h₀, e₀) =
        bind_ok (ok_or (host.decode64 k) (invalid_data "ML-KEM pubkey is not base64url")) _ e in
      let (sized, e₁) = then_ok _ (invalid_data "ML-KEM pubkey must be 1568 bytes") _ e₀ in
      let (same, e₂) =
        then_ok (not (bytes_eq (fingerprint_raw host.sha256 host.hex ek) fp))
          (transparency_violation "ML-KEM-key fingerprint mismatch") (ok (some ek)) e₁ in
      (
        ek,
        fp,
        refl,
        sym (ok_inj e₂),
        bytes_eq→eq (fingerprint_raw host.sha256 host.hex ek) fp (ground arith),
        ground arith,
      )

  -- What `verify_recipient_wrap_keys` returns is a pair of keys: the P-256 key and an ML-KEM key of
  -- 1568 bytes, with the fingerprints that the bundle states.
  pub verify_recipient_wrap_keys-Named :
      (bundle : J) {keys : RecipientWrapKeys}
      → verify_recipient_wrap_keys host bundle ≡ ok keys
      → Named bundle keys
  unfolding verify_recipient_wrap_keys
  verify_recipient_wrap_keys-Named bundle {keys} e =
      let (rk_ec, h₀, e₀) = bind_ok (verify_recipient_kem_pub host bundle) _ e in
      let (rk_pq, h₁, e₁) =
        bind_ok
          (verify_pq_pair host (str_at host.reader bundle "kem_pq_pubkey")
            (str_at host.reader bundle "kem_pq_pubkey_fingerprint"))
          _ e₀ in
      let (fp_ec, s₀, f₀) = kem_pub_named bundle h₀ in
      let (ek, fp_pq, s₁, hybrid, f₁, size) =
        pq_pair_named (str_at host.reader bundle "kem_pq_pubkey")
          (str_at host.reader bundle "kem_pq_pubkey_fingerprint") h₁ in
      let whole = ok_inj e₁ in
      record {
        ek = ek;
        fp_ec = fp_ec;
        fp_pq = fp_pq;
        states_ec = s₀;
        states_pq = s₁;
        hybrid = ap (λ (k : RecipientWrapKeys). k.rk_pq) (sym whole) ∙ hybrid;
        ec_fingerprint =
            ap (λ (k : RecipientWrapKeys). fingerprint host.curve host.sha256 host.hex (k.rk_ec))
              (sym whole)
            ∙ f₀;
        pq_fingerprint = f₁;
        pq_length = size;
      }
