-- ===== src/Cli/Recipient/Signatures.antt =====
-- What the signatures of a receipt are made over, in cli/src/commands.rs.
use signet_drive.Base.{◌≡◌, arith, Bytes, true, Option, none, some, ◌++◌}
use signet_drive.Base.{refl, ◌⊎◌, inl, inr}
use signet_drive.Base.Results.{ok, bind_ok, ok_inj, ok_or_ok, map_err_ok, ok_or, map_err}
use signet_drive.Base.{length, leb, ◌==◌, Bool-cases}
use signet_drive.Crypto.{invalid_input}
use signet_drive.Crypto.Token.{P256, parse_signature, verify_es256}
use signet_drive.Crypto.Translog.{receipt_prefix, receipt_signing_input}
use signet_drive.Cli.{invalid_data, transparency_violation, signature_refused, str_at}
use signet_drive.Cli.Recipient.{Host}
use signet_drive.Cli.Recipient.Words.{receipt_mldsa_ctx}
use signet_drive.Cli.Recipient.Receipt.{present, verify_mldsa87, verify_receipt_pq}
use signet_drive.Cli.Recipient.Receipt.{verify_receipt_signatures}

-- An ES256 signature of a message that verifies under a P-256 key; it is raw or in DER.
pub record Es256Valid (p256 : P256) (pubkey msg sig : Bytes) : Type 0 where
  pub vk : Bytes
  pub signature : Bytes
  pub key_read : p256.key_from_sec1 pubkey ≡ some vk
  pub parsed :
      (p256.signature_from_slice sig ≡ some signature)
      ⊎ (p256.signature_from_der sig ≡ some signature)
  pub verifies : p256.key_verify vk msg signature ≡ true

parse_signature_lem :
    (p256 : P256) (sig : Bytes) {signature : Bytes}
    → parse_signature p256 sig ≡ ok signature
    → (p256.signature_from_slice sig ≡ some signature)
      ⊎ (p256.signature_from_der sig ≡ some signature)
unfolding parse_signature
parse_signature_lem p256 sig e = elim (Bool-cases (length sig == 64)) [
  | inl raw ↦ inl (ok_or_ok _ (invalid_input "es256 raw r‖s") (ground arith))
  | inr other ↦ elim (Bool-cases (leb (length sig) 72)) [
    | inl der ↦ inr (ok_or_ok _ (invalid_input "es256 DER") (ground arith))
    | inr long ↦ absurd (ground arith)
  ]
]

pub verify_es256-Es256Valid :
    (p256 : P256) (pubkey msg sig : Bytes) {u : Unit {0}}
    → verify_es256 p256 pubkey msg sig ≡ ok u
    → Es256Valid p256 pubkey msg sig
unfolding verify_es256
verify_es256-Es256Valid p256 pubkey msg sig e =
    let (vk, h₀, e₀) =
      bind_ok (ok_or (p256.key_from_sec1 pubkey) (invalid_input "es256 public key")) _ e in
    let (signature, h₁, e₁) = bind_ok (parse_signature p256 sig) _ e₀ in
    record {
      vk = vk;
      signature = signature;
      key_read = ok_or_ok _ _ h₀;
      parsed = parse_signature_lem p256 sig h₁;
      verifies = ground arith;
    }

module _ {J : Type 0} (host : Host J) where
  -- An ML-DSA-87 signature of a message in a context that verifies under a key.
  pub record MlDsaValid (vk_bytes msg ctx sig : Bytes) : Type 0 where
    pub vk : Bytes
    pub sig_arr : Bytes
    pub signature : Bytes
    pub key_read : host.mldsa.key_from_slice vk_bytes ≡ some vk
    pub sized : host.mldsa.signature_from_slice sig ≡ some sig_arr
    pub read : host.mldsa.signature_decode sig_arr ≡ some signature
    pub verifies : host.mldsa.verify_with_context vk msg ctx signature ≡ true

  pub verify_mldsa87-MlDsaValid :
      (vk_bytes msg ctx sig : Bytes) {u : Unit {0}}
      → verify_mldsa87 host vk_bytes msg ctx sig ≡ ok u
      → MlDsaValid vk_bytes msg ctx sig
  unfolding verify_mldsa87
  verify_mldsa87-MlDsaValid vk_bytes msg ctx sig e =
      let (vk, h₀, e₀) =
        bind_ok
          (ok_or (host.mldsa.key_from_slice vk_bytes) (invalid_data "server ML-DSA-87 key size")) _
          e in
      let (arr, h₁, e₁) =
        bind_ok
          (ok_or (host.mldsa.signature_from_slice sig)
            (signature_refused "ML-DSA-87 signature size"))
          _ e₀ in
      let (signature, h₂, e₂) =
        bind_ok
          (ok_or (host.mldsa.signature_decode arr)
            (signature_refused "malformed ML-DSA-87 signature"))
          _ e₁ in
      record {
        vk = vk;
        sig_arr = arr;
        signature = signature;
        key_read = ok_or_ok _ _ h₀;
        sized = ok_or_ok _ _ h₁;
        read = ok_or_ok _ _ h₂;
        verifies = ground arith;
      }

  -- The ML-DSA-87 signature that a receipt carries verifies under a key.
  pub record PqSigned (receipt : J) (msg pq_vk : Bytes) : Type 0 where
    pub text : Bytes
    pub signature : Bytes
    pub given : str_at host.reader receipt "server_signature_mldsa87" ≡ some text
    pub decoded : host.decode64 text ≡ some signature
    pub valid : MlDsaValid pq_vk msg receipt_mldsa_ctx signature

  -- A receipt that is signed, without its signatures, under the server's ES256 key, and under its
  -- ML-DSA-87 key where it names one.
  pub record ReceiptSigned (receipt : J) (server_pub pq_vk : Bytes) : Type 0 where
    pub text : Bytes
    pub signature : Bytes
    pub half : J
    pub unsigned : J
    pub canonical : Bytes
    pub given : str_at host.reader receipt "server_signature" ≡ some text
    pub decoded : host.decode64 text ≡ some signature
    pub without_es256 : host.remove receipt "server_signature" ≡ some half
    pub without_both : host.remove half "server_signature_mldsa87" ≡ some unsigned
    pub canonical_bytes : host.to_canonical_bytes unsigned ≡ ok canonical
    pub es256 : Es256Valid host.p256 server_pub (receipt_prefix ++ canonical) signature
    pub ml_dsa :
        (host.reader.get unsigned "server_pq_key_id" ≡ none)
        ⊎ PqSigned half (receipt_prefix ++ canonical) pq_vk

  pq_half :
      (receipt : J) (named : Option J) (pq_vk input : Bytes) {u : Unit {0}}
      → verify_receipt_pq host
          (present named)
          (str_at host.reader receipt "server_signature_mldsa87")
          (some pq_vk)
          input
        ≡ ok u
      → (named ≡ none) ⊎ PqSigned receipt input pq_vk
  pq_half receipt none pq_vk input e = inl refl
  pq_half receipt (some named) pq_vk input e =
      let (text, h₀, e₀) =
        bind_ok
          (ok_or (str_at host.reader receipt "server_signature_mldsa87")
            (transparency_violation "receipt names a server PQ key but carries no co-signature"))
          _ e in
      let (sig, h₂, e₂) =
        bind_ok
          (ok_or (host.decode64 text)
            (transparency_violation "receipt server_signature_mldsa87 base64url"))
          (λ pq_sig.
            map_err (λ e. transparency_violation "receipt ML-DSA-87 co-signature does not verify")
              (verify_mldsa87 host pq_vk input receipt_mldsa_ctx pq_sig))
          e₀ in
      inr (record {
        text = text;
        signature = sig;
        given = ok_or_ok _ _ h₀;
        decoded = ok_or_ok _ _ h₂;
        valid = verify_mldsa87-MlDsaValid pq_vk input receipt_mldsa_ctx sig (map_err_ok _ _ e₂);
      })

  pub verify_receipt_signatures-ReceiptSigned :
      (receipt : J) (server_pub pq_vk : Bytes) {u : Unit {0}}
      → verify_receipt_signatures host receipt server_pub (some pq_vk) ≡ ok u
      → ReceiptSigned receipt server_pub pq_vk
  unfolding verify_receipt_signatures receipt_signing_input
  verify_receipt_signatures-ReceiptSigned receipt server_pub pq_vk e =
      let (text, h₀, e₀) = bind_ok (ok_or (str_at host.reader receipt "server_signature") _) _ e in
      let (signature, h₁, e₁) = bind_ok (ok_or (host.decode64 text) _) _ e₀ in
      let (half, h₂, e₂) = bind_ok (ok_or (host.remove receipt "server_signature") _) _ e₁ in
      let (unsigned, h₃, e₃) =
        bind_ok (ok_or (host.remove half "server_signature_mldsa87") _) _ e₂ in
      let (input, h₄, e₄) =
        bind_ok (map_err _ (receipt_signing_input host.to_canonical_bytes unsigned)) _ e₃ in
      let (u₅, h₅, e₅) =
        bind_ok (map_err _ (verify_es256 host.p256 server_pub input signature)) _ e₄ in
      let (canonical, h₆, e₆) = bind_ok (host.to_canonical_bytes unsigned) _ (map_err_ok _ _ h₄) in
      let same : receipt_prefix ++ canonical ≡ input = ok_inj e₆ in
      record {
        text = text;
        signature = signature;
        half = half;
        unsigned = unsigned;
        canonical = canonical;
        given = ok_or_ok _ _ h₀;
        decoded = ok_or_ok _ _ h₁;
        without_es256 = ok_or_ok _ _ h₂;
        without_both = ok_or_ok _ _ h₃;
        canonical_bytes = h₆;
        es256 =
            rw same
              (verify_es256-Es256Valid host.p256 server_pub input signature (map_err_ok _ _ h₅));
        ml_dsa =
            rw same (pq_half half (host.reader.get unsigned "server_pq_key_id") pq_vk input e₅);
      }
