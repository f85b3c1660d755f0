-- ===== src/Crypto/Wrap/Folder.antt =====
-- The context of a wrap in crypto/src/wrap.rs: a key that was wrapped for one folder does not unwrap
-- for another, nor as a file's key.
use signet_drive.Base.{◌^◌, ◌≡◌, ◌<◌, refl, ap, arith, sym, ◌∙◌, ◌⊎◌, inl, inr}
use signet_drive.Base.{Bytes, [], ◌++◌, length, some, append_inj, Bytes-cases}
use signet_drive.Base.Results.{ok, bind_ok, then_ok, ok_inj, ok_or}
use signet_drive.Base.BigEndian.{be}
use signet_drive.Crypto.{invalid_input}
use signet_drive.Crypto.Names.{Text, TextLaws, from_jose, as_jose, ecdh_es_a256_kw}
use signet_drive.Crypto.Kdf.{ecdh_es_a256kw_kek, jose_other_info}
use signet_drive.Crypto.Kdf.Output.{kek-digest, jose_other_info_inj}
use signet_drive.Crypto.Wrap.{Curve, KeyWrap, KeyWrapLaws, wrap, unwrap, ecdh_p256}
use signet_drive.Crypto.Wrap.{fingerprint, WrapEnvelope, wrap_to, finish_unwrap}
use signet_drive.Merkle.Inclusion.{Collision}

-- Two different keys of AES key wrap that wrap something to one output: what its integrity check is
-- there to make infeasible.
pub record TwoKeys (kw : KeyWrap) : Type 0 where
  pub kek : Bytes
  pub kek' : Bytes
  pub payload : Bytes
  pub payload' : Bytes
  pub wrapped : Bytes
  pub differs : kek ≡ kek' → ⊥
  pub first : kw.wrap kek payload ≡ some wrapped
  pub second : kw.wrap kek' payload' ≡ some wrapped

-- What unwraps under a key was wrapped under it, or two keys are exhibited.
pub unwrap_same_key :
    (kw : KeyWrap) (laws : KeyWrapLaws kw) (kek kek' payload : Bytes) {wrapped payload' : Bytes}
    → wrap kw kek payload ≡ ok wrapped
    → unwrap kw kek' wrapped ≡ ok payload'
    → ((kek ≡ kek') × (payload ≡ payload')) ⊎ TwoKeys kw
unfolding wrap unwrap
unwrap_same_key kw laws kek kek' payload {wrapped} {payload'} made opened =
    let m : kw.wrap kek payload ≡ some wrapped = ground arith in
    let o : kw.unwrap kek' wrapped ≡ some payload' = ground arith in
    elim (Bytes-cases kek kek') [
      | inl same ↦
          let u : kw.unwrap kek' wrapped ≡ some payload =
            rw (← same) (laws.unwraps kek payload m) in
          inl (same, ground arith)
      | inr differ ↦ inr (record {
        kek = kek;
        kek' = kek';
        payload = payload;
        payload' = payload';
        wrapped = wrapped;
        differs = differ;
        first = m;
        second = laws.wrapped_from kek' wrapped o;
      })
    ]

module _ (sha256 : Bytes → Bytes) (digest_length : (x : Bytes) → length (sha256 x) ≡ 32) where
  -- One key-wrapping key comes from one secret and context.
  kek_inj :
      (z z' party_v party_v' : Bytes)
      → length z ≡ 32
      → length z' ≡ 32
      → length party_v < 2 ^ 32
      → length party_v' < 2 ^ 32
      → ecdh_es_a256kw_kek sha256 z party_v ≡ ecdh_es_a256kw_kek sha256 z' party_v'
      → ((z ≡ z') × (party_v ≡ party_v')) ⊎ Collision sha256
  kek_inj z z' party_v party_v' hz hz' hp hp' e =
      let info : Bytes = jose_other_info (as_jose ecdh_es_a256_kw) [] party_v 256 in
      let info' : Bytes = jose_other_info (as_jose ecdh_es_a256_kw) [] party_v' 256 in
      let digests =
        sym (kek-digest sha256 digest_length z party_v)
        ∙ e
        ∙ kek-digest sha256 digest_length z' party_v' in
      elim (Bytes-cases (be 4 1 ++ (z ++ info)) (be 4 1 ++ (z' ++ info'))) [
        | inr differ ↦ inr (be 4 1 ++ (z ++ info), be 4 1 ++ (z' ++ info'), differ, digests)
        | inl same ↦
            let (one, rest) = append_inj (be 4 1) (be 4 1) refl same in
            let (secret, context) = append_inj z z' (omega arith) rest in
            let fields =
              jose_other_info_inj (as_jose ecdh_es_a256_kw) [] party_v (as_jose ecdh_es_a256_kw) []
                party_v' 256 256 (omega arith) (omega arith) hp (omega arith) (omega arith) hp'
                context in
            inl (secret, fields.2)
      ]

  module _ (hex : Bytes → Bytes) (text : Text) (text_laws : TextLaws text) (curve : Curve)
      (agree_length : (a b : Bytes) → length (curve.agree a b) ≡ 32) (kw : KeyWrap)
      (kw_laws : KeyWrapLaws kw) where
    agreed_length :
        (scalar peer : Bytes) {z : Bytes} → ecdh_p256 curve scalar peer ≡ ok z → length z ≡ 32
    unfolding ecdh_p256
    agreed_length scalar peer e =
        let (checked, e₁) = then_ok _ _ _ e in
        let (key, found, e₂) =
          bind_ok (ok_or (curve.from_sec1 peer) (invalid_input "ecdh peer public key")) _ e₁ in
        ap length (sym (ok_inj e₂)) ∙ agree_length scalar key

    -- What a wrap holds.
    wrap_to_ct :
        (eph recipient key party_v : Bytes) {envelope : WrapEnvelope}
        → wrap_to sha256 hex text curve kw eph recipient key party_v ≡ ok envelope
        → (z : Bytes) × (wrapped : Bytes) × (length z ≡ 32)
          × (wrap kw (ecdh_es_a256kw_kek sha256 z party_v) key ≡ ok wrapped)
          × (text.decode64 (envelope.ct) ≡ some wrapped)
    unfolding wrap_to
    wrap_to_ct eph recipient key party_v {envelope} made =
        let (r, e₀, made₀) =
          bind_ok (ok_or (curve.from_sec1 recipient) (invalid_input "recipient kem public key")) _
            made in
        let (z, agreed, made₁) = bind_ok (ecdh_p256 curve eph recipient) _ made₀ in
        let (wrapped, wraps, made₂) =
          bind_ok (wrap kw (ecdh_es_a256kw_kek sha256 z party_v) key) _ made₁ in
        let (rfp, f, made₃) = bind_ok (fingerprint curve sha256 hex recipient) _ made₂ in
        let ct : text.encode64 wrapped ≡ envelope.ct =
          ap (λ (w : WrapEnvelope). w.ct) (ok_inj made₃) in
        (
          z,
          wrapped,
          agreed_length eph recipient agreed,
          wraps,
          ap text.decode64 (sym ct) ∙ text_laws.decode64_back wrapped,
        )

    finish_unwrap_ct :
        (z party_v : Bytes) (envelope : WrapEnvelope) {wrapped key : Bytes}
        → text.decode64 (envelope.ct) ≡ some wrapped
        → finish_unwrap sha256 hex text curve kw z envelope party_v ≡ ok key
        → unwrap kw (ecdh_es_a256kw_kek sha256 z party_v) wrapped ≡ ok key
    unfolding finish_unwrap
    finish_unwrap_ct z party_v envelope decoded opened =
        let (id, read, opened₀) = bind_ok (from_jose (envelope.alg)) _ opened in
        ground (arith, opened₀)

    -- A key that was wrapped in one context and unwraps in some context with a 32-byte shared secret
    -- was unwrapped in its own context and is the wrapped key, or SHA-256 collides, or two different
    -- keys of AES key wrap give one output. Contexts are shorter than 2^32 bytes.
    pub finish_unwrap_binding :
        (eph recipient key party_v z' party_v' : Bytes) {envelope : WrapEnvelope} {key' : Bytes}
        → length z' ≡ 32
        → length party_v < 2 ^ 32
        → length party_v' < 2 ^ 32
        → wrap_to sha256 hex text curve kw eph recipient key party_v ≡ ok envelope
        → finish_unwrap sha256 hex text curve kw z' envelope party_v' ≡ ok key'
        → ((party_v ≡ party_v') × (key ≡ key')) ⊎ Collision sha256 ⊎ TwoKeys kw
    finish_unwrap_binding eph recipient key party_v z' party_v' {envelope} {key'} hz' hp hp' made
          opened =
        let (z, wrapped, hz, wraps, decoded) = wrap_to_ct eph recipient key party_v made in
        let unwraps : unwrap kw (ecdh_es_a256kw_kek sha256 z' party_v') wrapped ≡ ok key' =
          finish_unwrap_ct z' party_v' envelope decoded opened in
        elim (unwrap_same_key kw kw_laws (ecdh_es_a256kw_kek sha256 z party_v)
          (ecdh_es_a256kw_kek sha256 z' party_v') key wraps unwraps) [
            | inr bad ↦ inr (inr bad)
            | inl (keks, keys) ↦ elim (kek_inj z z' party_v party_v' hz hz' hp hp' keks) [
              | inr bad ↦ inr (inl bad)
              | inl (secrets, contexts) ↦ inl (contexts, keys)
            ]
          ]
