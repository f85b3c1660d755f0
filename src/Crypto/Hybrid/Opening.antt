-- ===== src/Crypto/Hybrid/Opening.antt =====
-- What crypto/src/hybrid_wrap.rs wraps, it unwraps with the same secrets for the same recipient and
-- context, and for no others.
use signet_drive.Base.{◌≡◌, ◌≤◌, ap, arith, sym, ◌∙◌, ◌⊎◌, inl, inr}
use signet_drive.Base.{Bytes, [], ◌++◌, length, some, Bytes-cases, length-append, not, ◌==◌}
use signet_drive.Base.Results.{ok, bind_ok, then_ok, ok_inj, ok_or, ◌>>=◌}
use signet_drive.Crypto.{invalid_input, unknown_algorithm}
use signet_drive.Crypto.Names.{Text, TextLaws, from_jose, as_jose}
use signet_drive.Crypto.Names.Reading.{from_jose-as_jose}
use signet_drive.Crypto.Kdf.{Hkdf, HkdfLaws, hkdf_sha256}
use signet_drive.Crypto.Wrap.{Curve, CurveLaws, KeyWrap, KeyWrapLaws, wrap, unwrap, fixed32}
use signet_drive.Crypto.Wrap.{epk_jwk, x963_from_epk}
use signet_drive.Crypto.Wrap.RoundTrip.{wrap_some, x963_from_epk-epk_jwk}
use signet_drive.Crypto.Wrap.Folder.{TwoKeys, unwrap_same_key}
use signet_drive.Crypto.Hybrid.{HybridWrapEnvelope, build_fixed_info, content_wrap_kek, p256_pub}
use signet_drive.Crypto.Hybrid.{validate_recipient_keys, validate_party_v, is_hybrid, hybrid_rfp}
use signet_drive.Crypto.Hybrid.{
  wrap_from_secrets, unwrap_with_shared_secrets, push_field, hybrid_alg,
}
use signet_drive.Crypto.Hybrid.Info.{build_fixed_info_inj, valid_lengths}

-- Two inputs of HKDF with different contexts and one 32-byte output.
pub record KdfCollision (hkdf : Hkdf) : Type 0 where
  pub ikm : Bytes
  pub info : Bytes
  pub ikm' : Bytes
  pub info' : Bytes
  pub okm : Bytes
  pub differs : info ≡ info' → ⊥
  pub first : hkdf ikm [] info 32 ≡ some okm
  pub second : hkdf ikm' [] info' 32 ≡ some okm

content_wrap_kek_some :
    (hkdf : Hkdf) (laws : HkdfLaws hkdf) (z_ecdh z_mlkem info : Bytes)
    → (kek : Bytes) × (content_wrap_kek hkdf z_ecdh z_mlkem info ≡ ok kek)
unfolding content_wrap_kek hkdf_sha256
content_wrap_kek_some hkdf laws z_ecdh z_mlkem info =
    let (okm, made, size) = laws.fills (z_ecdh ++ z_mlkem) [] info 32 (omega arith) in
    (okm, ground arith)

content_wrap_kek_ok :
    (hkdf : Hkdf) (z_ecdh z_mlkem info : Bytes) {kek : Bytes}
    → content_wrap_kek hkdf z_ecdh z_mlkem info ≡ ok kek
    → hkdf (z_ecdh ++ z_mlkem) [] info 32 ≡ some kek
unfolding content_wrap_kek hkdf_sha256
content_wrap_kek_ok hkdf z_ecdh z_mlkem info e = ground arith

-- One key comes from one context, or HKDF collides.
kek_binds :
    (hkdf : Hkdf) (z_ecdh z_mlkem info z_ecdh' z_mlkem' info' : Bytes) {kek : Bytes}
    → content_wrap_kek hkdf z_ecdh z_mlkem info ≡ ok kek
    → content_wrap_kek hkdf z_ecdh' z_mlkem' info' ≡ ok kek
    → (info ≡ info') ⊎ KdfCollision hkdf
kek_binds hkdf z_ecdh z_mlkem info z_ecdh' z_mlkem' info' {kek} made made' =
    elim (Bytes-cases info info') [
      | inl same ↦ inl same
      | inr differ ↦ inr (record {
        ikm = z_ecdh ++ z_mlkem;
        info = info;
        ikm' = z_ecdh' ++ z_mlkem';
        info' = info';
        okm = kek;
        differs = differ;
        first = content_wrap_kek_ok hkdf z_ecdh z_mlkem info made;
        second = content_wrap_kek_ok hkdf z_ecdh' z_mlkem' info' made';
      })
    ]

party_v_length :
    (party_v : Bytes) {u : Unit {0}} → validate_party_v party_v ≡ ok u → length party_v ≤ 16
unfolding validate_party_v
party_v_length party_v e = ground arith

module _ (sha256 hex : Bytes → Bytes) (hkdf : Hkdf) (text : Text) (text_laws : TextLaws text)
    (curve : Curve) (curve_laws : CurveLaws curve) (kw : KeyWrap) (kw_laws : KeyWrapLaws kw) where
  -- For valid recipient keys, a valid context, an ML-KEM ciphertext of its size, an ephemeral key on
  -- the curve and a 32-byte key, `wrap_from_secrets` makes an envelope, and with the same secrets,
  -- recipient keys and context `unwrap_with_shared_secrets` opens it to the key.
  pub unwrap_with_shared_secrets-wrap_from_secrets :
      (hkdf_laws : HkdfLaws hkdf) (z_ecdh z_mlkem epk ek rk_ec rk_pq key party_v : Bytes)
      {pk : Bytes}
      → validate_recipient_keys curve rk_ec rk_pq ≡ ok tt
      → validate_party_v party_v ≡ ok tt
      → length ek ≡ 1568
      → curve.from_sec1 epk ≡ some pk
      → length key ≡ 32
      → (envelope : HybridWrapEnvelope) × (wrap_from_secrets sha256 hex hkdf text curve kw z_ecdh
            z_mlkem epk ek rk_ec rk_pq key party_v
          ≡ ok envelope)
        × (unwrap_with_shared_secrets sha256 hex hkdf text curve kw z_ecdh z_mlkem envelope rk_ec
              rk_pq party_v
            ≡ ok key)
  unfolding wrap_from_secrets unwrap_with_shared_secrets p256_pub hybrid_rfp is_hybrid fixed32
  unwrap_with_shared_secrets-wrap_from_secrets hkdf_laws z_ecdh z_mlkem epk ek rk_ec rk_pq key
        party_v {pk} valid context ek_size on_curve size =
      let info : Bytes = build_fixed_info pk ek rk_ec rk_pq party_v in
      let (kek, derived) = content_wrap_kek_some hkdf hkdf_laws z_ecdh z_mlkem info in
      let (wrapped, made, back) = wrap_some kw kw_laws kek key (omega arith) (omega arith) in
      let point = x963_from_epk-epk_jwk curve curve_laws text text_laws epk on_curve in
      (
        record {
          v = 1;
          alg = as_jose hybrid_alg;
          epk = epk_jwk text pk;
          ek = text.encode64 ek;
          wk = text.encode64 wrapped;
          rfp = hex (sha256 (push_field rk_ec ++ push_field rk_pq));
        },
        ground (arith, valid, context, ek_size, on_curve, derived, made),
        ground (
          arith,
          from_jose-as_jose hybrid_alg,
          valid,
          context,
          point,
          text_laws.decode64_back ek,
          ek_size,
          derived,
          text_laws.decode64_back wrapped,
          back,
          size,
        ),
      )

  -- What a wrap holds.
  record Held (z_ecdh z_mlkem ek rk_ec rk_pq key party_v : Bytes) (envelope : HybridWrapEnvelope)
      : Type 0 where
    pk : Bytes
    kek : Bytes
    wrapped : Bytes
    recipient : validate_recipient_keys curve rk_ec rk_pq ≡ ok tt
    context : length party_v ≤ 16
    ciphertext : length ek ≡ 1568
    point : x963_from_epk curve text (envelope.epk) ≡ ok pk
    point_length : length pk ≡ 65
    derived :
        content_wrap_kek hkdf z_ecdh z_mlkem (build_fixed_info pk ek rk_ec rk_pq party_v) ≡ ok kek
    wraps : wrap kw kek key ≡ ok wrapped
    ek_held : text.decode64 (envelope.ek) ≡ some ek
    wk_held : text.decode64 (envelope.wk) ≡ some wrapped

  key_length : (point : Bytes) {key : Bytes} → curve.from_sec1 point ≡ some key → length key ≡ 65
  key_length point e =
      let (x, y, hx, hy, shape) = curve_laws.uncompressed point e in
      omega (arith, ap length shape, length-append x y)

  held :
      (z_ecdh z_mlkem epk ek rk_ec rk_pq key party_v : Bytes) {envelope : HybridWrapEnvelope}
      → wrap_from_secrets sha256 hex hkdf text curve kw z_ecdh z_mlkem epk ek rk_ec rk_pq key
          party_v
        ≡ ok envelope
      → Held z_ecdh z_mlkem ek rk_ec rk_pq key party_v envelope
  unfolding wrap_from_secrets p256_pub
  held z_ecdh z_mlkem epk ek rk_ec rk_pq key party_v {envelope} e =
      let (u₀, valid, e₀) = bind_ok (validate_recipient_keys curve rk_ec rk_pq) _ e in
      let (u₁, context, e₁) = bind_ok (validate_party_v party_v) _ e₀ in
      let (sized, e₂) =
        then_ok (not (length ek == 1568)) (invalid_input "ml-kem ciphertext length") _ e₁ in
      let (pk, on_curve, e₃) =
        bind_ok (ok_or (curve.from_sec1 epk) (invalid_input "epk not on curve")) _ e₂ in
      let (kek, derived, e₄) =
        bind_ok (content_wrap_kek hkdf z_ecdh z_mlkem (build_fixed_info pk ek rk_ec rk_pq party_v))
          _ e₃ in
      let (wrapped, wraps, e₅) = bind_ok (wrap kw kek key) _ e₄ in
      let (rfp, f, e₆) = bind_ok (hybrid_rfp sha256 hex curve rk_ec rk_pq) _ e₅ in
      let whole = ok_inj e₆ in
      let found : curve.from_sec1 epk ≡ some pk = ground arith in
      record {
        pk = pk;
        kek = kek;
        wrapped = wrapped;
        recipient = valid;
        context = party_v_length party_v context;
        ciphertext = ground arith;
        point =
            ap (λ (w : HybridWrapEnvelope). x963_from_epk curve text (w.epk)) (sym whole)
            ∙ x963_from_epk-epk_jwk curve curve_laws text text_laws epk found;
        point_length = key_length epk found;
        derived = derived;
        wraps = wraps;
        ek_held =
            ap (λ (w : HybridWrapEnvelope). text.decode64 (w.ek)) (sym whole)
            ∙ text_laws.decode64_back ek;
        wk_held =
            ap (λ (w : HybridWrapEnvelope). text.decode64 (w.wk)) (sym whole)
            ∙ text_laws.decode64_back wrapped;
      }

  -- What an opened envelope was opened with.
  record Opened (z_ecdh z_mlkem pk ek wrapped rk_ec rk_pq party_v key : Bytes) : Type 0 where
    kek : Bytes
    recipient : validate_recipient_keys curve rk_ec rk_pq ≡ ok tt
    context : length party_v ≤ 16
    derived :
        content_wrap_kek hkdf z_ecdh z_mlkem (build_fixed_info pk ek rk_ec rk_pq party_v) ≡ ok kek
    unwraps : unwrap kw kek wrapped ≡ ok key

  opened :
      (z_ecdh z_mlkem pk ek wrapped rk_ec rk_pq party_v : Bytes) {key : Bytes}
      (envelope : HybridWrapEnvelope)
      → x963_from_epk curve text (envelope.epk) ≡ ok pk
      → text.decode64 (envelope.ek) ≡ some ek
      → text.decode64 (envelope.wk) ≡ some wrapped
      → unwrap_with_shared_secrets sha256 hex hkdf text curve kw z_ecdh z_mlkem envelope rk_ec rk_pq
          party_v
        ≡ ok key
      → Opened z_ecdh z_mlkem pk ek wrapped rk_ec rk_pq party_v key
  unfolding unwrap_with_shared_secrets fixed32
  opened z_ecdh z_mlkem pk ek wrapped rk_ec rk_pq party_v {key} envelope hp he hw e =
      let (id, read, e₀) = bind_ok (from_jose (envelope.alg)) _ e in
      let e₁ = (then_ok (not (is_hybrid id)) unknown_algorithm _ e₀).1 in
      let (u₀, valid, e₂) = bind_ok (validate_recipient_keys curve rk_ec rk_pq) _ e₁ in
      let (u₁, context, e₃) = bind_ok (validate_party_v party_v) _ e₂ in
      let info : Bytes = build_fixed_info pk ek rk_ec rk_pq party_v in
      let e₄ : (content_wrap_kek hkdf z_ecdh z_mlkem info >>= λ kek.
      unwrap kw kek wrapped >>= fixed32)
          ≡ ok key =
        ground arith in
      let (kek, derived, e₅) = bind_ok (content_wrap_kek hkdf z_ecdh z_mlkem info) _ e₄ in
      let (plain, unwraps, e₆) = bind_ok (unwrap kw kek wrapped) fixed32 e₅ in
      record {
        kek = kek;
        recipient = valid;
        context = party_v_length party_v context;
        derived = derived;
        unwraps = ground arith;
      }

  -- An envelope that opens, with whatever 32-byte secrets, was made for the recipient keys and the
  -- context that it is opened for and holds the key that comes out, or HKDF gives one output for two
  -- contexts, or two different keys of AES key wrap give one output.
  pub unwrap_with_shared_secrets_binding :
      (z_ecdh z_mlkem epk ek rk_ec rk_pq key party_v : Bytes)
      (z_ecdh' z_mlkem' rk_ec' rk_pq' party_v' : Bytes) {envelope : HybridWrapEnvelope}
      {key' : Bytes}
      → wrap_from_secrets sha256 hex hkdf text curve kw z_ecdh z_mlkem epk ek rk_ec rk_pq key
          party_v
        ≡ ok envelope
      → unwrap_with_shared_secrets sha256 hex hkdf text curve kw z_ecdh' z_mlkem' envelope rk_ec'
          rk_pq' party_v'
        ≡ ok key'
      → ((rk_ec ≡ rk_ec') × (rk_pq ≡ rk_pq') × (party_v ≡ party_v') × (key ≡ key'))
        ⊎ KdfCollision hkdf
        ⊎ TwoKeys kw
  unwrap_with_shared_secrets_binding z_ecdh z_mlkem epk ek rk_ec rk_pq key party_v z_ecdh' z_mlkem'
        rk_ec' rk_pq' party_v' {envelope} {key'} made read =
      let h : Held z_ecdh z_mlkem ek rk_ec rk_pq key party_v envelope =
        held z_ecdh z_mlkem epk ek rk_ec rk_pq key party_v made in
      let o : Opened z_ecdh' z_mlkem' (h.pk) ek (h.wrapped) rk_ec' rk_pq' party_v' key' =
        opened z_ecdh' z_mlkem' (h.pk) ek (h.wrapped) rk_ec' rk_pq' party_v' envelope (h.point)
          (h.ek_held) (h.wk_held) read in
      let (ec, pq) = valid_lengths curve rk_ec rk_pq (h.recipient) in
      let (ec', pq') = valid_lengths curve rk_ec' rk_pq' (o.recipient) in
      elim (unwrap_same_key kw kw_laws (h.kek) (o.kek) key (h.wraps) (o.unwraps)) [
        | inr bad ↦ inr (inr bad)
        | inl (keks, keys) ↦
            elim (kek_binds hkdf z_ecdh z_mlkem _ z_ecdh' z_mlkem' _ (h.derived)
              (o.derived ∙ ap ok (sym keks))) [
                | inr bad ↦ inr (inl bad)
                | inl infos ↦
                    let (p, q, r, s, t) =
                      build_fixed_info_inj (h.pk) ek rk_ec rk_pq party_v (h.pk) ek rk_ec' rk_pq'
                        party_v' (omega (arith, h.point_length)) (omega (arith, h.ciphertext))
                        (omega arith) (omega arith) (omega (arith, h.context))
                        (omega (arith, h.point_length)) (omega (arith, h.ciphertext)) (omega arith)
                        (omega arith) (omega (arith, o.context)) infos in
                    inl (r, s, t, keys)
              ]
      ]
