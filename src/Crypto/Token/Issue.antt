-- ===== src/Crypto/Token/Issue.antt =====
-- A token that crypto/src/garnet_token.rs issued is one that it accepts.
use signet_drive.Base.{ℕ, ◌==◌, ◌≡◌, ◌≢◌, refl, ap, arith, sym, ◌∙◌, Bytes, some, List}
use signet_drive.Base.{[], ◌∷◌, ◌++◌, append_assoc, length, Bool-cases, inl, inr}
use signet_drive.Base.Results.{ok, ok_or, bind_ok, ok_or_ok, ok_inj}
use signet_drive.Base.Ints.{ℤ, ◌≤ℤ◌, ◌+ℤ◌, saturating_add, saturating_sub, wrap_i64}
use signet_drive.Crypto.Token.{Formats, FormatsLaws, P256, Audience, Claims, Header}
use signet_drive.Crypto.Token.{
  encode_signing_input, split_dots, push_front, decode_header, decode_claims,
}
use signet_drive.Crypto.Token.{verify, verify_es256, alg_es256, typ_at_jwt, iss, as_str}
use signet_drive.Crypto.Token.Checks.{IsBound}
use signet_drive.Crypto.Token.Verify.{verify_complete}

push_front-none : (b : ℕ) (parts : List Bytes) → push_front b parts ≢ []
unfolding push_front
push_front-none b [] e = ground arith
push_front-none b (p ∷ ps) e = ground arith

split_dots-none : (bytes : Bytes) → split_dots bytes ≢ []
unfolding split_dots
split_dots-none [] e = ground arith
split_dots-none (b ∷ rest) e = elim (Bool-cases (b == 46)) [
  | inl h ↦ ground arith
  | inr h ↦ push_front-none b (split_dots rest) (ground arith)
]

push_front-one :
    (b : ℕ) (part : Bytes) (parts : List Bytes)
    → parts ≢ []
    → push_front b parts ≡ (b ∷ part) ∷ []
    → parts ≡ part ∷ []
unfolding push_front
push_front-one b part [] some_parts e = absurd (some_parts refl)
push_front-one b part (p ∷ ps) some_parts e = ground arith

-- A part without a dot stays in front.
split_dots-append :
    (part rest : Bytes)
    → split_dots part ≡ part ∷ []
    → split_dots (part ++ (46 ∷ rest)) ≡ part ∷ split_dots rest
unfolding split_dots push_front
split_dots-append [] rest e = refl
split_dots-append (b ∷ part) rest e = elim (Bool-cases (b == 46)) [
  | inl h ↦ absurd (ground arith)
  | inr h ↦
      let one = push_front-one b part (split_dots part) (split_dots-none part) (ground arith) in
      ground (arith, h, split_dots-append part rest one)
]

module _ (f : Formats) (laws : FormatsLaws f) (p : P256) where
  -- The claims of an issued token.
  abbrev pub issued_claims : Bytes → Audience → Bytes → Bytes → Bytes → ℤ → ℤ → Claims
  issued_claims jti audience sub thumbprint grant_id ttl now = record {
    issuer = iss;
    sub = sub;
    aud = as_str audience;
    iat = now;
    nbf = now;
    exp = wrap_i64 (now +ℤ ttl);
    jti = f.uuid_to_string jti;
    grant_id = f.uuid_to_string grant_id;
    cnf = some (record { x5t_s256 = thumbprint });
  }

  abbrev issued_header : Bytes → Header
  issued_header kid = record { alg = alg_es256; typ = typ_at_jwt; kid = f.uuid_to_string kid }

  -- The two parts that were written.
  encode_signing_input-parts :
      (jti kid : Bytes) (audience : Audience) (sub thumbprint grant_id : Bytes) (ttl now : ℤ)
      {input : Bytes}
      → encode_signing_input f jti kid audience sub thumbprint grant_id ttl now ≡ ok input
      → (h c : Bytes) × (f.header_to_vec (issued_header kid) ≡ some h)
        × (f.claims_to_vec (issued_claims jti audience sub thumbprint grant_id ttl now) ≡ some c)
        × (input ≡ f.encode h ++ (46 ∷ f.encode c))
  unfolding encode_signing_input
  encode_signing_input-parts jti kid audience sub thumbprint grant_id ttl now e =
      let (h, header_ok, e₁) = bind_ok (ok_or (f.header_to_vec (issued_header kid)) _) _ e in
      let (c, claims_ok, e₂) =
        bind_ok
          (ok_or (f.claims_to_vec (issued_claims jti audience sub thumbprint grant_id ttl now)) _) _
          e₁ in
      (h, c, ok_or_ok _ _ header_ok, ok_or_ok _ _ claims_ok, sym (ok_inj e₂))

  decode_header-encode :
      (kid h : Bytes)
      → f.header_to_vec (issued_header kid) ≡ some h
      → decode_header f (f.encode h) ≡ ok (issued_header kid)
  unfolding decode_header
  decode_header-encode kid h e =
      ground (arith, laws.decode_back h, laws.header_back (issued_header kid) e)

  decode_claims-encode :
      (claims : Claims) (c : Bytes)
      → f.claims_to_vec claims ≡ some c
      → decode_claims f (f.encode c) ≡ ok claims
  unfolding decode_claims
  decode_claims-encode claims c e = ground (arith, laws.decode_back c, laws.claims_back claims e)

  -- A token is accepted on the surface it was issued for: the signing input, a dot and the encoded
  -- signature, where the signature of the input verifies under the key, the presented certificate is
  -- the one the token names, and the time is within its window. The caller gets what was issued.
  pub verify-encode_signing_input :
      (jti kid : Bytes) (audience : Audience) (sub thumbprint grant_id : Bytes) (ttl issued_at : ℤ)
      (key signature : Bytes) (now skew : ℤ) {input : Bytes}
      → length grant_id ≡ 16
      → thumbprint ≢ []
      → encode_signing_input f jti kid audience sub thumbprint grant_id ttl issued_at ≡ ok input
      → verify_es256 p key input signature ≡ ok tt
      → now ≤ℤ saturating_add (wrap_i64 (issued_at +ℤ ttl)) skew
      → saturating_sub issued_at skew ≤ℤ now
      → verify f p (input ++ (46 ∷ f.encode signature)) key audience sub thumbprint now skew
        ≡ ok (record {
          subject = sub;
          grant = grant_id;
          token_jti = f.uuid_to_string jti;
          expires = wrap_i64 (issued_at +ℤ ttl);
        })
  verify-encode_signing_input jti kid audience sub thumbprint grant_id ttl issued_at key signature
        now skew {input} hg ht e signed in_time begun =
      let (h, c, header_ok, claims_ok, same) =
        encode_signing_input-parts jti kid audience sub thumbprint grant_id ttl issued_at e in
      let claims = issued_claims jti audience sub thumbprint grant_id ttl issued_at in
      let s = f.encode signature in
      let parts : split_dots (input ++ (46 ∷ s)) ≡ f.encode h ∷ f.encode c ∷ s ∷ [] =
        ap (λ i. split_dots (i ++ (46 ∷ s))) same
        ∙ ap split_dots (append_assoc (f.encode h) (46 ∷ f.encode c) (46 ∷ s))
        ∙ split_dots-append (f.encode h) (f.encode c ++ (46 ∷ s)) (laws.no_dot h)
        ∙ ap (λ l. f.encode h ∷ l) (split_dots-append (f.encode c) s (laws.no_dot c))
        ∙ ap (λ l. f.encode h ∷ f.encode c ∷ l) (laws.no_dot signature) in
      let bound : IsBound f p (input ++ (46 ∷ s)) key audience sub thumbprint claims = record {
        header_part = f.encode h;
        claims_part = f.encode c;
        signature_part = s;
        header = issued_header kid;
        signature = signature;
        three_parts = parts;
        header_read = decode_header-encode kid h header_ok;
        alg_pinned = refl;
        typ_pinned = refl;
        signature_read = laws.decode_back signature;
        signed = ap (λ i. verify_es256 p key i signature) (sym same) ∙ signed;
        claims_read = decode_claims-encode claims c claims_ok;
        from_issuer = refl;
        for_audience = refl;
        for_subject = refl;
        confirmed = refl;
        thumbprint_given = ht;
      } in
      verify_complete f p (input ++ (46 ∷ s)) key audience sub thumbprint now skew claims bound
        (record { not_expired = in_time; begun = begun; issued = begun })
        (record {
          same_subject = refl;
          same_grant = laws.uuid_back grant_id hg;
          same_jti = refl;
          same_exp = refl;
        })
