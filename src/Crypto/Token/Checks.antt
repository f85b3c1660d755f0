-- ===== src/Crypto/Token/Checks.antt =====
-- What a token that crypto/src/garnet_token.rs accepted has passed.
use signet_drive.Base.{false, not, ◌≡◌, ◌≢◌, refl, ap, arith, sym, ◌∙◌, Bytes}
use signet_drive.Base.{
  some, List, [], ◌∷◌, ◌++◌, bytes_eq, bytes_eq→eq, eq→bytes_eq, bytes_eq_refl, Bool-cases, inl,
  inr,
}
use signet_drive.Base.Results.{ok, ok_or, map_err}
use signet_drive.Base.Results.{bind_ok, then_ok, ok_or_ok, map_err_ok, ok_inj}
use signet_drive.Crypto.Token.{Formats, P256, Audience, Header, Claims}
use signet_drive.Crypto.Token.{
  split_dots, three, is_empty, pin_header, decode_header, decode_claims,
}
use signet_drive.Crypto.Token.{check_claims, verify_structural}
use signet_drive.Crypto.Token.{alg_es256, typ_at_jwt, iss, as_str, verify_es256}

same : (a b : Bytes) → not (bytes_eq a b) ≡ false → a ≡ b
same a b e = bytes_eq→eq a b (ground arith)

-- A token whose signature and binding hold: its parts, its header and its claims.
pub record IsBound (f : Formats) (p : P256) (jws key : Bytes) (audience : Audience)
    (expected_sub thumbprint : Bytes) (claims : Claims) : Type 0 where
  pub header_part : Bytes
  pub claims_part : Bytes
  pub signature_part : Bytes
  pub header : Header
  pub signature : Bytes
  pub three_parts : split_dots jws ≡ header_part ∷ claims_part ∷ signature_part ∷ []
  pub header_read : decode_header f header_part ≡ ok header
  pub alg_pinned : header.alg ≡ alg_es256
  pub typ_pinned : header.typ ≡ typ_at_jwt
  pub signature_read : f.decode signature_part ≡ some signature
  pub signed : verify_es256 p key (header_part ++ (46 ∷ claims_part)) signature ≡ ok tt
  pub claims_read : decode_claims f claims_part ≡ ok claims
  pub from_issuer : claims.issuer ≡ iss
  pub for_audience : claims.aud ≡ as_str audience
  pub for_subject : claims.sub ≡ expected_sub
  pub confirmed : claims.cnf ≡ some (record { x5t_s256 = thumbprint })
  pub thumbprint_given : thumbprint ≢ []

three-split :
    (parts : List Bytes) {h c s : Bytes} → three parts ≡ some (h, c, s) → parts ≡ h ∷ c ∷ s ∷ []
unfolding three
three-split [] e = absurd (ground arith)
three-split (a ∷ []) e = absurd (ground arith)
three-split (a ∷ b ∷ []) e = absurd (ground arith)
three-split (a ∷ b ∷ c ∷ []) e = ground arith
three-split (a ∷ b ∷ c ∷ d ∷ rest) e = absurd (ground arith)

pin_header_lem :
    (header : Header)
    → pin_header header ≡ ok tt
    → (header.alg ≡ alg_es256) × (header.typ ≡ typ_at_jwt)
unfolding pin_header
pin_header_lem header e =
    let (a, rest) = then_ok (not (bytes_eq header.alg alg_es256)) _ _ e in
    elim (Bool-cases (not (bytes_eq header.typ typ_at_jwt))) [
      | inl bad ↦ absurd (ground arith)
      | inr good ↦ (same header.alg alg_es256 a, same header.typ typ_at_jwt good)
    ]

not_empty : (x : Bytes) → is_empty x ≡ false → x ≢ []
unfolding is_empty
not_empty x e h = ground (arith, ap is_empty h)

-- The claims that pass are the claims that came.
check_claims_lem :
    (audience : Audience) (expected_sub thumbprint : Bytes) (claims : Claims) {out : Claims}
    → check_claims audience expected_sub thumbprint claims ≡ ok out
    → (out ≡ claims)
      × (claims.issuer ≡ iss)
      × (claims.aud ≡ as_str audience)
      × (claims.sub ≡ expected_sub)
      × (claims.cnf ≡ some (record { x5t_s256 = thumbprint }))
      × (thumbprint ≢ [])
unfolding check_claims
check_claims_lem audience expected_sub thumbprint claims e =
    let (i, e₁) = then_ok (not (bytes_eq claims.issuer iss)) _ _ e in
    let (a, e₂) = then_ok (not (bytes_eq claims.aud (as_str audience))) _ _ e₁ in
    let (s, e₃) = then_ok (not (bytes_eq claims.sub expected_sub)) _ _ e₂ in
    let (cnf, found, e₄) = bind_ok (ok_or claims.cnf _) _ e₃ in
    let (n, e₅) = then_ok (is_empty cnf.x5t_s256) _ _ e₄ in
    let (t, e₆) = then_ok (not (bytes_eq cnf.x5t_s256 thumbprint)) _ _ e₅ in
    let thumb = same cnf.x5t_s256 thumbprint t in
    (
      sym (ok_inj e₆),
      same claims.issuer iss i,
      same claims.aud (as_str audience) a,
      same claims.sub expected_sub s,
      ok_or_ok claims.cnf _ found ∙ ap (λ x. some (record { x5t_s256 = x })) thumb,
      λ nothing. not_empty cnf.x5t_s256 n (thumb ∙ nothing),
    )

pinned :
    (header : Header) → header.alg ≡ alg_es256 → header.typ ≡ typ_at_jwt → pin_header header ≡ ok tt
unfolding pin_header
pinned header a t =
    ground (arith, eq→bytes_eq header.alg alg_es256 a, eq→bytes_eq header.typ typ_at_jwt t)

empty_not : (x : Bytes) → x ≢ [] → is_empty x ≡ false
unfolding is_empty
empty_not [] h = absurd (h refl)
empty_not (b ∷ rest) h = refl

passes :
    (audience : Audience) (expected_sub thumbprint : Bytes) (claims : Claims)
    → claims.issuer ≡ iss
    → claims.aud ≡ as_str audience
    → claims.sub ≡ expected_sub
    → claims.cnf ≡ some (record { x5t_s256 = thumbprint })
    → thumbprint ≢ []
    → check_claims audience expected_sub thumbprint claims ≡ ok claims
unfolding check_claims
passes audience expected_sub thumbprint claims i a s c n = ground (
  arith,
  eq→bytes_eq claims.issuer iss i,
  eq→bytes_eq claims.aud (as_str audience) a,
  eq→bytes_eq claims.sub expected_sub s,
  c,
  empty_not thumbprint n,
  bytes_eq_refl thumbprint,
)

module _ (f : Formats) (p : P256) (jws key : Bytes) (audience : Audience)
    (expected_sub thumbprint : Bytes) where
  pub verify_structural-IsBound :
      {claims : Claims}
      → verify_structural f p jws key audience expected_sub thumbprint ≡ ok claims
      → IsBound f p jws key audience expected_sub thumbprint claims
  unfolding verify_structural
  verify_structural-IsBound {claims} e =
      let ((h, c, s), parts, e₁) = bind_ok (ok_or (three (split_dots jws)) _) _ e in
      let (header, read, e₂) = bind_ok (decode_header f h) _ e₁ in
      let (u, pinned, e₃) = bind_ok (pin_header header) _ e₂ in
      let (sig, sig_read, e₄) = bind_ok (ok_or (f.decode s) _) _ e₃ in
      let (w, verified, e₅) = bind_ok (map_err _ (verify_es256 p key (h ++ (46 ∷ c)) sig)) _ e₄ in
      let (read_claims, claims_from, e₆) = bind_ok (decode_claims f c) _ e₅ in
      let (kept, i, a, su, cn, ne) =
        check_claims_lem audience expected_sub thumbprint read_claims e₆ in
      let (alg, typ) = pin_header_lem header pinned in
      record {
        header_part = h;
        claims_part = c;
        signature_part = s;
        header = header;
        signature = sig;
        three_parts = three-split (split_dots jws) (ok_or_ok _ _ parts);
        header_read = read;
        alg_pinned = alg;
        typ_pinned = typ;
        signature_read = ok_or_ok _ _ sig_read;
        signed = map_err_ok _ (verify_es256 p key (h ++ (46 ∷ c)) sig) verified;
        claims_read = claims_from ∙ ap ok (sym kept);
        from_issuer = ap (λ x. x.issuer) kept ∙ i;
        for_audience = ap (λ x. x.aud) kept ∙ a;
        for_subject = ap (λ x. x.sub) kept ∙ su;
        confirmed = ap (λ x. x.cnf) kept ∙ cn;
        thumbprint_given = ne;
      }

  pub IsBound-verify_structural :
      {claims : Claims}
      → IsBound f p jws key audience expected_sub thumbprint claims
      → verify_structural f p jws key audience expected_sub thumbprint ≡ ok claims
  unfolding verify_structural three
  IsBound-verify_structural {claims} b = rw (b.three_parts) (
      rw (b.header_read) (
        rw (pinned b.header b.alg_pinned b.typ_pinned) (
          rw (b.signature_read) (
            rw (b.signed) (
              rw (b.claims_read) (
                passes audience expected_sub thumbprint claims b.from_issuer b.for_audience
                  b.for_subject b.confirmed b.thumbprint_given))))))
