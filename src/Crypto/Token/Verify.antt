-- ===== src/Crypto/Token/Verify.antt =====
-- `verify` and `verify_skipping_time` of crypto/src/garnet_token.rs, against the list of their checks.
use signet_drive.Base.{◌≡◌, ap, arith, sym, ◌∙◌, Bytes, some}
use signet_drive.Base.Results.{ok, ok_or, bind_ok, ok_or_ok}
use signet_drive.Base.Results.{ok_inj}
use signet_drive.Base.Ints.{ℤ, ◌≤ℤ◌, saturating_add, saturating_sub}
use signet_drive.Crypto.Token.{Formats, P256, Audience, Claims, VerifiedToken}
use signet_drive.Crypto.Token.{verify_structural, into_verified, check_window, verify}
use signet_drive.Crypto.Token.{verify_skipping_time}
use signet_drive.Crypto.Token.Checks.{IsBound, verify_structural-IsBound, IsBound-verify_structural}

-- The claims' validity at a time, with a skew.
pub record InWindow (now skew : ℤ) (claims : Claims) : Type 0 where
  pub not_expired : now ≤ℤ saturating_add claims.exp skew
  pub begun : saturating_sub claims.nbf skew ≤ℤ now
  pub issued : saturating_sub claims.iat skew ≤ℤ now

-- What the caller gets of the claims.
pub record Yields (f : Formats) (claims : Claims) (v : VerifiedToken) : Type 0 where
  pub same_subject : v.subject ≡ claims.sub
  pub same_grant : f.uuid_parse_str claims.grant_id ≡ some v.grant
  pub same_jti : v.token_jti ≡ claims.jti
  pub same_exp : v.expires ≡ claims.exp

check_window-InWindow :
    (now skew : ℤ) (claims : Claims)
    → check_window now skew claims ≡ ok tt
    → InWindow now skew claims
unfolding check_window
check_window-InWindow now skew claims e = record {
  not_expired = ground arith;
  begun = ground arith;
  issued = ground arith;
}

InWindow-check_window :
    (now skew : ℤ) (claims : Claims)
    → InWindow now skew claims
    → check_window now skew claims ≡ ok tt
unfolding check_window
InWindow-check_window now skew claims w =
    let a = w.not_expired in let b = w.begun in let c = w.issued in ground arith

into_verified-Yields :
    (f : Formats) (claims : Claims) {v : VerifiedToken}
    → into_verified f claims ≡ ok v
    → Yields f claims v
unfolding into_verified
into_verified-Yields f claims {v} e =
    let (g, parsed, out) = bind_ok (ok_or (f.uuid_parse_str claims.grant_id) _) _ e in
    let same = sym (ok_inj out) in
    record {
      same_subject = ap (λ x. x.subject) same;
      same_grant = ok_or_ok _ _ parsed ∙ ap (λ x. some (x.grant)) (sym same);
      same_jti = ap (λ x. x.token_jti) same;
      same_exp = ap (λ x. x.expires) same;
    }

Yields-into_verified :
    (f : Formats) (claims : Claims) {v : VerifiedToken}
    → Yields f claims v
    → into_verified f claims ≡ ok v
unfolding into_verified
Yields-into_verified f claims {v} y =
    ground (arith, y.same_grant, y.same_subject, y.same_jti, y.same_exp)

module _ (f : Formats) (p : P256) (jws key : Bytes) (audience : Audience)
    (expected_sub thumbprint : Bytes) where
  -- A token that `verify` accepts has three parts; its header names ES256 and at+jwt; its third part
  -- is an ES256 signature, under the given key, of the first two with the dot; its claims name the
  -- issuer, this audience, the expected subject and the presented certificate, which is not empty;
  -- the time is within the claims' window, give or take the skew; and the caller gets the subject,
  -- the grant, the id and the expiry of those claims.
  pub verify_sound :
      (now skew : ℤ) {v : VerifiedToken}
      → verify f p jws key audience expected_sub thumbprint now skew ≡ ok v
      → (claims : Claims) × IsBound f p jws key audience expected_sub thumbprint claims
        × InWindow now skew claims
        × Yields f claims v
  unfolding verify
  verify_sound now skew e =
      let (claims, bound, e₁) =
        bind_ok (verify_structural f p jws key audience expected_sub thumbprint) _ e in
      let (u, window, e₂) = bind_ok (check_window now skew claims) _ e₁ in
      (
        claims,
        verify_structural-IsBound f p jws key audience expected_sub thumbprint bound,
        check_window-InWindow now skew claims window,
        into_verified-Yields f claims e₂,
      )

  -- Every token with these properties is accepted.
  pub verify_complete :
      (now skew : ℤ) (claims : Claims) {v : VerifiedToken}
      → IsBound f p jws key audience expected_sub thumbprint claims
      → InWindow now skew claims
      → Yields f claims v
      → verify f p jws key audience expected_sub thumbprint now skew ≡ ok v
  unfolding verify
  verify_complete now skew claims bound window y =
      rw (IsBound-verify_structural f p jws key audience expected_sub thumbprint bound)
        (rw (InWindow-check_window now skew claims window) (Yields-into_verified f claims y))

  -- `verify_skipping_time` accepts a token only with the same signature and binding, and leaves to
  -- its caller exactly the expiry of the claims that were signed.
  pub verify_skipping_time_sound :
      {v : VerifiedToken}
      → verify_skipping_time f p jws key audience expected_sub thumbprint ≡ ok v
      → (claims : Claims) × IsBound f p jws key audience expected_sub thumbprint claims
        × Yields f claims v
  unfolding verify_skipping_time
  verify_skipping_time_sound e =
      let (claims, bound, e₁) =
        bind_ok (verify_structural f p jws key audience expected_sub thumbprint) _ e in
      (
        claims,
        verify_structural-IsBound f p jws key audience expected_sub thumbprint bound,
        into_verified-Yields f claims e₁,
      )
