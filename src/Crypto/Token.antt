-- ===== src/Crypto/Token.antt =====
-- The access token of crypto/src/garnet_token.rs, with the signature check of crypto/src/ecdsa.rs.
--
-- Strings are their UTF-8 bytes. The crates that the code calls are parameters: `Formats` holds the
-- URL-safe base64 without padding, serde_json on the two parts, and the UUIDs' text; `P256` the
-- p256 crate, whose parsed keys and signatures are kept as bytes. `FormatsLaws` says that what they
-- wrote they read back, and that the base64 alphabet has no dot.
pub mod Checks
pub mod Verify
pub mod Issue
mod Runs
use Prim.Native.String.{String}
use signet_drive.Base.{
  ℕ, Bool, true, false, not, ◌||◌, ◌≡◌, Bytes, Option, none, some, List, [], ◌∷◌, ◌++◌,
}
use signet_drive.Base.{length, leb, ◌==◌, bytes_eq, if◌then◌else◌}
use signet_drive.Base.Results.{Result, ok, err, ◌>>=◌, ◌>>◌, refuse_if, ok_or, map_err}
use signet_drive.Base.Ints.{ℤ, ltb_ℤ, ◌+ℤ◌, saturating_add, saturating_sub, wrap_i64}
use signet_drive.Crypto.{CryptoError, invalid_input, signature_invalid}

abbrev pub alg_es256 : Bytes
alg_es256 = 69 ∷ 83 ∷ 50 ∷ 53 ∷ 54 ∷ []

abbrev pub typ_at_jwt : Bytes
typ_at_jwt = 97 ∷ 116 ∷ 43 ∷ 106 ∷ 119 ∷ 116 ∷ []

-- https://drive.mysignet.ca
abbrev pub iss : Bytes
iss =
    104 ∷ 116 ∷ 116 ∷ 112 ∷ 115 ∷ 58 ∷ 47 ∷ 47 ∷ 100 ∷ 114 ∷ 105 ∷ 118 ∷ 101 ∷ 46 ∷ 109 ∷ 121 ∷ 115
    ∷ 105 ∷ 103 ∷ 110 ∷ 101 ∷ 116 ∷ 46 ∷ 99 ∷ 97 ∷ []

pub data Audience : Type 0 where
  server : Audience
  broker : Audience

-- `Audience::as_str`.
abbrev pub as_str : Audience → Bytes
as_str server = 115 ∷ 105 ∷ 103 ∷ 110 ∷ 101 ∷ 116 ∷ 45 ∷ 115 ∷ 101 ∷ 114 ∷ 118 ∷ 101 ∷ 114 ∷ []
as_str broker = 115 ∷ 105 ∷ 103 ∷ 110 ∷ 101 ∷ 116 ∷ 45 ∷ 98 ∷ 114 ∷ 111 ∷ 107 ∷ 101 ∷ 114 ∷ []

pub record Header : Type 0 where
  pub alg : Bytes
  pub typ : Bytes
  pub kid : Bytes

pub record Cnf : Type 0 where
  pub x5t_s256 : Bytes

pub record Claims : Type 0 where
  pub issuer : Bytes
  pub sub : Bytes
  pub aud : Bytes
  pub iat : ℤ
  pub nbf : ℤ
  pub exp : ℤ
  pub jti : Bytes
  pub grant_id : Bytes
  pub cnf : Option Cnf

-- A `Uuid` is its 16 bytes.
pub record VerifiedToken : Type 0 where
  pub subject : Bytes
  pub grant : Bytes
  pub token_jti : Bytes
  pub expires : ℤ

pub data TokenError : Type 0 where
  malformed : TokenError
  alg_not_allowed : TokenError
  typ_not_allowed : TokenError
  kid_malformed : TokenError
  unknown_kid : TokenError
  token_signature_invalid : TokenError
  cnf_missing : TokenError
  cnf_mismatch : TokenError
  sub_mismatch : TokenError
  aud_mismatch : TokenError
  iss_mismatch : TokenError
  expired : TokenError
  not_yet_valid : TokenError

-- `none` is the callee's error, which the code does not look at.
pub record Formats : Type 0 where
  pub encode : Bytes → Bytes
  pub decode : Bytes → Option Bytes
  pub header_to_vec : Header → Option Bytes
  pub header_from_slice : Bytes → Option Header
  pub claims_to_vec : Claims → Option Bytes
  pub claims_from_slice : Bytes → Option Claims
  pub uuid_to_string : Bytes → Bytes
  pub uuid_parse_str : Bytes → Option Bytes

pub record P256 : Type 0 where
  pub key_from_sec1 : Bytes → Option Bytes
  pub signature_from_slice : Bytes → Option Bytes
  pub signature_from_der : Bytes → Option Bytes
  pub key_verify : Bytes → Bytes → Bytes → Bool

-- `str::split('.')`.
push_front : ℕ → List Bytes → List Bytes
push_front b [] = (b ∷ []) ∷ []
push_front b (part ∷ parts) = (b ∷ part) ∷ parts

pub split_dots : Bytes → List Bytes
unfolding push_front
split_dots [] = [] ∷ []
split_dots (b ∷ rest) =
    let parts = split_dots rest in if b == 46 then [] ∷ parts else push_front b parts

pub record FormatsLaws (f : Formats) : Type 0 where
  pub decode_back : (bytes : Bytes) → f.decode (f.encode bytes) ≡ some bytes
  pub no_dot : (bytes : Bytes) → split_dots (f.encode bytes) ≡ f.encode bytes ∷ []
  pub header_back :
      (h : Header) {bytes : Bytes}
      → f.header_to_vec h ≡ some bytes
      → f.header_from_slice bytes ≡ some h
  pub claims_back :
      (c : Claims) {bytes : Bytes}
      → f.claims_to_vec c ≡ some bytes
      → f.claims_from_slice bytes ≡ some c
  pub uuid_back : (u : Bytes) → length u ≡ 16 → f.uuid_parse_str (f.uuid_to_string u) ≡ some u

-- `if parts.len() != 3`.
three : List Bytes → Option (Bytes × Bytes × Bytes)
three (a ∷ b ∷ c ∷ []) = some (a, b, c)
three parts = none

is_empty : Bytes → Bool
is_empty [] = true
is_empty (b ∷ rest) = false

-- crypto/src/ecdsa.rs, `parse_signature`.
unfoldable pub parse_signature : P256 → Bytes → Result CryptoError Bytes
parse_signature p sig =
    if length sig == 64
    then ok_or (p.signature_from_slice sig) (invalid_input "es256 raw r‖s")
    else (if leb (length sig) 72
        then ok_or (p.signature_from_der sig) (invalid_input "es256 DER")
        else err (invalid_input "es256 signature length"))

-- crypto/src/ecdsa.rs, `verify_es256`.
unfoldable pub verify_es256 : P256 → Bytes → Bytes → Bytes → Result CryptoError (Unit {0})
unfolding parse_signature
verify_es256 p pubkey_x963 msg sig =
    ok_or (p.key_from_sec1 pubkey_x963) (invalid_input "es256 public key") >>= λ vk.
    parse_signature p sig >>= λ signature.
    refuse_if (not (p.key_verify vk msg signature)) signature_invalid

-- `encode_signing_input`; the fresh `jti` is an argument.
pub encode_signing_input :
    Formats → Bytes → Bytes → Audience → Bytes → Bytes → Bytes → ℤ → ℤ → Result CryptoError Bytes
encode_signing_input f jti kid audience sub cnf_thumbprint grant_id ttl_seconds now =
    let header : Header = record {
      alg = alg_es256;
      typ = typ_at_jwt;
      kid = f.uuid_to_string kid;
    } in
    let claims : Claims = record {
      issuer = iss;
      sub = sub;
      aud = as_str audience;
      iat = now;
      nbf = now;
      exp = wrap_i64 (now +ℤ ttl_seconds);
      jti = f.uuid_to_string jti;
      grant_id = f.uuid_to_string grant_id;
      cnf = some (record { x5t_s256 = cnf_thumbprint });
    } in
    ok_or (f.header_to_vec header) (invalid_input "garnet token header") >>= λ header_json.
    ok_or (f.claims_to_vec claims) (invalid_input "garnet token claims") >>= λ claims_json.
    ok (f.encode header_json ++ (46 ∷ f.encode claims_json))

pub pin_header : Header → Result TokenError (Unit {0})
pin_header header =
    refuse_if (not (bytes_eq header.alg alg_es256)) alg_not_allowed
    >> refuse_if (not (bytes_eq header.typ typ_at_jwt)) typ_not_allowed

pub decode_header : Formats → Bytes → Result TokenError Header
decode_header f part =
    ok_or (f.decode part) malformed >>= λ bytes. ok_or (f.header_from_slice bytes) malformed

pub decode_claims : Formats → Bytes → Result TokenError Claims
decode_claims f part =
    ok_or (f.decode part) malformed >>= λ bytes. ok_or (f.claims_from_slice bytes) malformed

pub extract_kid : Formats → Bytes → Result TokenError Bytes
unfolding three decode_header pin_header
extract_kid f jws = ok_or (three (split_dots jws)) malformed >>= λ (h, c, s).
    decode_header f h >>= λ header.
    pin_header header >> ok_or (f.uuid_parse_str header.kid) kid_malformed

-- The claims' checks, once the signature has been verified.
check_claims : Audience → Bytes → Bytes → Claims → Result TokenError Claims
unfolding is_empty
check_claims audience expected_sub thumbprint claims =
    refuse_if (not (bytes_eq claims.issuer iss)) iss_mismatch
    >> (refuse_if (not (bytes_eq claims.aud (as_str audience))) aud_mismatch
        >> (refuse_if (not (bytes_eq claims.sub expected_sub)) sub_mismatch
            >> (ok_or claims.cnf cnf_missing >>= λ cnf.
                refuse_if (is_empty cnf.x5t_s256) cnf_missing
                >> (refuse_if (not (bytes_eq cnf.x5t_s256 thumbprint)) cnf_mismatch >> ok claims))))

pub verify_structural :
    Formats → P256 → Bytes → Bytes → Audience → Bytes → Bytes → Result TokenError Claims
unfolding three decode_header pin_header verify_es256 decode_claims check_claims
verify_structural f p jws verify_key audience expected_sub thumbprint =
    ok_or (three (split_dots jws)) malformed >>= λ (h, c, s). decode_header f h >>= λ header.
    pin_header header
    >> (ok_or (f.decode s) malformed >>= λ sig.
        map_err (λ e. token_signature_invalid) (verify_es256 p verify_key (h ++ (46 ∷ c)) sig)
        >> (decode_claims f c >>= λ claims. check_claims audience expected_sub thumbprint claims))

pub into_verified : Formats → Claims → Result TokenError VerifiedToken
into_verified f claims = ok_or (f.uuid_parse_str claims.grant_id) malformed >>= λ grant_id.
    ok (record {
      subject = claims.sub;
      grant = grant_id;
      token_jti = claims.jti;
      expires = claims.exp;
    })

-- `now > claims.exp.saturating_add(skew_seconds)`, then `nbf` and `iat`.
pub check_window : ℤ → ℤ → Claims → Result TokenError (Unit {0})
check_window now skew_seconds claims =
    refuse_if (ltb_ℤ (saturating_add claims.exp skew_seconds) now) expired
    >> refuse_if
        (ltb_ℤ now (saturating_sub claims.nbf skew_seconds)
          || ltb_ℤ now (saturating_sub claims.iat skew_seconds))
        not_yet_valid

pub verify :
    Formats
    → P256
    → Bytes
    → Bytes
    → Audience
    → Bytes
    → Bytes
    → ℤ
    → ℤ
    → Result TokenError VerifiedToken
unfolding verify_structural check_window into_verified
verify f p jws verify_key audience expected_sub thumbprint now skew_seconds =
    verify_structural f p jws verify_key audience expected_sub thumbprint >>= λ claims.
    check_window now skew_seconds claims >> into_verified f claims

pub verify_skipping_time :
    Formats → P256 → Bytes → Bytes → Audience → Bytes → Bytes → Result TokenError VerifiedToken
unfolding verify_structural into_verified
verify_skipping_time f p jws verify_key audience expected_sub thumbprint =
    verify_structural f p jws verify_key audience expected_sub thumbprint >>= λ claims.
    into_verified f claims
