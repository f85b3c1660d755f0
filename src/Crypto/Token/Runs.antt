-- ===== src/Crypto/Token/Runs.antt =====
-- A token under stand-ins for the formats and the signature, and the theorems on it.
use signet_drive.Base.{
  ℕ, Bool, true, false, ◌&&◌, ◌==◌, ◌+◌, ◌-◌, ◌≡◌, refl, ap, arith, Bytes, Option,
}
use signet_drive.Base.{none, some, [], ◌∷◌, ◌++◌, bytes_eq, bytes_eq→eq, if◌then◌else◌, replicate}
use signet_drive.Base.{Bool-cases, inl, inr}
use signet_drive.Base.Results.{ok, err}
use signet_drive.Base.Ints.{ℤ, pos, negsuc, ◌≤ℤ◌, ◌+ℤ◌, saturating_add, saturating_sub}
use signet_drive.Base.Ints.{wrap_i64, as_i64}
use signet_drive.Crypto.Token.{Formats, FormatsLaws, P256, broker, server, Header, Claims, Cnf}
use signet_drive.Crypto.Token.{
  VerifiedToken, alg_es256, typ_at_jwt, iss, as_str, split_dots, push_front,
}
use signet_drive.Crypto.Token.{
  encode_signing_input, verify, verify_skipping_time, verify_structural,
}
use signet_drive.Crypto.Token.{into_verified, check_window, check_claims, pin_header, decode_header}
use signet_drive.Crypto.Token.{
  decode_claims, verify_es256, parse_signature, three, is_empty, extract_kid,
}
use signet_drive.Crypto.Token.{aud_mismatch, malformed}
use signet_drive.Crypto.Token.Checks.{IsBound}
use signet_drive.Crypto.Token.Verify.{InWindow, Yields, verify_sound, verify_complete}
use signet_drive.Crypto.Token.Issue.{verify-encode_signing_input}

-- Each byte is moved past the dot.
abbrev shift : Bytes → Bytes
shift [] = []
shift (b ∷ rest) = (b + 47) ∷ shift rest

abbrev unshift : Bytes → Bytes
unshift [] = []
unshift (b ∷ rest) = (b - 47) ∷ unshift rest

unshift-shift : (bytes : Bytes) → unshift (shift bytes) ≡ bytes
unshift-shift [] = refl
unshift-shift (b ∷ rest) = ground (arith, unshift-shift rest)

shift-no_dot : (bytes : Bytes) → split_dots (shift bytes) ≡ shift bytes ∷ []
unfolding split_dots push_front
shift-no_dot [] = refl
shift-no_dot (b ∷ rest) = ground (arith, shift-no_dot rest)

abbrev grant : Bytes
grant = replicate 16 3

abbrev the_header : Header
the_header = record { alg = alg_es256; typ = typ_at_jwt; kid = grant }

abbrev the_cnf : Option Cnf
the_cnf = some (record { x5t_s256 = 120 ∷ [] })

abbrev the_claims : Claims
the_claims = record {
  issuer = iss;
  sub = 97 ∷ [];
  aud = as_str broker;
  iat = pos 1000;
  nbf = pos 1000;
  exp = pos 1900;
  jti = grant;
  grant_id = grant;
  cnf = some (record { x5t_s256 = 120 ∷ [] });
}

abbrev is_header : Header → Bool
is_header h = bytes_eq h.alg alg_es256 && (bytes_eq h.typ typ_at_jwt && bytes_eq h.kid grant)

abbrev is_int : ℕ → ℤ → Bool
is_int n (pos k) = k == n
is_int n (negsuc k) = false

abbrev is_cnf : Option Cnf → Bool
is_cnf none = false
is_cnf (some c) = bytes_eq c.x5t_s256 (120 ∷ [])

abbrev is_claims : Claims → Bool
is_claims c =
    bytes_eq c.issuer iss
    && (bytes_eq c.sub (97 ∷ [])
        && (bytes_eq c.aud (as_str broker)
            && (is_int 1000 c.iat
                && (is_int 1000 c.nbf
                    && (is_int 1900 c.exp
                        && (bytes_eq c.jti grant
                            && (bytes_eq c.grant_id grant && is_cnf c.cnf)))))))

is_int-eq : (n : ℕ) (i : ℤ) → is_int n i ≡ true → pos n ≡ i
is_int-eq n (pos k) e = ground arith
is_int-eq n (negsuc k) e = absurd (ground arith)

is_cnf-eq : (c : Option Cnf) → is_cnf c ≡ true → the_cnf ≡ c
is_cnf-eq none e = absurd (ground arith)
is_cnf-eq (some c) e = ground (arith, bytes_eq→eq c.x5t_s256 (120 ∷ []) e)

abbrev toy_formats : Formats
toy_formats = record {
  encode = shift;
  decode = λ bytes. some (unshift bytes);
  header_to_vec = λ h. if is_header h then some (1 ∷ []) else none;
  header_from_slice = λ bytes. some the_header;
  claims_to_vec = λ c. if is_claims c then some (2 ∷ []) else none;
  claims_from_slice = λ bytes. some the_claims;
  uuid_to_string = λ u. u;
  uuid_parse_str = some;
}

and_true : (a b : Bool) → (a && b) ≡ true → (a ≡ true) × (b ≡ true)
and_true true true e = (refl, refl)
and_true a b e = ground arith

header_written : (h : Header) → is_header h ≡ true → the_header ≡ h
header_written h e =
    let (a, e₁) = and_true _ _ e in
    let (t, k) = and_true _ _ e₁ in
    ground (
      arith,
      bytes_eq→eq h.alg alg_es256 a,
      bytes_eq→eq h.typ typ_at_jwt t,
      bytes_eq→eq h.kid grant k,
    )

claims_written : (c : Claims) → is_claims c ≡ true → the_claims ≡ c
claims_written c e =
    let (i, e₁) = and_true _ _ e in
    let (s, e₂) = and_true _ _ e₁ in
    let (a, e₃) = and_true _ _ e₂ in
    let (t, e₄) = and_true _ _ e₃ in
    let (n, e₅) = and_true _ _ e₄ in
    let (x, e₆) = and_true _ _ e₅ in
    let (j, e₇) = and_true _ _ e₆ in
    let (g, w) = and_true _ _ e₇ in
    ground (
      arith,
      bytes_eq→eq c.issuer iss i,
      bytes_eq→eq c.sub (97 ∷ []) s,
      bytes_eq→eq c.aud (as_str broker) a,
      is_int-eq 1000 c.iat t,
      is_int-eq 1000 c.nbf n,
      is_int-eq 1900 c.exp x,
      bytes_eq→eq c.jti grant j,
      bytes_eq→eq c.grant_id grant g,
      is_cnf-eq c.cnf w,
    )

toy_formats_laws : FormatsLaws toy_formats
toy_formats_laws = record {
  decode_back = λ bytes. ap some (unshift-shift bytes);
  no_dot = shift-no_dot;
  header_back = λ h {bytes} e. elim (Bool-cases (is_header h)) [
    | inl y ↦ ap some (header_written h y)
    | inr n ↦ absurd (ground arith)
  ];
  claims_back = λ c {bytes} e. elim (Bool-cases (is_claims c)) [
    | inl y ↦ ap some (claims_written c y)
    | inr n ↦ absurd (ground arith)
  ];
  uuid_back = λ u h. refl;
}

-- The one signature is the byte 9.
abbrev toy_p256 : P256
toy_p256 = record {
  key_from_sec1 = some;
  signature_from_slice = some;
  signature_from_der = some;
  key_verify = λ key msg sig. bytes_eq sig (9 ∷ []);
}

abbrev input : Bytes
input = 48 ∷ 46 ∷ 49 ∷ []

abbrev jws : Bytes
jws = input ++ (46 ∷ 56 ∷ [])

abbrev accepted : VerifiedToken
accepted = record { subject = 97 ∷ []; grant = grant; token_jti = grant; expires = pos 1900 }

issue_run :
    encode_signing_input toy_formats grant grant broker
      (97 ∷ [])
      (120 ∷ [])
      grant
      (pos 900)
      (pos 1000)
    ≡ ok input
unfolding encode_signing_input wrap_i64 as_i64 bytes_eq
issue_run = refl

sign_run : verify_es256 toy_p256 (4 ∷ []) input (9 ∷ []) ≡ ok tt
unfolding verify_es256 parse_signature bytes_eq
sign_run = refl

in_time : pos 1960 ≤ℤ saturating_add (wrap_i64 (pos 1000 +ℤ pos 900)) (pos 60)
unfolding saturating_add wrap_i64 as_i64
in_time = omega arith

begun : saturating_sub (pos 1000) (pos 60) ≤ℤ pos 1960
unfolding saturating_sub
begun = omega arith

verify-encode_signing_input_example :
    verify toy_formats toy_p256 jws (4 ∷ []) broker (97 ∷ []) (120 ∷ []) (pos 1960) (pos 60)
    ≡ ok (record {
      subject = 97 ∷ [];
      grant = grant;
      token_jti = grant;
      expires = wrap_i64 (pos 1000 +ℤ pos 900);
    })
verify-encode_signing_input_example =
    verify-encode_signing_input toy_formats toy_formats_laws toy_p256 grant grant broker (97 ∷ [])
      (120 ∷ []) grant (pos 900) (pos 1000) (4 ∷ []) (9 ∷ []) (pos 1960) (pos 60) refl
      (λ e. ground arith) issue_run sign_run in_time begun

verify_run :
    verify toy_formats toy_p256 jws (4 ∷ []) broker (97 ∷ []) (120 ∷ []) (pos 1960) (pos 60)
    ≡ ok accepted
unfolding verify verify_structural three split_dots push_front decode_header pin_header verify_es256
    parse_signature decode_claims check_claims is_empty check_window into_verified bytes_eq
    saturating_add saturating_sub
verify_run = refl

-- On the other surface it is refused for its audience.
wrong_surface :
    verify toy_formats toy_p256 jws (4 ∷ []) server (97 ∷ []) (120 ∷ []) (pos 1960) (pos 60)
    ≡ err aud_mismatch
unfolding verify verify_structural three split_dots push_front decode_header pin_header verify_es256
    parse_signature decode_claims check_claims is_empty bytes_eq
wrong_surface = refl

kid_run : extract_kid toy_formats jws ≡ ok grant
unfolding extract_kid three split_dots push_front decode_header pin_header bytes_eq
kid_run = refl

two_parts : extract_kid toy_formats input ≡ err malformed
unfolding extract_kid three split_dots push_front
two_parts = refl

verify_sound_example :
    (claims : Claims) × IsBound toy_formats toy_p256 jws (4 ∷ []) broker (97 ∷ []) (120 ∷ []) claims
    × InWindow (pos 1960) (pos 60) claims
    × Yields toy_formats claims accepted
verify_sound_example =
    verify_sound toy_formats toy_p256 jws (4 ∷ []) broker (97 ∷ []) (120 ∷ []) (pos 1960) (pos 60)
      verify_run

verify_complete_example :
    verify toy_formats toy_p256 jws (4 ∷ []) broker (97 ∷ []) (120 ∷ []) (pos 1960) (pos 60)
    ≡ ok accepted
verify_complete_example =
    verify_complete toy_formats toy_p256 jws (4 ∷ []) broker (97 ∷ []) (120 ∷ []) (pos 1960)
      (pos 60) verify_sound_example.0 verify_sound_example.1 verify_sound_example.2
      verify_sound_example.3

skipping_run :
    verify_skipping_time toy_formats toy_p256 jws (4 ∷ []) broker (97 ∷ []) (120 ∷ []) ≡ ok accepted
unfolding verify_skipping_time verify_structural three split_dots push_front decode_header
    pin_header verify_es256 parse_signature decode_claims check_claims is_empty into_verified
    bytes_eq
skipping_run = refl
