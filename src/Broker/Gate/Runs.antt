-- ===== src/Broker/Gate/Runs.antt =====
-- A request to the broker over stand-ins, and the theorems on it.
use signet_drive.Base.{◌≡◌, refl, Bytes, none, some, List, [], ◌∷◌, true, ◌⊎◌}
use signet_drive.Base.Ints.{pos}
use signet_drive.Channel.Wire.{Op, Response}
use signet_drive.Crypto.Token.{Formats, P256, Header, Claims, broker, alg_es256, typ_at_jwt, iss}
use signet_drive.Crypto.Token.{as_str}
use signet_drive.Keystore.{KeyLabel}
use signet_drive.Keystore.Toy.{toy_keystore, toy_render}
use signet_drive.Signer.Scope.{Keeps}
use signet_drive.Broker.Lease.{LeaseConfig, GrantStatusOutcome, live, from_secs}
use signet_drive.Broker.Gate.{Refusal, Leases, handle_request}
use signet_drive.Broker.Gate.Guard.{IsRefused, IsServed, handle_request_guarded}

abbrev hlin : Bytes
hlin = 104 ∷ 108 ∷ 105 ∷ 110 ∷ 45 ∷ 97 ∷ 105 ∷ []

-- Every key that was created is of the handle.
abbrev AllHlin : List KeyLabel → Type 0
AllHlin [] = Unit
AllHlin (l ∷ ls) = (l.handle ≡ hlin) × AllHlin ls

toy-Keeps : Keeps toy_keystore hlin AllHlin
toy-Keeps = record {
  by_generate = λ k l a own p. (own, p);
  by_meta = λ k l own p. p;
  by_sign = λ k l m own p. p;
  by_ecdh = λ k l q own p. p;
  by_decapsulate = λ k l c own p. p;
  by_ml_dsa_sign = λ k l m c own p. p;
  by_list = λ k p. p;
  by_delete = λ k l own p. p;
  by_exists = λ k l own p. p;
}

abbrev thumbprint : Bytes
thumbprint = 120 ∷ []

abbrev the_header : Header
the_header = record { alg = alg_es256; typ = typ_at_jwt; kid = [] }

abbrev the_claims : Claims
the_claims = record {
  issuer = iss;
  sub = hlin;
  aud = as_str broker;
  iat = pos 1000;
  nbf = pos 1000;
  exp = pos 1900;
  jti = [];
  grant_id = 3 ∷ [];
  cnf = some (record { x5t_s256 = thumbprint });
}

abbrev toy_formats : Formats
toy_formats = record {
  encode = λ bytes. bytes;
  decode = some;
  header_to_vec = λ h. none;
  header_from_slice = λ bytes. some the_header;
  claims_to_vec = λ c. none;
  claims_from_slice = λ bytes. some the_claims;
  uuid_to_string = λ u. u;
  uuid_parse_str = some;
}

abbrev toy_p256 : P256
toy_p256 = record {
  key_from_sec1 = some;
  signature_from_slice = some;
  signature_from_der = some;
  key_verify = λ key msg sig. true;
}

abbrev cfg : LeaseConfig
cfg = record { lease = from_secs 30; outage_grace = from_secs 90; token_skew = from_secs 60 }

abbrev toy_say : Refusal → Bytes
toy_say r = []

abbrev affirms : Bytes → Bytes → Bytes → GrantStatusOutcome
affirms grant handle cnf = live (pos 1500) none

-- 0.1.2
abbrev token : Bytes
token = 48 ∷ 46 ∷ 49 ∷ 46 ∷ 50 ∷ []

abbrev hlin_label : Bytes
hlin_label =
    104 ∷ 108 ∷ 105 ∷ 110 ∷ 45 ∷ 97 ∷ 105 ∷ 45 ∷ 115 ∷ 105 ∷ 103 ∷ 110 ∷ 105 ∷ 110 ∷ 103 ∷ []

abbrev ResultOf : Type 0
ResultOf = Leases × List KeyLabel × Response

abbrev outcome : ResultOf
outcome =
    handle_request toy_formats toy_p256 [] cfg toy_keystore toy_render toy_say affirms (from_secs 1)
      (from_secs 2) hlin thumbprint token (Op.keygen hlin_label []) [] []

handle_request_guarded_example :
    IsRefused toy_formats toy_p256 [] cfg toy_keystore toy_render toy_say affirms [] outcome.1
      outcome.2
    ⊎ IsServed toy_formats toy_p256 [] cfg toy_keystore toy_render toy_say affirms
        (from_secs 1)
        (from_secs 2)
        hlin
        thumbprint
        token
        (Op.keygen hlin_label [])
        []
        []
        outcome.1
        outcome.2
handle_request_guarded_example =
    handle_request_guarded toy_formats toy_p256 [] cfg toy_keystore toy_render toy_say affirms
      (from_secs 1) (from_secs 2) hlin thumbprint token (Op.keygen hlin_label []) [] [] refl
