-- ===== src/Keystore/Toy.antt =====
-- A stand-in for a keystore's backend: the labels of the keys that were created. It models no code.
use signet_drive.Base.{◌≡◌, refl, none, bytes_eq, Bytes, List, [], ◌∷◌, true}
use signet_drive.Base.Results.{ok, err}
use signet_drive.Keystore.{parse, parse_suffix, check_expected, strip_suffix, validate_handle}
use signet_drive.Keystore.{is_alnum, alnum_at, all_allowed, ends_with, kem, signing}
use signet_drive.Keystore.{CliError, KeyLabel, KeyMeta, Keystore, Message, other, as_str}

abbrev meta_for : KeyLabel → KeyMeta
meta_for l = record {
  label = l.handle;
  kind = as_str l.purpose;
  algorithm = [];
  storage = [];
  fingerprint = [];
  public_key = [];
}

abbrev absent : CliError
absent = record { code = []; text = other [] }

abbrev own_key : KeyMeta
own_key = record {
  label = 104 ∷ 108 ∷ 105 ∷ 110 ∷ 45 ∷ 97 ∷ 105 ∷ 45 ∷ 107 ∷ 101 ∷ 109 ∷ [];
  kind = [];
  algorithm = [];
  storage = [];
  fingerprint = [];
  public_key = [];
}

abbrev foreign_key : KeyMeta
foreign_key = record {
  label = 98 ∷ 111 ∷ 98 ∷ 45 ∷ 97 ∷ 105 ∷ 45 ∷ 107 ∷ 101 ∷ 109 ∷ [];
  kind = [];
  algorithm = [];
  storage = [];
  fingerprint = [];
  public_key = [];
}

abbrev pub toy_keystore : Keystore (List KeyLabel)
toy_keystore = record {
  generate = λ k l a. (l ∷ k, ok (meta_for l));
  meta_of = λ k l. (k, err absent);
  sign_with = λ k l m. (k, ok (7 ∷ []));
  ecdh_with = λ k l p. (k, err absent);
  decapsulate = λ k l c. (k, err absent);
  ml_dsa_sign_with = λ k l m c. (k, err absent);
  list_all = λ k. (k, ok (own_key ∷ foreign_key ∷ []));
  delete_key = λ k l. (k, err absent);
  key_exists = λ k l. (k, ok true);
}

abbrev pub toy_render : Message → Bytes
toy_render m = []

abbrev pub hlin_kem : KeyLabel
hlin_kem = record { handle = 104 ∷ 108 ∷ 105 ∷ 110 ∷ 45 ∷ 97 ∷ 105 ∷ []; purpose = kem }

abbrev pub hlin_kem_label : Bytes
hlin_kem_label = 104 ∷ 108 ∷ 105 ∷ 110 ∷ 45 ∷ 97 ∷ 105 ∷ 45 ∷ 107 ∷ 101 ∷ 109 ∷ []

pub hlin_kem_parses : parse hlin_kem_label none ≡ ok hlin_kem
unfolding parse parse_suffix check_expected strip_suffix validate_handle is_alnum alnum_at
    all_allowed ends_with bytes_eq
hlin_kem_parses = refl

abbrev pub hlin_signing : KeyLabel
hlin_signing = record { handle = 104 ∷ 108 ∷ 105 ∷ 110 ∷ 45 ∷ 97 ∷ 105 ∷ []; purpose = signing }

abbrev pub hlin_signing_label : Bytes
hlin_signing_label =
    104 ∷ 108 ∷ 105 ∷ 110 ∷ 45 ∷ 97 ∷ 105 ∷ 45 ∷ 115 ∷ 105 ∷ 103 ∷ 110 ∷ 105 ∷ 110 ∷ 103 ∷ []

pub hlin_signing_parses : parse hlin_signing_label none ≡ ok hlin_signing
unfolding parse parse_suffix check_expected strip_suffix validate_handle is_alnum alnum_at
    all_allowed ends_with bytes_eq
hlin_signing_parses = refl

abbrev pub bob_kem : KeyLabel
bob_kem = record { handle = 98 ∷ 111 ∷ 98 ∷ 45 ∷ 97 ∷ 105 ∷ []; purpose = kem }

abbrev pub bob_kem_label : Bytes
bob_kem_label = 98 ∷ 111 ∷ 98 ∷ 45 ∷ 97 ∷ 105 ∷ 45 ∷ 107 ∷ 101 ∷ 109 ∷ []

pub bob_kem_parses : parse bob_kem_label none ≡ ok bob_kem
unfolding parse parse_suffix check_expected strip_suffix validate_handle is_alnum alnum_at
    all_allowed ends_with bytes_eq
bob_kem_parses = refl
