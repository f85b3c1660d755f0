-- ===== src/Crypto/Jcs/Runs.antt =====
-- Canonical JSON of concrete values.
use signet_drive.Base.{ℕ, ◌≡◌, refl, Bytes, true, false, ◌⊎◌, Option, some, [], ◌∷◌}
use signet_drive.Base.Results.{ok, err, ok_or}
use signet_drive.Crypto.{invalid_input}
use signet_drive.Crypto.Jcs.{Value, number, object, no_member, member, key_in_domain, outside}
use signet_drive.Crypto.Jcs.{check_keys, to_canonical_bytes}
use signet_drive.Crypto.Jcs.Domain.{KeyOf, to_canonical_bytes_lem}

abbrev no_bytes : Value ℕ → Option Bytes
no_bytes value = some []

-- {"a": {"\t": 1}}
abbrev tabbed : Value ℕ
tabbed = object (member (97 ∷ []) (object (member (9 ∷ []) (number 1) no_member)) no_member)

-- {"a": {"b": 1}}
abbrev plain : Value ℕ
plain = object (member (97 ∷ []) (object (member (98 ∷ []) (number 1) no_member)) no_member)

tabbed_refused : to_canonical_bytes no_bytes tabbed ≡ err outside
unfolding to_canonical_bytes check_keys key_in_domain
tabbed_refused = refl

plain_accepted : to_canonical_bytes no_bytes plain ≡ ok []
unfolding to_canonical_bytes check_keys key_in_domain
plain_accepted = refl

to_canonical_bytes_lem_example :
    (((key : Bytes) → KeyOf key tabbed → key_in_domain key ≡ true)
      × (to_canonical_bytes no_bytes tabbed
          ≡ ok_or (no_bytes tabbed) (invalid_input "jcs canonicalization")))
    ⊎ ((key : Bytes) × KeyOf key tabbed
        × (key_in_domain key ≡ false)
        × (to_canonical_bytes no_bytes tabbed ≡ err outside))
to_canonical_bytes_lem_example = to_canonical_bytes_lem no_bytes tabbed
