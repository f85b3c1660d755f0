-- ===== src/Cli/Recipient/Words.antt =====
-- Strings that cli/src/recipient_verify.rs and cli/src/commands.rs compare, as their bytes.
use signet_drive.Base.{Bytes, [], ◌∷◌}

abbrev pub word_kem : Bytes
word_kem = 107 ∷ 101 ∷ 109 ∷ []

abbrev pub word_kem_pq : Bytes
word_kem_pq = 107 ∷ 101 ∷ 109 ∷ 95 ∷ 112 ∷ 113 ∷ []

abbrev pub word_signing : Bytes
word_signing = 115 ∷ 105 ∷ 103 ∷ 110 ∷ 105 ∷ 110 ∷ 103 ∷ []

abbrev pub word_signing_pq : Bytes
word_signing_pq = 115 ∷ 105 ∷ 103 ∷ 110 ∷ 105 ∷ 110 ∷ 103 ∷ 95 ∷ 112 ∷ 113 ∷ []

abbrev pub word_active : Bytes
word_active = 97 ∷ 99 ∷ 116 ∷ 105 ∷ 118 ∷ 101 ∷ []

abbrev pub word_revoked : Bytes
word_revoked = 114 ∷ 101 ∷ 118 ∷ 111 ∷ 107 ∷ 101 ∷ 100 ∷ []

abbrev pub word_expired : Bytes
word_expired = 101 ∷ 120 ∷ 112 ∷ 105 ∷ 114 ∷ 101 ∷ 100 ∷ []

abbrev pub word_prsn : Bytes
word_prsn = 112 ∷ 114 ∷ 115 ∷ 110 ∷ []

abbrev pub suffix_ai : Bytes
suffix_ai = 45 ∷ 97 ∷ 105 ∷ []

abbrev pub attestation_verification_pq : Bytes
attestation_verification_pq =
    97 ∷ 116 ∷ 116 ∷ 101 ∷ 115 ∷ 116 ∷ 97 ∷ 116 ∷ 105 ∷ 111 ∷ 110 ∷ 95 ∷ 118 ∷ 101 ∷ 114 ∷ 105 ∷ 102
    ∷ 105 ∷ 99 ∷ 97 ∷ 116 ∷ 105 ∷ 111 ∷ 110 ∷ 95 ∷ 112 ∷ 113 ∷ []

abbrev pub verify_prefix : Bytes
verify_prefix =
    115 ∷ 105 ∷ 103 ∷ 110 ∷ 101 ∷ 116 ∷ 45 ∷ 115 ∷ 101 ∷ 114 ∷ 118 ∷ 101 ∷ 114 ∷ 45 ∷ 97 ∷ 116 ∷ 116
    ∷ 101 ∷ 115 ∷ 116 ∷ 97 ∷ 116 ∷ 105 ∷ 111 ∷ 110 ∷ 45 ∷ 118 ∷ 101 ∷ 114 ∷ 105 ∷ 102 ∷ 121 ∷ 45
    ∷ 118 ∷ 49 ∷ 10 ∷ []

abbrev pub server_verify_mldsa_ctx : Bytes
server_verify_mldsa_ctx =
    115 ∷ 105 ∷ 103 ∷ 110 ∷ 101 ∷ 116 ∷ 45 ∷ 115 ∷ 101 ∷ 114 ∷ 118 ∷ 101 ∷ 114 ∷ 45 ∷ 97 ∷ 116 ∷ 116
    ∷ 101 ∷ 115 ∷ 116 ∷ 97 ∷ 116 ∷ 105 ∷ 111 ∷ 110 ∷ 45 ∷ 118 ∷ 101 ∷ 114 ∷ 105 ∷ 102 ∷ 121 ∷ 45
    ∷ 118 ∷ 49 ∷ []

abbrev pub receipt_mldsa_ctx : Bytes
receipt_mldsa_ctx =
    115 ∷ 105 ∷ 103 ∷ 110 ∷ 101 ∷ 116 ∷ 45 ∷ 112 ∷ 117 ∷ 98 ∷ 107 ∷ 101 ∷ 121 ∷ 45 ∷ 108 ∷ 111 ∷ 103
    ∷ 45 ∷ 114 ∷ 101 ∷ 99 ∷ 101 ∷ 105 ∷ 112 ∷ 116 ∷ 45 ∷ 118 ∷ 49 ∷ []
