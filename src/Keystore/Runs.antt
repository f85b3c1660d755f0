-- ===== src/Keystore/Runs.antt =====
-- Labels of cli/src/keystore/mod.rs.
use signet_drive.Base.{◌≡◌, refl, Bytes, none, some, [], ◌∷◌, bytes_eq}
use signet_drive.Base.Results.{ok, err}
use signet_drive.Keystore.{KeyLabel, kem_pq, parse, parse_suffix, full}
use signet_drive.Keystore.{
  validate_handle, check_expected, strip_suffix, is_alnum, alnum_at, all_allowed,
}
use signet_drive.Keystore.{ends_with, invalid_args, handle_suffix}
use signet_drive.Keystore.Labels.{parse-full}

-- hlin-ai
abbrev hlin : Bytes
hlin = 104 ∷ 108 ∷ 105 ∷ 110 ∷ 45 ∷ 97 ∷ 105 ∷ []

abbrev hlin_kem : KeyLabel
hlin_kem = record { handle = hlin; purpose = kem_pq }

abbrev label : Bytes
label = 104 ∷ 108 ∷ 105 ∷ 110 ∷ 45 ∷ 97 ∷ 105 ∷ 45 ∷ 107 ∷ 101 ∷ 109 ∷ 45 ∷ 112 ∷ 113 ∷ []

hlin_valid : validate_handle hlin ≡ ok tt
unfolding validate_handle is_alnum alnum_at all_allowed ends_with bytes_eq
hlin_valid = refl

parse-full_example : parse (full hlin_kem) none ≡ ok hlin_kem
parse-full_example = parse-full hlin_kem hlin_valid

parse_run : parse label (some kem_pq) ≡ ok hlin_kem
unfolding parse parse_suffix check_expected strip_suffix validate_handle is_alnum alnum_at
    all_allowed ends_with bytes_eq
parse_run = refl

-- A handle must end in -ai.
not_ai : validate_handle (97 ∷ 98 ∷ []) ≡ err (invalid_args (handle_suffix (97 ∷ 98 ∷ [])))
unfolding validate_handle is_alnum alnum_at all_allowed ends_with bytes_eq
not_ai = refl
