-- ===== src/Keystore.antt =====
-- The labels and the interface of the keystore, cli/src/keystore/mod.rs, and the error of
-- cli/src/error.rs.
--
-- Strings are their UTF-8 bytes. An error keeps its code, and its message as a value that names the
-- text and what stands in it; `format!` is not modelled. The backends implement the interface, each
-- operation of which takes and returns the backend's state.
pub mod Labels
pub mod Toy
mod Runs
use signet_drive.Base.{
  ℕ, ◌-◌, Bool, true, false, not, ◌&&◌, ◌||◌, Bytes, Option, none, some, List, [], ◌∷◌,
}
use signet_drive.Base.{◌++◌, length, take, drop, get_elem?, ltb, leb, ◌==◌, bytes_eq, if◌then◌else◌}
use signet_drive.Base.Results.{Result, ok, err, ◌>>=◌, ◌>>◌, refuse_if}

pub data Purpose : Type 0 where
  signing : Purpose
  kem : Purpose
  signing_pq : Purpose
  kem_pq : Purpose

-- `Purpose::as_str`.
abbrev pub as_str : Purpose → Bytes
as_str signing = 115 ∷ 105 ∷ 103 ∷ 110 ∷ 105 ∷ 110 ∷ 103 ∷ []
as_str kem = 107 ∷ 101 ∷ 109 ∷ []
as_str signing_pq = 115 ∷ 105 ∷ 103 ∷ 110 ∷ 105 ∷ 110 ∷ 103 ∷ 45 ∷ 112 ∷ 113 ∷ []
as_str kem_pq = 107 ∷ 101 ∷ 109 ∷ 45 ∷ 112 ∷ 113 ∷ []

-- `Purpose::suffix`.
abbrev pub suffix : Purpose → Bytes
suffix signing = 45 ∷ 115 ∷ 105 ∷ 103 ∷ 110 ∷ 105 ∷ 110 ∷ 103 ∷ []
suffix kem = 45 ∷ 107 ∷ 101 ∷ 109 ∷ []
suffix signing_pq = 45 ∷ 115 ∷ 105 ∷ 103 ∷ 110 ∷ 105 ∷ 110 ∷ 103 ∷ 45 ∷ 112 ∷ 113 ∷ []
suffix kem_pq = 45 ∷ 107 ∷ 101 ∷ 109 ∷ 45 ∷ 112 ∷ 113 ∷ []

abbrev purpose_eq : Purpose → Purpose → Bool
purpose_eq a b = bytes_eq (as_str a) (as_str b)

pub data Message : Type 0 where
  handle_length : Bytes → Message
  handle_ends : Bytes → Message
  handle_characters : Bytes → Message
  handle_suffix : Bytes → Message
  label_suffix : Bytes → Message
  label_purpose : Bytes → Bytes → Bytes → Message
  label_of_other : Bytes → Bytes → Message
  ciphertext_length : ℕ → Message
  context_length : ℕ → Message
  not_enrolled : Message
  -- the text of a backend's error
  other : Bytes → Message

pub record CliError : Type 0 where
  pub code : Bytes
  pub text : Message

-- `CliError::invalid_args`.
abbrev pub invalid_args : Message → CliError
invalid_args m = record {
  code =
      105 ∷ 110 ∷ 118 ∷ 97 ∷ 108 ∷ 105 ∷ 100 ∷ 95 ∷ 97 ∷ 114 ∷ 103 ∷ 117 ∷ 109 ∷ 101 ∷ 110 ∷ 116
      ∷ 115 ∷ [];
  text = m;
}

-- `CliError::authorization_denied`.
abbrev pub authorization_denied : Message → CliError
authorization_denied m = record {
  code =
      97 ∷ 117 ∷ 116 ∷ 104 ∷ 111 ∷ 114 ∷ 105 ∷ 122 ∷ 97 ∷ 116 ∷ 105 ∷ 111 ∷ 110 ∷ 95 ∷ 100 ∷ 101
      ∷ 110 ∷ 105 ∷ 101 ∷ 100 ∷ [];
  text = m;
}

pub record KeyLabel : Type 0 where
  pub handle : Bytes
  pub purpose : Purpose

-- `str::strip_suffix`.
pub strip_suffix : Bytes → Bytes → Option Bytes
strip_suffix end label =
    if leb (length end) (length label) && bytes_eq (drop (length label - length end) label) end
    then some (take (length label - length end) label)
    else none

is_alnum : ℕ → Bool
is_alnum b = (leb 97 b && leb b 122) || (leb 48 b && leb b 57)

-- The byte at an index, which is in range where the code reads it.
alnum_at : Option ℕ → Bool
unfolding is_alnum
alnum_at none = false
alnum_at (some b) = is_alnum b

all_allowed : Bytes → Bool
unfolding is_alnum
all_allowed [] = true
all_allowed (b ∷ rest) = (is_alnum b || (b == 45)) && all_allowed rest

ends_with : Bytes → Bytes → Bool
ends_with end label =
    leb (length end) (length label) && bytes_eq (drop (length label - length end) label) end

abbrev minus_ai : Bytes
minus_ai = 45 ∷ 97 ∷ 105 ∷ []

pub validate_handle : Bytes → Result CliError (Unit {0})
unfolding alnum_at all_allowed ends_with
validate_handle handle =
    let n = length handle in
    refuse_if (not (leb 2 n && leb n 64)) (invalid_args (handle_length handle))
    >> (refuse_if (not (alnum_at (get_elem? handle 0)) || not (alnum_at (get_elem? handle (n - 1))))
          (invalid_args (handle_ends handle))
        >> (refuse_if (not (all_allowed handle)) (invalid_args (handle_characters handle))
            >> refuse_if (not (ends_with minus_ai handle)) (invalid_args (handle_suffix handle))))

-- The suffixes in the order in which they are tried.
parse_suffix : Bytes → Result CliError (Bytes × Purpose)
parse_suffix label = elim (strip_suffix (suffix signing_pq) label) [
  | some h ↦ ok (h, signing_pq)
  | none ↦ elim (strip_suffix (suffix kem_pq) label) [
    | some h ↦ ok (h, kem_pq)
    | none ↦ elim (strip_suffix (suffix signing) label) [
      | some h ↦ ok (h, signing)
      | none ↦ elim (strip_suffix (suffix kem) label) [
        | some h ↦ ok (h, kem)
        | none ↦ err (invalid_args (label_suffix label))
      ]
    ]
  ]
]

check_expected : Bytes → Option Purpose → Purpose → Result CliError (Unit {0})
check_expected label none purpose = ok tt
check_expected label (some exp) purpose =
    refuse_if (not (purpose_eq exp purpose))
      (invalid_args (label_purpose label (as_str purpose) (as_str exp)))

-- `KeyLabel::parse`.
pub parse : Bytes → Option Purpose → Result CliError KeyLabel
unfolding parse_suffix check_expected validate_handle
parse label expected = parse_suffix label >>= λ (handle, purpose).
    check_expected label expected purpose
    >> (validate_handle handle >> ok (record { handle = handle; purpose = purpose }))

-- `KeyLabel::from_handle`.
pub from_handle : Bytes → Purpose → Result CliError KeyLabel
unfolding validate_handle
from_handle handle purpose =
    validate_handle handle >> ok (record { handle = handle; purpose = purpose })

-- `KeyLabel::full`.
pub full : KeyLabel → Bytes
full l = l.handle ++ suffix l.purpose

pub record KeyMeta : Type 0 where
  pub label : Bytes
  pub kind : Bytes
  pub algorithm : Bytes
  pub storage : Bytes
  pub fingerprint : Bytes
  pub public_key : Bytes

-- The trait `Keystore` over a backend's state.
pub record Keystore (K : Type 0) : Type 0 where
  pub generate : K → KeyLabel → Bytes → K × Result CliError KeyMeta
  pub meta_of : K → KeyLabel → K × Result CliError KeyMeta
  pub sign_with : K → KeyLabel → Bytes → K × Result CliError Bytes
  pub ecdh_with : K → KeyLabel → Bytes → K × Result CliError Bytes
  pub decapsulate : K → KeyLabel → Bytes → K × Result CliError Bytes
  pub ml_dsa_sign_with : K → KeyLabel → Bytes → Bytes → K × Result CliError Bytes
  pub list_all : K → K × Result CliError (List KeyMeta)
  pub delete_key : K → KeyLabel → K × Result CliError (Unit {0})
  pub key_exists : K → KeyLabel → K × Result CliError Bool

pub validate_mldsa_ctx : Bytes → Result CliError (Unit {0})
validate_mldsa_ctx ctx =
    refuse_if (ltb 255 (length ctx)) (invalid_args (context_length (length ctx)))
