-- ===== src/Cli.antt =====
-- The errors of the command-line client, cli/src/error.rs, and the JSON values that its commands
-- read.
--
-- An error's message is the fixed text of its format string, without the values put into it. JSON is
-- serde_json's: a parameter `Reader` on the type of values, with the accessors that the code calls.
pub mod Anchors
pub mod Recipient
use Prim.Native.String.{String}
use signet_drive.Base.{ℕ, Bool, true, false, Bytes, Option, none, some, List}
use signet_drive.Base.Results.{Result, ok, err}
use signet_drive.Base.Ints.{ℤ}

pub record CliError : Type 0 where
  pub exit_code : ℕ
  pub code : String
  pub message : String
  pub epoch_moved : Bool

-- `CliError::new`.
abbrev pub new_error : ℕ → String → String → CliError
new_error exit_code code message = record {
  exit_code = exit_code;
  code = code;
  message = message;
  epoch_moved = false;
}

abbrev pub invalid_data : String → CliError
invalid_data message = new_error 24 "invalid_data" message

abbrev pub signature_refused : String → CliError
signature_refused message = new_error 13 "signature_invalid" message

abbrev pub attestation_expired : String → CliError
attestation_expired message = new_error 14 "attestation_expired" message

abbrev pub attestation_revoked : String → CliError
attestation_revoked message = new_error 15 "attestation_revoked" message

abbrev pub transparency_violation : String → CliError
transparency_violation message = new_error 60 "transparency_violation" message

abbrev pub unanchored : String → CliError
unanchored message = new_error 62 "unanchored" message

abbrev pub epoch_changed : String → CliError
epoch_changed message = record {
  exit_code = 62;
  code = "epoch_changed";
  message = message;
  epoch_moved = true;
}

abbrev pub as_epoch_move : CliError → CliError
as_epoch_move e = record {
  exit_code = e.exit_code;
  code = e.code;
  message = e.message;
  epoch_moved = true;
}

-- Field names are their text, strings that are read are their UTF-8 bytes. `Value::get`, `as_str`, `as_u64`, `as_i64`, `as_bool`, `as_array` and `is_null`.
pub record Reader (J : Type 0) : Type 0 where
  pub get : J → String → Option J
  pub as_str : J → Option Bytes
  pub as_u64 : J → Option ℕ
  pub as_i64 : J → Option ℤ
  pub as_bool : J → Option Bool
  pub as_array : J → Option (List J)
  pub is_null : J → Bool

-- `Option::and_then`.
abbrev pub and_then : {A B : Type 0} → Option A → (A → Option B) → Option B
and_then none f = none
and_then (some a) f = f a

-- `obj.get(field).and_then(Value::as_str)`, and the same for numbers.
abbrev pub str_at : {J : Type 0} → Reader J → J → String → Option Bytes
str_at r obj field = and_then (r.get obj field) r.as_str

abbrev pub u64_at : {J : Type 0} → Reader J → J → String → Option ℕ
u64_at r obj field = and_then (r.get obj field) r.as_u64
