-- ===== src/Crypto/Jcs.antt =====
-- Canonical JSON: crypto/src/jcs.rs, over serde_json's values.
--
-- serde_jcs's `to_vec` is a parameter, and so are the numbers; SHA-256 is the parameter `sha256`.
pub mod Domain
mod Runs
use signet_drive.Base.{ℕ, Bool, true, not, ◌&&◌, ◌==◌, leb, Bytes, Option, [], ◌∷◌}
use signet_drive.Base.{if◌then◌else◌}
use signet_drive.Base.Results.{Result, ok, err, ◌>>=◌, ◌>>◌, refuse_if, ok_or}
use signet_drive.Crypto.{CryptoError, invalid_input}

-- serde_json's `Value`.
mutual
  pub data Value (N : Type 0) : Type 0 where
    null : Value N
    boolean : Bool → Value N
    number : N → Value N
    string : Bytes → Value N
    array : Items N → Value N
    object : Members N → Value N

  pub data Items (N : Type 0) : Type 0 where
    no_item : Items N
    item : Value N → Items N → Items N

  pub data Members (N : Type 0) : Type 0 where
    no_member : Members N
    member : Bytes → Value N → Members N → Members N

-- One byte of a key: plain ASCII, no control character, no quote or backslash.
abbrev pub byte_in_domain : ℕ → Bool
byte_in_domain b = (leb 0x20 b && leb b 0x7e) && (not (b == 34) && not (b == 92))

unfoldable pub key_in_domain : Bytes → Bool
key_in_domain [] = true
key_in_domain (b ∷ key) = byte_in_domain b && key_in_domain key

abbrev pub outside : CryptoError
outside =
    invalid_input
      "jcs: object key outside the enforced domain (plain ASCII, no control chars, no quote/backslash)"

unfoldable mutual
  pub check_keys : {N : Type 0} → Value N → Result CryptoError (Unit {0})
  check_keys null = ok tt
  check_keys (boolean b) = ok tt
  check_keys (number n) = ok tt
  check_keys (string text) = ok tt
  check_keys (array items) = check_items items
  check_keys (object map) = check_members map

  -- `try_for_each(check_keys)`.
  pub check_items : {N : Type 0} → Items N → Result CryptoError (Unit {0})
  check_items no_item = ok tt
  check_items (item v items) = check_keys v >> check_items items

  -- The loop over an object's entries.
  pub check_members : {N : Type 0} → Members N → Result CryptoError (Unit {0})
  check_members no_member = ok tt
  check_members (member key v map) =
      refuse_if (not (key_in_domain key)) outside >> (check_keys v >> check_members map)

module _ {N : Type 0} (to_vec : Value N → Option Bytes) where
  unfoldable pub to_canonical_bytes : Value N → Result CryptoError Bytes
  to_canonical_bytes value =
      check_keys value >> ok_or (to_vec value) (invalid_input "jcs canonicalization")

  unfoldable pub digest : (Bytes → Bytes) → Value N → Result CryptoError Bytes
  unfolding to_canonical_bytes
  digest sha256 value = to_canonical_bytes value >>= λ bytes. ok (sha256 bytes)
