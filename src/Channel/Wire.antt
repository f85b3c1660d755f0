-- ===== src/Channel/Wire.antt =====
-- The channel's messages: channel/src/wire.rs. Strings are their UTF-8 bytes.
--
-- serde_json is a parameter: `Json` holds its two directions for requests and responses, and
-- `JsonLaws` says that what it wrote it reads back, which is what `to_bytes` and `from_bytes` of the
-- source rely on.
use Prim.Native.String.{String}
use signet_drive.Base.{ℕ, Bool, Option, List, Bytes, ◌≡◌}
use signet_drive.Base.Results.{Result, ok, map_err}
use signet_drive.Channel.{ChannelError, serialization}

abbrev pub protocol_version : ℕ
protocol_version = 1

pub data Op : Type 0 where
  -- label, algorithm
  keygen : Bytes → Bytes → Op
  -- label, message
  sign : Bytes → Bytes → Op
  -- label, the peer's public key
  ecdh : Bytes → Bytes → Op
  -- label, ciphertext
  ml_kem_decapsulate : Bytes → Bytes → Op
  -- label, message, context
  ml_dsa_sign : Bytes → Bytes → Bytes → Op
  meta : Bytes → Op
  exists : Bytes → Op
  list : Op
  identity : Op
  delete : Bytes → Op

pub record KeyEntry : Type 0 where
  pub label : Bytes
  pub purpose : Bytes
  pub algorithm : Bytes
  pub fingerprint : Bytes
  pub public_key : Bytes

pub data OpOk : Type 0 where
  -- public key, fingerprint, algorithm
  keygen : Bytes → Bytes → Bytes → OpOk
  sign : Bytes → OpOk
  ecdh : Bytes → OpOk
  ml_kem_decapsulate : Bytes → OpOk
  ml_dsa_sign : Bytes → OpOk
  -- public key, fingerprint, algorithm, purpose
  meta : Bytes → Bytes → Bytes → Bytes → OpOk
  exists : Bool → OpOk
  list : List KeyEntry → OpOk
  identity : Option Bytes → OpOk
  delete : OpOk

pub record OpErr : Type 0 where
  pub code : Bytes
  pub message : Bytes

pub data Response : Type 0 where
  success : OpOk → Response
  failure : OpErr → Response

pub record Json : Type 0 where
  pub op_to_vec : Op → Result String Bytes
  pub op_from_slice : Bytes → Result String Op
  pub response_to_vec : Response → Result String Bytes
  pub response_from_slice : Bytes → Result String Response

pub record JsonLaws (json : Json) : Type 0 where
  pub op_read_back :
      (op : Op) {bytes : Bytes} → json.op_to_vec op ≡ ok bytes → json.op_from_slice bytes ≡ ok op
  pub response_read_back :
      (r : Response) {bytes : Bytes}
      → json.response_to_vec r ≡ ok bytes
      → json.response_from_slice bytes ≡ ok r

module _ (json : Json) where
  unfoldable pub op_to_bytes : Op → Result ChannelError Bytes
  op_to_bytes op = map_err serialization (json.op_to_vec op)

  unfoldable pub op_from_bytes : Bytes → Result ChannelError Op
  op_from_bytes bytes = map_err serialization (json.op_from_slice bytes)

  unfoldable pub response_to_bytes : Response → Result ChannelError Bytes
  response_to_bytes r = map_err serialization (json.response_to_vec r)

  unfoldable pub response_from_bytes : Bytes → Result ChannelError Response
  response_from_bytes bytes = map_err serialization (json.response_from_slice bytes)
