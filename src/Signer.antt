-- ===== src/Signer.antt =====
-- The host signer, which does the key operations of a channel: cli/src/host_signer.rs.
--
-- `ks` is the keystore's backend with state `K`, and `render` the text of a message. The pin file of a
-- channel is its contents; whether a write of it succeeds is an argument. Reading the configuration
-- and the loop over the channels are not modelled.
pub mod Scope
pub mod Pin
pub mod Replies
mod Runs
use signet_drive.Base.{
  ℕ, Bool, true, false, not, Bytes, Option, none, some, List, [], ◌∷◌, length, ◌==◌,
}
use signet_drive.Base.{bytes_eq, if◌then◌else◌}
use signet_drive.Base.Results.{Result, ok, err, ◌>>=◌, ◌>>◌, refuse_if}
use signet_drive.Channel.Wire.{Op, OpOk, OpErr, KeyEntry, Response, success, failure}
use signet_drive.Keystore.{
  CliError, Message, KeyLabel, KeyMeta, Keystore, parse, authorization_denied,
}
use signet_drive.Keystore.{invalid_args, label_of_other, ciphertext_length, not_enrolled}
use signet_drive.Keystore.{validate_mldsa_ctx}

abbrev pub mlkem1024_ct_len : ℕ
mlkem1024_ct_len = 1568

pub scoped_label : Bytes → Bytes → Result CliError KeyLabel
scoped_label label prsn_handle = parse label none >>= λ parsed.
    refuse_if (not (bytes_eq parsed.handle prsn_handle))
      (authorization_denied (label_of_other label prsn_handle))
    >> ok parsed

-- A key is the channel's when its label parses to the channel's handle.
is_own : Bytes → Result CliError KeyLabel → Bool
is_own prsn_handle (ok l) = bytes_eq l.handle prsn_handle
is_own prsn_handle (err e) = false

to_entry : KeyMeta → KeyEntry
to_entry m = record {
  label = m.label;
  purpose = m.kind;
  algorithm = m.algorithm;
  fingerprint = m.fingerprint;
  public_key = m.public_key;
}

own_entries : Bytes → List KeyMeta → List KeyEntry
unfolding is_own to_entry
own_entries prsn_handle [] = []
own_entries prsn_handle (m ∷ metas) =
    let rest = own_entries prsn_handle metas in
    if is_own prsn_handle (parse m.label none) then to_entry m ∷ rest else rest

pub record ChannelState : Type 0 where
  pub pinned_handle : Option Bytes
  pub pin_file : Option Bytes

is_identity : Op → Bool
is_identity Op.identity = true
is_identity op = false

pub keygen_label : Op → Option Bytes
keygen_label (Op.keygen label algorithm) = some label
keygen_label op = none

keygen_answer : KeyMeta → OpOk
keygen_answer m = OpOk.keygen m.public_key m.fingerprint m.algorithm

meta_answer : KeyMeta → OpOk
meta_answer m = OpOk.meta m.public_key m.fingerprint m.algorithm m.kind

module _ {K : Type 0} (ks : Keystore K) (render : Message → Bytes) where
  abbrev Done : Type 0
  Done = K × Result CliError OpOk

  -- `?` on a backend's result, and the answer.
  abbrev answered : {A : Type 0} → K × Result CliError A → (A → OpOk) → Done
  answered (k, ok a) f = (k, ok (f a))
  answered (k, err e) f = (k, err e)

  -- An operation on a label, which has to be the channel's.
  on_label : K → Result CliError KeyLabel → (KeyLabel → Done) → Done
  on_label k (ok l) f = f l
  on_label k (err e) f = (k, err e)

  -- A check before the backend is called.
  after_check : K → Result CliError (Unit {0}) → Done → Done
  after_check k (ok u) done = done
  after_check k (err e) done = (k, err e)

  pub dispatch : K → Bytes → Op → Done
  unfolding on_label after_check keygen_answer meta_answer scoped_label own_entries
  dispatch k prsn_handle (Op.keygen label algorithm) =
      on_label k (scoped_label label prsn_handle)
        (λ l. answered (ks.generate k l algorithm) keygen_answer)
  dispatch k prsn_handle (Op.sign label msg) =
      on_label k (scoped_label label prsn_handle) (λ l. answered (ks.sign_with k l msg) OpOk.sign)
  dispatch k prsn_handle (Op.ecdh label peer) =
      on_label k (scoped_label label prsn_handle) (λ l. answered (ks.ecdh_with k l peer) OpOk.ecdh)
  dispatch k prsn_handle (Op.ml_kem_decapsulate label ek) =
      on_label k (scoped_label label prsn_handle) (λ l.
        after_check k
          (refuse_if (not (length ek == mlkem1024_ct_len))
            (invalid_args (ciphertext_length (length ek))))
          (answered (ks.decapsulate k l ek) OpOk.ml_kem_decapsulate))
  dispatch k prsn_handle (Op.ml_dsa_sign label msg ctx) =
      on_label k (scoped_label label prsn_handle) (λ l.
        after_check k (validate_mldsa_ctx ctx)
          (answered (ks.ml_dsa_sign_with k l msg ctx) OpOk.ml_dsa_sign))
  dispatch k prsn_handle (Op.meta label) =
      on_label k (scoped_label label prsn_handle) (λ l. answered (ks.meta_of k l) meta_answer)
  dispatch k prsn_handle (Op.exists label) =
      on_label k (scoped_label label prsn_handle) (λ l. answered (ks.key_exists k l) OpOk.exists)
  dispatch k prsn_handle Op.list =
      answered (ks.list_all k) (λ metas. OpOk.list (own_entries prsn_handle metas))
  dispatch k prsn_handle Op.identity = (k, ok (OpOk.identity (some prsn_handle)))
  dispatch k prsn_handle (Op.delete label) =
      on_label k (scoped_label label prsn_handle)
        (λ l. answered (ks.delete_key k l) (λ u. OpOk.delete))

  -- The error as the wire carries it.
  to_wire : CliError → Response
  to_wire e = failure (record { code = e.code; message = render e.text })

  to_response : Done → K × Response
  unfolding to_wire
  to_response (k, ok r) = (k, success r)
  to_response (k, err e) = (k, to_wire e)

  pub handle_op : K → Bytes → Op → K × Response
  unfolding dispatch to_response
  handle_op k prsn_handle op = to_response (dispatch k prsn_handle op)

  -- The pin of the first key that was created, and its file.
  pin : Bool → ChannelState → Bytes → K × Response → ChannelState × K × Response
  pin persists st handle (k, success r) = (
    record {
      pinned_handle = some handle;
      pin_file = if persists then some handle else st.pin_file;
    },
    k,
    success r,
  )
  pin persists st handle (k, failure e) = (st, k, failure e)

  enroll : Bool → K → ChannelState → Op → Result CliError KeyLabel → ChannelState × K × Response
  unfolding handle_op pin
  enroll persists k st op (ok l) = pin persists st l.handle (handle_op k l.handle op)
  enroll persists k st op (err e) = (st, k, to_wire e)

  before_pin : Bool → K → ChannelState → Op → Option Bytes → ChannelState × K × Response
  unfolding enroll
  before_pin persists k st op none = (st, k, to_wire (authorization_denied not_enrolled))
  before_pin persists k st op (some label) = enroll persists k st op (parse label none)

  by_pin : Bool → K → ChannelState → Op → Option Bytes → ChannelState × K × Response
  unfolding before_pin keygen_label
  by_pin persists k st op (some handle) = let (k', r) = handle_op k handle op in (st, k', r)
  by_pin persists k st op none = before_pin persists k st op (keygen_label op)

  -- `ChannelState::handle`.
  pub channel_handle : Bool → K → ChannelState → Op → ChannelState × K × Response
  unfolding is_identity by_pin
  channel_handle persists k st op =
      let served = by_pin persists k st op st.pinned_handle in
      if is_identity op then (st, k, success (OpOk.identity st.pinned_handle)) else served
