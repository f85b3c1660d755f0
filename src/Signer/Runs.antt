-- ===== src/Signer/Runs.antt =====
-- The host signer over a stand-in backend, and its theorems there.
use signet_drive.Base.{◌≡◌, refl, arith, Bytes, none, some, List, [], ◌∷◌, true, Bool, bytes_eq}
use signet_drive.Channel.Wire.{Op, OpOk, KeyEntry, success}
use signet_drive.Keystore.{KeyLabel}
use signet_drive.Keystore.Toy.{
  toy_keystore, toy_render, hlin_kem_parses, bob_kem_parses, hlin_signing_parses,
}
use signet_drive.Signer.{handle_op, dispatch, on_label, scoped_label, to_response, own_entries}
use signet_drive.Signer.{
  is_own, to_entry, ChannelState, channel_handle, is_identity, by_pin, before_pin,
}
use signet_drive.Signer.{enroll, pin, keygen_label}
use signet_drive.Signer.Scope.{Keeps, handle_op_scoped}
use signet_drive.Signer.Pin.{channel_run, pinned_stays}

abbrev hlin : Bytes
hlin = 104 ∷ 108 ∷ 105 ∷ 110 ∷ 45 ∷ 97 ∷ 105 ∷ []

-- Every key that was created is of the handle.
abbrev AllHlin : List KeyLabel → Type 0
AllHlin [] = Unit
AllHlin (l ∷ ls) = (l.handle ≡ hlin) × AllHlin ls

toy-Keeps : Keeps toy_keystore hlin AllHlin
toy-Keeps = record {
  by_generate = λ k l a own p. (own, p);
  by_meta = λ k l own p. p;
  by_sign = λ k l m own p. p;
  by_ecdh = λ k l q own p. p;
  by_decapsulate = λ k l c own p. p;
  by_ml_dsa_sign = λ k l m c own p. p;
  by_list = λ k p. p;
  by_delete = λ k l own p. p;
  by_exists = λ k l own p. p;
}

abbrev hlin_label : Bytes
hlin_label =
    104 ∷ 108 ∷ 105 ∷ 110 ∷ 45 ∷ 97 ∷ 105 ∷ 45 ∷ 115 ∷ 105 ∷ 103 ∷ 110 ∷ 105 ∷ 110 ∷ 103 ∷ []

abbrev bob_label : Bytes
bob_label = 98 ∷ 111 ∷ 98 ∷ 45 ∷ 97 ∷ 105 ∷ 45 ∷ 107 ∷ 101 ∷ 109 ∷ []

handle_op_scoped_example :
    AllHlin (handle_op toy_keystore toy_render [] hlin (Op.keygen hlin_label [])).0
handle_op_scoped_example =
    handle_op_scoped toy_keystore toy_render hlin AllHlin [] (Op.keygen hlin_label []) toy-Keeps tt

abbrev listed : KeyEntry
listed = record {
  label = 104 ∷ 108 ∷ 105 ∷ 110 ∷ 45 ∷ 97 ∷ 105 ∷ 45 ∷ 107 ∷ 101 ∷ 109 ∷ [];
  purpose = [];
  algorithm = [];
  fingerprint = [];
  public_key = [];
}

list_run :
    handle_op toy_keystore toy_render [] hlin Op.list ≡ ([], success (OpOk.list (listed ∷ [])))
unfolding handle_op dispatch to_response own_entries is_own to_entry bytes_eq
list_run = rw (hlin_kem_parses, bob_kem_parses) refl

abbrev pinned : ChannelState
pinned = record { pinned_handle = some hlin; pin_file = none }

abbrev ops : List (Bool × Op)
ops = (true, Op.keygen hlin_label []) ∷ (true, Op.keygen bob_label []) ∷ []

pinned_stays_example :
    ((channel_run toy_keystore toy_render [] pinned ops).0 ≡ pinned)
    × AllHlin (channel_run toy_keystore toy_render [] pinned ops).1
pinned_stays_example =
    pinned_stays toy_keystore toy_render [] pinned ops hlin AllHlin refl toy-Keeps tt

abbrev unpinned : ChannelState
unpinned = record { pinned_handle = none; pin_file = none }

pins :
    (channel_handle toy_keystore toy_render true [] unpinned
      (Op.keygen hlin_label [])).0.pinned_handle
    ≡ some hlin
unfolding channel_handle is_identity by_pin before_pin keygen_label enroll pin handle_op dispatch
    on_label scoped_label to_response bytes_eq
pins = ground (arith, hlin_signing_parses)
