-- ===== src/Cli/Recipient/Binds.antt =====
-- How a receipt is bound to an account: by its id in epoch 1, by its VRF index in a later one.
use signet_drive.Base.{
  ℕ, ◌≡◌, refl, ap, arith, sym, ◌∙◌, Bytes, true, not, Option, none, some, length,
}
use Prim.Native.String.{String}
use signet_drive.Base.{false, ◌==◌, ◌⊎◌, inl, inr, bytes_eq→eq, ◌||◌}
use signet_drive.Base.Results.{ok, bind_ok, then_ok, ok_inj, some_inj, ok_or_ok, map_err_ok, ok_or}
use signet_drive.Cli.{and_then, str_at, u64_at, Reader}
use signet_drive.Cli.Anchors.{LogMode, legacy, v3}
use signet_drive.Cli.Anchors.Index.{account_index, index_under, alpha, vrf_verify, named_epoch}
use signet_drive.Cli.Anchors.Index.{check_epoch, Vrf, Ids}
use signet_drive.Cli.Anchors.Bound.{and_then-some}
use signet_drive.Cli.Recipient.{Host}
use signet_drive.Cli.Recipient.Receipt.{AccountBinding, attested, by_account_id, by_index}
use signet_drive.Cli.Recipient.Receipt.{eq_ignore_ascii_case, check_binding, check_receipt_index}
use signet_drive.Cli.Recipient.Receipt.{is_num, present}

-- An account's index under a VRF key: what a proof that verifies for the account yields.
pub record VrfIndex (vrf : Vrf) (ids : Ids) (vrf_public_key account_id : Bytes)
    (proof : Option Bytes) (index : Bytes) : Type 0 where
  pub account : Bytes
  pub text : Bytes
  pub bytes : Bytes
  pub key : Bytes
  pub pi : Bytes
  pub uuid : ids.uuid_parse_str account_id ≡ some account
  pub given : proof ≡ some text
  pub decoded : ids.hex_decode text ≡ some bytes
  pub sized : length bytes ≡ 80
  pub key_read : vrf.key_from_bytes vrf_public_key ≡ some key
  pub proof_read : vrf.proof_from_bytes bytes ≡ some pi
  pub yields : vrf.output key (alpha account) pi ≡ some index

-- The binding that a receipt is checked for in an anchored epoch; in epoch 1 it is `first`.
abbrev pub BindingIn :
    Vrf → Ids → LogMode → AccountBinding → Bytes → Option Bytes → AccountBinding → Type 0
BindingIn vrf ids legacy first account_id proof binding = binding ≡ first
BindingIn vrf ids (v3 e key genesis) first account_id proof binding =
    (index : Bytes) × (binding ≡ by_index e index) × VrfIndex vrf ids key account_id proof index

account_index-VrfIndex :
    (vrf : Vrf) (ids : Ids) (vrf_public_key account_id : Bytes) (proof : Option Bytes)
    {index : Bytes}
    → account_index vrf ids vrf_public_key account_id proof ≡ ok index
    → VrfIndex vrf ids vrf_public_key account_id proof index
unfolding account_index vrf_verify
account_index-VrfIndex vrf ids vrf_public_key account_id proof e =
    let (account, h₀, e₀) = bind_ok (ok_or (ids.uuid_parse_str account_id) _) _ e in
    let (text, h₁, e₁) = bind_ok (ok_or proof _) _ e₀ in
    let (bytes, h₂, e₂) = bind_ok (ok_or (ids.hex_decode text) _) _ e₁ in
    let (sized, e₃) = then_ok (not (length bytes == 80)) _ _ e₂ in
    let verified = map_err_ok _ (vrf_verify vrf vrf_public_key account bytes) e₃ in
    let (key, h₄, e₄) = bind_ok (ok_or (vrf.key_from_bytes vrf_public_key) _) _ verified in
    let (pi, h₅, e₅) = bind_ok (ok_or (vrf.proof_from_bytes bytes) _) _ e₄ in
    record {
      account = account;
      text = text;
      bytes = bytes;
      key = key;
      pi = pi;
      uuid = ok_or_ok _ _ h₀;
      given = ok_or_ok _ _ h₁;
      decoded = ok_or_ok _ _ h₂;
      sized = ground arith;
      key_read = ok_or_ok _ _ h₄;
      proof_read = ok_or_ok _ _ h₅;
      yields = ok_or_ok _ _ e₅;
    }

-- The binding that the code makes of an index.
abbrev pub chosen : AccountBinding → Option (ℕ × Bytes) → AccountBinding
chosen first none = first
chosen first (some (e, index)) = by_index e index

pub index_under-BindingIn :
    (vrf : Vrf) (ids : Ids) (mode : LogMode) (first : AccountBinding) (account_id : Bytes)
    (proof : Option Bytes) {index : Option (ℕ × Bytes)}
    → index_under vrf ids mode account_id proof ≡ ok index
    → BindingIn vrf ids mode first account_id proof (chosen first index)
unfolding index_under
index_under-BindingIn vrf ids legacy first account_id proof e = ap (chosen first) (sym (ok_inj e))
index_under-BindingIn vrf ids (v3 n key genesis) first account_id proof e =
    let (index, h₀, e₀) = bind_ok (account_index vrf ids key account_id proof) _ e in
    (
      index,
      ap (chosen first) (sym (ok_inj e₀)),
      account_index-VrfIndex vrf ids key account_id proof h₀,
    )

-- A response names an epoch, or names none, which is epoch 1.
abbrev pub NamesEpoch : {J : Type 0} → Reader J → J → ℕ → Type 0
NamesEpoch r obj epoch =
    ((r.get obj "epoch" ≡ none) × (epoch ≡ 1)) ⊎ (u64_at r obj "epoch" ≡ some epoch)

epoch_is :
    (n : Option ℕ) (epoch : ℕ) (what : String) {u : Unit {0}}
    → check_epoch n epoch what ≡ ok u
    → n ≡ some epoch
epoch_is none epoch what e = absurd (ground arith)
epoch_is (some n) epoch what e = ap some (ground arith)

epoch_of :
    {J : Type 0} (r : Reader J) (o : Option J) (epoch : ℕ) (what : String) {u : Unit {0}}
    → check_epoch (named_epoch r o) epoch what ≡ ok u
    → ((o ≡ none) × (epoch ≡ 1)) ⊎ (and_then o r.as_u64 ≡ some epoch)
epoch_of r none epoch what e = inl (refl, sym (some_inj (epoch_is (some 1) epoch what e)))
epoch_of r (some j) epoch what e = inr (epoch_is (r.as_u64 j) epoch what e)

pub check_epoch-NamesEpoch :
    {J : Type 0} (r : Reader J) (obj : J) (epoch : ℕ) (what : String) {u : Unit {0}}
    → check_epoch (named_epoch r (r.get obj "epoch")) epoch what ≡ ok u
    → NamesEpoch r obj epoch
check_epoch-NamesEpoch r obj epoch what e = epoch_of r (r.get obj "epoch") epoch what e

module _ {J : Type 0} (host : Host J) where
  -- A receipt in the shape of a later epoch, which names the epoch and the account's index.
  pub record IndexBound (receipt : J) (epoch : ℕ) (index : Bytes) : Type 0 where
    pub shape : u64_at host.reader receipt "v" ≡ some 2
    pub version : u64_at host.reader receipt "entry_version" ≡ some 3
    pub no_account : host.reader.get receipt "account_id" ≡ none
    pub epoch_named : u64_at host.reader receipt "epoch" ≡ some epoch
    pub text : Bytes
    pub index_named : str_at host.reader receipt "account_index" ≡ some text
    pub index_read : host.ids.hex_decode text ≡ some index

  -- What a receipt says of the account that it is checked for.
  abbrev pub BoundTo : J → AccountBinding → Type 0
  BoundTo receipt attested = Unit {0}
  BoundTo receipt (by_account_id account_id) =
      (named : Bytes) × (str_at host.reader receipt "account_id" ≡ some named)
      × (eq_ignore_ascii_case named account_id ≡ true)
  BoundTo receipt (by_index epoch index) = IndexBound receipt epoch index

  is_num-some : (o : Option ℕ) (n : ℕ) → is_num o n ≡ true → o ≡ some n
  is_num-some none n e = absurd (ground arith)
  is_num-some (some m) n e = ap some (ground arith)

  absent-none : {A : Type 0} (o : Option A) → present o ≡ false → o ≡ none
  absent-none none e = refl
  absent-none (some a) e = absurd (ground arith)

  pub check_binding-BoundTo :
      (receipt : J) (binding : AccountBinding) {u : Unit {0}}
      → check_binding host receipt binding ≡ ok u
      → BoundTo receipt binding
  unfolding check_receipt_index
  check_binding-BoundTo receipt attested e = tt
  check_binding-BoundTo receipt (by_account_id account_id) e =
      let (named, h₀, e₀) = bind_ok (ok_or (str_at host.reader receipt "account_id") _) _ e in
      (named, ok_or_ok _ _ h₀, ground arith)
  check_binding-BoundTo receipt (by_index epoch index) e =
      let v = u64_at host.reader receipt "v" in
      let version = u64_at host.reader receipt "entry_version" in
      let account = host.reader.get receipt "account_id" in
      let (shaped, e₀) =
        then_ok (not (is_num v 2) || (not (is_num version 3) || present account)) _ _ e in
      let (epochs, e₁) = then_ok (not (is_num (u64_at host.reader receipt "epoch") epoch)) _ _ e₀ in
      let (served, h₂, e₂) =
        bind_ok
          (ok_or (and_then (str_at host.reader receipt "account_index") host.ids.hex_decode) _) _
          e₁ in
      let (text, named, read) =
        and_then-some (str_at host.reader receipt "account_index") host.ids.hex_decode
          (ok_or_ok _ _ h₂) in
      let same : served ≡ index = bytes_eq→eq served index (ground arith) in
      record {
        shape = is_num-some v 2 (ground arith);
        version = is_num-some version 3 (ground arith);
        no_account = absent-none account (ground arith);
        epoch_named = is_num-some (u64_at host.reader receipt "epoch") epoch (ground arith);
        text = text;
        index_named = named;
        index_read = read ∙ ap some same;
      }
