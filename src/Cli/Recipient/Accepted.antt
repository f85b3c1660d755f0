-- ===== src/Cli/Recipient/Accepted.antt =====
-- What `verified_wrap_keys` of cli/src/recipient_verify.rs accepts.
use signet_drive.Base.{subst, ◌≡◌, ap, arith, sym, ◌∙◌, Bytes, true, false, Option, some}
use signet_drive.Base.{bytes_eq, bytes_eq→eq, refl, none, Bool, Bool-cases, ◌⊎◌, inl, inr}
use signet_drive.Cli.Recipient.Words.{word_prsn}
use signet_drive.Cli.Recipient.Resolve.{account_under, same_bool}
use signet_drive.Cli.Recipient.Binds.{NamesEpoch, check_epoch-NamesEpoch}
use signet_drive.Base.Results.{some_inj, Result, ok, bind_ok, ok_inj, ok_or_ok}
use signet_drive.Base.Results.{ok_or}
use signet_drive.Cli.{CliError, transparency_violation, str_at}
use signet_drive.Cli.Recipient.{Host, RecipientWrapKeys, verify_recipient_wrap_keys}
use signet_drive.Cli.Recipient.Bundle.{Named, verify_recipient_wrap_keys-Named}
use signet_drive.Cli.Recipient.Trust.{ServerTrust, Request}
use signet_drive.Cli.Recipient.Resolve.{HandleExpectation, user_named, check_named}
use signet_drive.Cli.Recipient.Resolve.{is_prsn_handle, check_claimed}
use signet_drive.Cli.Recipient.Resolve.{account_of, check_bundle_epoch}
use signet_drive.Cli.Recipient.Resolve.{verify_source, verified_wrap_keys}
use signet_drive.Cli.Recipient.Source.{Attested, attested}
use signet_drive.Cli.Recipient.Logged.{LoggedPair, logged_pair}

same_bool_lem : (a b : Bool) → same_bool a b ≡ true → a ≡ b
same_bool_lem true b e = sym e
same_bool_lem false b e = ground arith

named_same :
    (handle name : Bytes) {u : Unit {0}}
    → check_named (user_named name) handle ≡ ok u
    → bytes_eq handle name ≡ true
named_same handle name e = ground arith

module _ {J : Type 0} (host : Host J) (get_json : Request → Result CliError J)
    (trust : ServerTrust J) where
  -- What was checked of a bundle before its source was, and what its source was.
  pub record Accepted (bundle : J) (expectation : HandleExpectation) (keys : RecipientWrapKeys)
      : Type 0 where
    pub handle : Bytes
    pub names : str_at host.reader bundle "handle" ≡ some handle
    pub expected : check_named expectation handle ≡ ok tt
    pub shape : Named host bundle keys
    pub claimed :
        check_claimed (str_at host.reader bundle "account_type") (is_prsn_handle handle) ≡ ok tt
    pub account : Bytes × Option Bytes
    pub of_account : account_of host bundle ≡ some account
    pub of_epoch : check_bundle_epoch host bundle (trust.epoch) ≡ ok tt
    pub source :
        verify_source host get_json trust
          (is_prsn_handle handle)
          bundle
          keys
          (account.0)
          (account.1)
          handle
        ≡ ok tt

  pub accepted :
      (bundle : J) (expectation : HandleExpectation) {keys : RecipientWrapKeys}
      → verified_wrap_keys host get_json trust bundle expectation ≡ ok keys
      → Accepted bundle expectation keys
  unfolding verified_wrap_keys
  accepted bundle expectation {keys} e =
      let (handle, h₀, e₀) =
        bind_ok
          (ok_or (str_at host.reader bundle "handle")
            (transparency_violation "recipient bundle carries no handle"))
          _ e in
      let (u₁, h₁, e₁) = bind_ok (check_named expectation handle) _ e₀ in
      let (found, h₂, e₂) = bind_ok (verify_recipient_wrap_keys host bundle) _ e₁ in
      let (u₃, h₃, e₃) =
        bind_ok (check_claimed (str_at host.reader bundle "account_type") (is_prsn_handle handle)) _
          e₂ in
      let (account, h₄, e₄) =
        bind_ok
          (ok_or (account_of host bundle)
            (transparency_violation "recipient bundle carries no account id"))
          _ e₃ in
      let (u₅, h₅, e₅) = bind_ok (check_bundle_epoch host bundle (trust.epoch)) _ e₄ in
      let (u₆, h₆, e₆) =
        bind_ok
          (verify_source host get_json trust (is_prsn_handle handle) bundle found (account.0)
            (account.1) handle)
          _ e₅ in
      rw (← ok_inj e₆) (record {
        handle = handle;
        names = ok_or_ok _ _ h₀;
        expected = h₁;
        shape = verify_recipient_wrap_keys-Named host bundle h₂;
        claimed = h₃;
        account = account;
        of_account = ok_or_ok _ _ h₄;
        of_epoch = h₅;
        source = h₆;
      })

  -- The account that a bundle names, with the VRF proof beside it.
  abbrev pub AccountIn : J → Bytes → Option Bytes → Type 0
  AccountIn bundle account_id proof =
      ((str_at host.reader bundle "account_id" ≡ some account_id)
        × (str_at host.reader bundle "account_vrf_proof" ≡ proof))
      ⊎ ((str_at host.reader bundle "account_id" ≡ none)
          × (str_at host.reader bundle "recipient_account_id" ≡ some account_id)
          × (str_at host.reader bundle "recipient_account_vrf_proof" ≡ proof))

  account_under-AccountIn :
      (bundle : J) (id other : Option Bytes) {account : Bytes × Option Bytes}
      → str_at host.reader bundle "account_id" ≡ id
      → str_at host.reader bundle "recipient_account_id" ≡ other
      → account_under host bundle id other ≡ some account
      → AccountIn bundle (account.0) (account.1)
  account_under-AccountIn bundle (some id) other named beside e =
      let same = some_inj e in inl (named ∙ ap (λ a. some (a.0)) same, ap (λ a. a.1) same)
  account_under-AccountIn bundle none (some id) named beside e =
      let same = some_inj e in inr (named, beside ∙ ap (λ a. some (a.0)) same, ap (λ a. a.1) same)
  account_under-AccountIn bundle none none named beside e = absurd (ground arith)

  account_of-AccountIn :
      (bundle : J) {account : Bytes × Option Bytes}
      → account_of host bundle ≡ some account
      → AccountIn bundle (account.0) (account.1)
  account_of-AccountIn bundle e =
      account_under-AccountIn bundle (str_at host.reader bundle "account_id")
        (str_at host.reader bundle "recipient_account_id") refl refl e

  -- The source of the keys that are returned, for a handle that the bundle states.
  sourced :
      (bundle : J) (expectation : HandleExpectation) (handle : Bytes) (prsn : Bool)
      {keys : RecipientWrapKeys}
      → str_at host.reader bundle "handle" ≡ some handle
      → is_prsn_handle handle ≡ prsn
      → (a : Accepted bundle expectation keys)
      → verify_source host get_json trust prsn bundle keys (a.account.0) (a.account.1) handle
        ≡ ok tt
  sourced bundle expectation handle prsn {keys} names ends a =
      let same : a.handle ≡ handle = some_inj (sym (a.names) ∙ names) in
      ap (λ b. verify_source host get_json trust b bundle keys (a.account.0) (a.account.1) handle)
        (sym ends)
      ∙ ap
          (λ h.
            verify_source host get_json trust (is_prsn_handle h) bundle keys (a.account.0)
              (a.account.1) h)
          (sym same)
      ∙ a.source

  -- Keys that are returned for a handle that ends in -ai have the fingerprints that the bundle states,
  -- and are the keys of the attestation that the bundle names: active, for that handle and the bundle's
  -- account, and signed by the server under two keys that it publishes. Each receipt that comes with the
  -- attestation has both of the server's signatures where it names a second key, and is for the
  -- anchored epoch, the fingerprint that the attestation states and, from epoch 2 on, the account's
  -- index; there are four, or two where the attestation states no fingerprint of an ML-DSA signing key.
  pub verified_wrap_keys-prsn :
      (bundle : J) (expectation : HandleExpectation) (handle : Bytes) {keys : RecipientWrapKeys}
      → str_at host.reader bundle "handle" ≡ some handle
      → is_prsn_handle handle ≡ true
      → verified_wrap_keys host get_json trust bundle expectation ≡ ok keys
      → (account_id : Bytes) × (proof : Option Bytes) × AccountIn bundle account_id proof
        × Named host bundle keys
        × Attested host get_json trust bundle account_id handle keys
  verified_wrap_keys-prsn bundle expectation handle {keys} names prsn e =
      let a : Accepted bundle expectation keys = accepted bundle expectation e in
      (
        a.account.0,
        a.account.1,
        account_of-AccountIn bundle (a.of_account),
        a.shape,
        attested host get_json trust bundle keys (a.account.0) handle
            (sourced bundle expectation handle true names prsn a),
      )

  -- Keys that are returned for another handle have the fingerprints of two receipts that the log gives
  -- for the anchored epoch, of the two purposes. Each is signed under a key that the server publishes
  -- and the receipt names, and under the server's active ML-DSA-87 key where it names one; and each
  -- names the bundle's account, by its id in epoch 1 and by the index that its VRF proof yields later.
  pub verified_wrap_keys-human :
      (bundle : J) (expectation : HandleExpectation) (handle : Bytes) {keys : RecipientWrapKeys}
      → str_at host.reader bundle "handle" ≡ some handle
      → is_prsn_handle handle ≡ false
      → verified_wrap_keys host get_json trust bundle expectation ≡ ok keys
      → (account_id : Bytes) × (proof : Option Bytes) × AccountIn bundle account_id proof
        × Named host bundle keys
        × LoggedPair host get_json trust bundle account_id proof
  verified_wrap_keys-human bundle expectation handle {keys} names human e =
      let a : Accepted bundle expectation keys = accepted bundle expectation e in
      (
        a.account.0,
        a.account.1,
        account_of-AccountIn bundle (a.of_account),
        a.shape,
        logged_pair host get_json trust bundle (a.account.0) (a.account.1)
            (sourced bundle expectation handle false names human a),
      )

  -- The account type that the bundle claims, if it does, says "prsn" exactly if the handle ends in -ai.
  abbrev pub ClaimAgrees : Option Bytes → Bool → Type 0
  ClaimAgrees claimed prsn =
      (claimed ≡ none) ⊎ ((word : Bytes) × (claimed ≡ some word) × (bytes_eq word word_prsn ≡ prsn))

  check_claimed-ClaimAgrees :
      (claimed : Option Bytes) (prsn : Bool) {u : Unit {0}}
      → check_claimed claimed prsn ≡ ok u
      → ClaimAgrees claimed prsn
  check_claimed-ClaimAgrees none prsn e = inl refl
  check_claimed-ClaimAgrees (some claimed) prsn e =
      inr (claimed, refl, same_bool_lem (bytes_eq claimed word_prsn) prsn (ground arith))

  -- Keys that are returned for a name that the user typed have the fingerprints that the bundle states,
  -- the bundle answers for that name and in the anchored epoch, and an account type that it claims says
  -- "prsn" exactly if the name ends in -ai. The keys are those of the name's attestation then, and else
  -- keys that the log has receipts of for the account.
  pub verified_wrap_keys-user_named :
      (bundle : J) (name : Bytes) {keys : RecipientWrapKeys}
      → verified_wrap_keys host get_json trust bundle (user_named name) ≡ ok keys
      → (str_at host.reader bundle "handle" ≡ some name)
        × Named host bundle keys
        × NamesEpoch host.reader bundle (trust.epoch)
        × ClaimAgrees (str_at host.reader bundle "account_type") (is_prsn_handle name)
        × (account_id : Bytes) × (proof : Option Bytes) × AccountIn bundle account_id proof
        × (((is_prsn_handle name ≡ true) × Attested host get_json trust bundle account_id name keys)
            ⊎ ((is_prsn_handle name ≡ false)
                × LoggedPair host get_json trust bundle account_id proof))
  unfolding check_bundle_epoch
  verified_wrap_keys-user_named bundle name {keys} e =
      let a : Accepted bundle (user_named name) keys = accepted bundle (user_named name) e in
      let same : a.handle ≡ name =
        bytes_eq→eq (a.handle) name (named_same (a.handle) name (a.expected)) in
      let names : str_at host.reader bundle "handle" ≡ some name = a.names ∙ ap some same in
      (
        names,
        a.shape,
        check_epoch-NamesEpoch host.reader bundle (trust.epoch) _ (a.of_epoch),
        subst (λ h. ClaimAgrees (str_at host.reader bundle "account_type") (is_prsn_handle h)) same
            (check_claimed-ClaimAgrees (str_at host.reader bundle "account_type")
              (is_prsn_handle (a.handle)) (a.claimed)),
        a.account.0,
        a.account.1,
        account_of-AccountIn bundle (a.of_account),
        elim (Bool-cases (is_prsn_handle name)) [
          | inl prsn ↦ inl (
            prsn,
            attested host get_json trust bundle keys (a.account.0) name
                (sourced bundle (user_named name) name true names prsn a),
          )
          | inr human ↦ inr (
            human,
            logged_pair host get_json trust bundle (a.account.0) (a.account.1)
                (sourced bundle (user_named name) name false names human a),
          )
        ],
      )
