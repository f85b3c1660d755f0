-- ===== src/Broker/Gate.antt =====
-- The broker's core for one request: cli/src/broker.rs, `handle_request`.
--
-- The state is the map of leases and the backend of the keystore. One request is one step: the locks,
-- which serialize the lease of a grant and the backend, the TLS listener and the worker pool are not
-- modelled. The two readings of the clock are arguments, and so is the query to the server, as a
-- function of the grant, the handle and the certificate. The text of a message is the one `render`
-- gives.
pub mod Guard
mod Runs
use signet_drive.Base.{ℕ, Bytes, Option, none, some, List, [], ◌∷◌, bytes_eq, if◌then◌else◌}
use signet_drive.Base.Results.{Result, ok, err}
use signet_drive.Base.Ints.{ℤ}
use signet_drive.Channel.Wire.{Op, OpErr, Response, failure}
use signet_drive.Crypto.Token.{
  Formats, P256, VerifiedToken, TokenError, verify_skipping_time, broker,
}
use signet_drive.Keystore.{Keystore, Message}
use signet_drive.Signer.{handle_op}
use signet_drive.Broker.Lease.{LeaseConfig, GrantStatusOutcome, Decision, serve, reconfirm_required}
use signet_drive.Broker.Lease.{
  fail_closed, token_expired, FailReason, GrantLease, new_lease, decide,
}
use signet_drive.Broker.Lease.{on_grant_status}

-- The texts of the broker's refusals.
pub data Refusal : Type 0 where
  verification_failed : Refusal
  token_past : Refusal
  grant_not_live : FailReason → Refusal
  did_not_resolve : Refusal

abbrev pub unauthorized : Bytes
unauthorized = 117 ∷ 110 ∷ 97 ∷ 117 ∷ 116 ∷ 104 ∷ 111 ∷ 114 ∷ 105 ∷ 122 ∷ 101 ∷ 100 ∷ []

abbrev pub access_paused : Bytes
access_paused = 97 ∷ 99 ∷ 99 ∷ 101 ∷ 115 ∷ 115 ∷ 95 ∷ 112 ∷ 97 ∷ 117 ∷ 115 ∷ 101 ∷ 100 ∷ []

abbrev pub token_expired_code : Bytes
token_expired_code = 116 ∷ 111 ∷ 107 ∷ 101 ∷ 110 ∷ 95 ∷ 101 ∷ 120 ∷ 112 ∷ 105 ∷ 114 ∷ 101 ∷ 100 ∷ []

abbrev pub internal : Bytes
internal = 105 ∷ 110 ∷ 116 ∷ 101 ∷ 114 ∷ 110 ∷ 97 ∷ 108 ∷ []

abbrev pub Leases : Type 0
Leases = List (Bytes × GrantLease)

-- `map.entry(grant_id).or_default()`, and the map once the lease has been written.
pub lease_of : Bytes → Leases → GrantLease
lease_of grant [] = new_lease
lease_of grant ((g, l) ∷ leases) = if bytes_eq g grant then l else lease_of grant leases

put_lease : Bytes → GrantLease → Leases → Leases
put_lease grant l [] = (grant, l) ∷ []
put_lease grant l ((g, held) ∷ leases) =
    let rest = put_lease grant l leases in
    if bytes_eq g grant then (g, l) ∷ leases else (g, held) ∷ rest

module _ {K : Type 0} (f : Formats) (p : P256) (k1_verify_key : Bytes) (cfg : LeaseConfig)
    (ks : Keystore K) (render : Message → Bytes) (say : Refusal → Bytes)
    (query : Bytes → Bytes → Bytes → GrantStatusOutcome) where
  -- `decide`, and the confirm when it asks for one.
  confirm : GrantLease → ℕ → ℤ → GrantStatusOutcome → Decision → GrantLease × Decision
  confirm l now token_exp outcome reconfirm_required = on_grant_status l outcome now token_exp cfg
  confirm l now token_exp outcome serve = (l, serve)
  confirm l now token_exp outcome (fail_closed reason) = (l, fail_closed reason)

  pub lease_decision : GrantLease → ℕ → ℕ → Bytes → Bytes → VerifiedToken → GrantLease × Decision
  unfolding confirm
  lease_decision l now later handle cnf v =
      confirm l later v.expires (query v.grant handle cnf) (decide l now v.expires cfg)

  op_err : Bytes → Refusal → Response
  op_err code r = failure (record { code = code; message = say r })

  -- Step 3: the operation under the authenticated handle, or the refusal.
  serve_decision : K → Bytes → Op → Decision → K × Response
  unfolding op_err
  serve_decision k handle op serve = handle_op ks render k handle op
  serve_decision k handle op (fail_closed token_expired) = (k, op_err token_expired_code token_past)
  serve_decision k handle op (fail_closed reason) =
      (k, op_err access_paused (grant_not_live reason))
  serve_decision k handle op reconfirm_required = (k, op_err internal did_not_resolve)

  with_token :
      ℕ
      → ℕ
      → Bytes
      → Bytes
      → Op
      → Leases
      → K
      → Result TokenError VerifiedToken
      → Leases × K × Response
  unfolding lease_of put_lease lease_decision serve_decision
  with_token now later handle cnf op leases k (err e) =
      (leases, k, op_err unauthorized verification_failed)
  with_token now later handle cnf op leases k (ok v) =
      let (l, decision) = lease_decision (lease_of v.grant leases) now later handle cnf v in
      let (k', response) = serve_decision k handle op decision in
      (put_lease v.grant l leases, k', response)

  pub handle_request : ℕ → ℕ → Bytes → Bytes → Bytes → Op → Leases → K → Leases × K × Response
  unfolding with_token
  handle_request now later handle cnf token op leases k =
      with_token now later handle cnf op leases k
        (verify_skipping_time f p token k1_verify_key broker handle cnf)
