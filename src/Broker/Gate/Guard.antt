-- ===== src/Broker/Gate/Guard.antt =====
-- What the broker serves: cli/src/broker.rs, `handle_request`.
use signet_drive.Base.{ℕ, ◌≡◌, ◌≢◌, ◌⊎◌, inl, inr, refl, ap, arith, sym, Bytes}
use signet_drive.Base.Results.{Result-cases}
use signet_drive.Base.Ints.{ℤ}
use signet_drive.Channel.Wire.{Op, OpErr, Response, failure}
use signet_drive.Crypto.Token.{Formats, P256, VerifiedToken, Claims, verify_skipping_time, broker}
use signet_drive.Crypto.Token.Checks.{IsBound}
use signet_drive.Crypto.Token.Verify.{Yields, verify_skipping_time_sound}
use signet_drive.Keystore.{Keystore, Message}
use signet_drive.Signer.{handle_op}
use signet_drive.Signer.Scope.{Keeps, handle_op_scoped}
use signet_drive.Broker.Lease.{LeaseConfig, GrantStatusOutcome, Decision, serve, reconfirm_required}
use signet_drive.Broker.Lease.{fail_closed, token_expired, GrantLease, revoked, unreachable}
use signet_drive.Broker.Lease.{decide}
use signet_drive.Broker.Lease.Window.{on_grant_status_final}
use signet_drive.Broker.Gate.{Refusal, Leases, lease_of, confirm, lease_decision, op_err}
use signet_drive.Broker.Gate.{
  serve_decision, with_token, handle_request, unauthorized, access_paused,
}
use signet_drive.Broker.Gate.{token_expired_code}

module _ {K : Type 0} (f : Formats) (p : P256) (k1_verify_key : Bytes) (cfg : LeaseConfig)
    (ks : Keystore K) (render : Message → Bytes) (say : Refusal → Bytes)
    (query : Bytes → Bytes → Bytes → GrantStatusOutcome) where
  -- A refusal, which leaves the backend as it was.
  pub record IsRefused (k k' : K) (response : Response) : Type 0 where
    pub refusal : OpErr
    pub response_is : response ≡ failure refusal
    pub untouched : k' ≡ k
    pub code_is :
        (refusal.code ≡ unauthorized)
        ⊎ ((refusal.code ≡ token_expired_code) ⊎ (refusal.code ≡ access_paused))

  -- An operation that was let through: the token holds for this connection's certificate and handle,
  -- and the lease of the token's grant decided to serve.
  pub record IsServed (now later : ℕ) (handle cnf token : Bytes) (op : Op) (leases : Leases)
      (k k' : K) (response : Response) : Type 0 where
    pub claims : Claims
    pub verified : VerifiedToken
    pub bound : IsBound f p token k1_verify_key broker handle cnf claims
    pub yields : Yields f claims verified
    pub decided :
        (lease_decision f p k1_verify_key cfg ks render say query
          (lease_of verified.grant leases)
          now
          later
          handle
          cnf
          verified).1
        ≡ serve
    pub done : (k', response) ≡ handle_op ks render k handle op

  confirm-final :
      (l : GrantLease) (now : ℕ) (exp : ℤ) (outcome : GrantStatusOutcome) (d : Decision)
      → (confirm f p k1_verify_key cfg ks render say query l now exp outcome d).1
        ≢ reconfirm_required
  unfolding confirm
  confirm-final l now exp outcome reconfirm_required e =
      on_grant_status_final l outcome now exp cfg e
  confirm-final l now exp outcome serve e = ground arith
  confirm-final l now exp outcome (fail_closed reason) e = ground arith

  serve_decision-cases :
      (k : K) (handle : Bytes) (op : Op) (d : Decision) {k' : K} {response : Response}
      → d ≢ reconfirm_required
      → serve_decision f p k1_verify_key cfg ks render say query k handle op d ≡ (k', response)
      → IsRefused k k' response ⊎ ((d ≡ serve) × ((k', response) ≡ handle_op ks render k handle op))
  unfolding serve_decision op_err
  serve_decision-cases k handle op serve final e = inr (refl, sym e)
  serve_decision-cases k handle op reconfirm_required final e = absurd (final refl)
  serve_decision-cases k handle op (fail_closed token_expired) final e = inl (record {
    refusal = _;
    response_is = sym (ap (λ x. x.1) e);
    untouched = sym (ap (λ x. x.0) e);
    code_is = inr (inl refl);
  })
  serve_decision-cases k handle op (fail_closed revoked) final e = inl (record {
    refusal = _;
    response_is = sym (ap (λ x. x.1) e);
    untouched = sym (ap (λ x. x.0) e);
    code_is = inr (inr refl);
  })
  serve_decision-cases k handle op (fail_closed unreachable) final e = inl (record {
    refusal = _;
    response_is = sym (ap (λ x. x.1) e);
    untouched = sym (ap (λ x. x.0) e);
    code_is = inr (inr refl);
  })

  -- A request is refused, with the backend untouched and one of the codes unauthorized, token_expired
  -- and access_paused; or its token is bound to the handle and the certificate of the connection, the
  -- lease of the token's grant decided to serve, and the operation was done under that handle.
  pub handle_request_guarded :
      (now later : ℕ) (handle cnf token : Bytes) (op : Op) (leases : Leases) (k : K)
      {leases' : Leases} {k' : K} {response : Response}
      → handle_request f p k1_verify_key cfg ks render say query now later handle cnf token op
          leases k
        ≡ (leases', k', response)
      → IsRefused k k' response ⊎ IsServed now later handle cnf token op leases k k' response
  unfolding handle_request with_token op_err lease_decision
  handle_request_guarded now later handle cnf token op leases k {leases'} {k'} {response} e =
      elim (Result-cases (verify_skipping_time f p token k1_verify_key broker handle cnf)) [
        | inr (x, bad) ↦
            let here = sym (rw bad at e) in
            inl (record {
              refusal = _;
              response_is = ap (λ r. r.2) here;
              untouched = ap (λ r. r.1) here;
              code_is = inl refl;
            })
        | inl (v, good) ↦
            let here = rw good at e in
            let (claims, bound, yields) =
              verify_skipping_time_sound f p token k1_verify_key broker handle cnf good in
            let l = lease_of v.grant leases in
            let served : serve_decision f p k1_verify_key cfg ks render say query k handle op
                  (lease_decision f p k1_verify_key cfg ks render say query l now later handle cnf
                    v).1
                ≡ (k', response) =
              ap (λ r. (r.1, r.2)) here in
            elim (serve_decision-cases k handle op _
              (confirm-final l later v.expires (query v.grant handle cnf)
                (decide l now v.expires cfg))
              served) [
                | inl no_op ↦ inl no_op
                | inr (decided, done) ↦ inr (record {
                  claims = claims;
                  verified = v;
                  bound = bound;
                  yields = yields;
                  decided = decided;
                  done = done;
                })
              ]
      ]

  -- A request changes the backend only through labels of the handle that the connection authenticated.
  pub handle_request_scoped :
      (now later : ℕ) (handle cnf token : Bytes) (op : Op) (leases : Leases) (k : K)
      (P : K → Type 0)
      → Keeps ks handle P
      → P k
      → P
          (handle_request f p k1_verify_key cfg ks render say query now later handle cnf token op
            leases k).1
  handle_request_scoped now later handle cnf token op leases k P keeps holds =
      elim (handle_request_guarded now later handle cnf token op leases k refl) [
        | inl r ↦ rw (r.untouched) holds
        | inr s ↦ rw (ap (λ r. r.0) s.done) (handle_op_scoped ks render handle P k op keeps holds)
      ]
