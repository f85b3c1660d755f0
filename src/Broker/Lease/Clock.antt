-- ===== src/Broker/Lease/Clock.antt =====
-- Trusted time in cli/src/garnet_revocation.rs: it never goes back, so a token that has expired for a
-- lease stays expired.
use signet_drive.Base.{ℕ, ◌-◌, ◌≡◌, ◌≢◌, refl, arith, subst, Option, none, some, List, [], ◌∷◌}
use signet_drive.Base.Ints.{ℤ, pos, negsuc, ◌≤ℤ◌, ◌<ℤ◌, i64_min, saturating_add}
use signet_drive.Base.Ints.{as_i64}
use signet_drive.Broker.Lease.{
  LeaseConfig, ServerSla, GrantStatusOutcome, live, revoked, unreachable,
}
use signet_drive.Broker.Lease.{serve, fail_closed, Confirm}
use signet_drive.Broker.Lease.{GrantLease, new_lease, effective, unwrap_or, trusted_now, as_secs}
use signet_drive.Broker.Lease.{
  token_exp_decision, token_expired, decide, decide_at, adopt, confirm_at,
}
use signet_drive.Broker.Lease.{grace_at, on_grant_status}
use signet_drive.Broker.Lease.Window.{Event, run, with_server_values_bounded}

-- The token's expiry, with the skew, is before the floor of trusted time.
abbrev IsPast : GrantLease → ℤ → LeaseConfig → Type 0
IsPast l exp cfg = saturating_add exp (as_i64 (as_secs cfg.token_skew)) <ℤ l.trusted_floor

token_exp_decision-IsPast :
    (l : GrantLease) (c : Confirm) (age : ℕ) (exp : ℤ) (cfg : LeaseConfig)
    → IsPast l exp cfg
    → token_exp_decision l c age exp cfg ≡ fail_closed token_expired
unfolding token_exp_decision trusted_now
token_exp_decision-IsPast l c age exp cfg past = ground arith

-- A lease as it can be under a compiled configuration: the skew in force is the compiled one, and the
-- floor is a word.
record IsLease (cfg : LeaseConfig) (l : GrantLease) : Type 0 where
  same_skew : (effective l cfg).token_skew ≡ cfg.token_skew
  floor_word : i64_min ≤ℤ l.trusted_floor

adopt-skew :
    (l : GrantLease) (sla : Option ServerSla) (cfg : LeaseConfig)
    → (effective l cfg).token_skew ≡ cfg.token_skew
    → (effective (adopt l sla cfg) cfg).token_skew ≡ cfg.token_skew
unfolding adopt effective unwrap_or
adopt-skew l none cfg h = h
adopt-skew l (some sla) cfg h =
    (with_server_values_bounded cfg sla.lease_seconds sla.outage_grace_seconds).1

adopt-floor :
    (l : GrantLease) (sla : Option ServerSla) (cfg : LeaseConfig)
    → (adopt l sla cfg).trusted_floor ≡ l.trusted_floor
unfolding adopt
adopt-floor l none cfg = refl
adopt-floor l (some sla) cfg = refl

on_grant_status-IsLease :
    (cfg : LeaseConfig) (l : GrantLease) (outcome : GrantStatusOutcome) (now : ℕ) (exp : ℤ)
    → IsLease cfg l
    → IsLease cfg (on_grant_status l outcome now exp cfg).0
unfolding on_grant_status confirm_at effective
on_grant_status-IsLease cfg l (live t sla) now exp v = record {
  same_skew = adopt-skew l sla cfg v.same_skew;
  floor_word = rw (adopt-floor l sla cfg) (let h = v.floor_word in ground arith);
}
on_grant_status-IsLease cfg l revoked now exp v = v
on_grant_status-IsLease cfg l unreachable now exp v = v

on_grant_status-floor :
    (cfg : LeaseConfig) (l : GrantLease) (outcome : GrantStatusOutcome) (now : ℕ) (exp : ℤ)
    → l.trusted_floor ≤ℤ (on_grant_status l outcome now exp cfg).0.trusted_floor
unfolding on_grant_status confirm_at
on_grant_status-floor cfg l (live t sla) now exp = rw (adopt-floor l sla cfg) (ground arith)
on_grant_status-floor cfg l revoked now exp = omega arith
on_grant_status-floor cfg l unreachable now exp = omega arith

run-IsLease :
    (cfg : LeaseConfig) (l : GrantLease) (events : List Event)
    → IsLease cfg l
    → IsLease cfg (run cfg l events)
run-IsLease cfg l [] v = v
run-IsLease cfg l (e ∷ rest) v =
    run-IsLease cfg (on_grant_status l e.outcome e.now e.token_exp cfg).0 rest
      (on_grant_status-IsLease cfg l e.outcome e.now e.token_exp v)

-- Whatever the server answers, in whatever order and with whatever time, the floor of a lease's
-- trusted time does not decrease.
pub trusted_floor_monotone :
    (cfg : LeaseConfig) (l : GrantLease) (events : List Event)
    → l.trusted_floor ≤ℤ (run cfg l events).trusted_floor
trusted_floor_monotone cfg l [] = omega arith
trusted_floor_monotone cfg l (e ∷ rest) = omega (
  arith,
  on_grant_status-floor cfg l e.outcome e.now e.token_exp,
  trusted_floor_monotone cfg (on_grant_status l e.outcome e.now e.token_exp cfg).0 rest,
)

new_lease-IsLease : (cfg : LeaseConfig) → IsLease cfg new_lease
unfolding new_lease effective unwrap_or
new_lease-IsLease cfg = record { same_skew = refl; floor_word = omega arith }

same_skew-IsPast :
    (l : GrantLease) (exp : ℤ) (cfg cfg' : LeaseConfig)
    → cfg.token_skew ≡ cfg'.token_skew
    → IsPast l exp cfg
    → IsPast l exp cfg'
same_skew-IsPast l exp cfg cfg' e past =
    subst (λ k. saturating_add exp (as_i64 (as_secs k)) <ℤ l.trusted_floor) e past

-- In force is the compiled skew, so what is past for the one is past for the other.
IsPast-effective :
    (cfg : LeaseConfig) (l : GrantLease) (exp : ℤ)
    → IsLease cfg l
    → IsPast l exp cfg
    → IsPast l exp (effective l cfg)
IsPast-effective cfg l exp v past = rw (v.same_skew) past

decide_at-IsPast :
    (l : GrantLease) (last : Option Confirm) (now : ℕ) (exp : ℤ) (cfg : LeaseConfig)
    → IsPast l exp cfg
    → decide_at l last now exp cfg ≢ serve
unfolding decide_at
decide_at-IsPast l none now exp cfg past e = ground arith
decide_at-IsPast l (some c) now exp cfg past e =
    ground (arith, token_exp_decision-IsPast l c (now - c.at) exp cfg past)

grace_at-IsPast :
    (l : GrantLease) (last : Option Confirm) (now : ℕ) (exp : ℤ) (cfg : LeaseConfig)
    → IsPast l exp cfg
    → grace_at l last now exp cfg ≢ serve
unfolding grace_at
grace_at-IsPast l none now exp cfg past e = ground arith
grace_at-IsPast l (some c) now exp cfg past e =
    ground (arith, token_exp_decision-IsPast l c (now - c.at) exp cfg past)

on_grant_status-IsPast :
    (cfg : LeaseConfig) (l : GrantLease) (outcome : GrantStatusOutcome) (now : ℕ) (exp : ℤ)
    → IsLease cfg l
    → IsPast l exp cfg
    → (on_grant_status l outcome now exp cfg).1 ≢ serve
unfolding on_grant_status effective confirm_at
on_grant_status-IsPast cfg l (live t sla) now exp v past e =
    let v' = on_grant_status-IsLease cfg l (live t sla) now exp v in
    let l' : GrantLease = (confirm_at (adopt l sla cfg) t now).0 in
    let raised = on_grant_status-floor cfg l (live t sla) now exp in
    let past' : IsPast l' exp (effective l' cfg) = IsPast-effective cfg l' exp v' (omega arith) in
    ground (
      arith,
      token_exp_decision-IsPast l' (confirm_at (adopt l sla cfg) t now).1 0 exp (effective l' cfg)
          past',
    )
on_grant_status-IsPast cfg l revoked now exp v past e = ground arith
on_grant_status-IsPast cfg l unreachable now exp v past e =
    grace_at-IsPast l l.last_confirm now exp (effective l cfg) (IsPast-effective cfg l exp v past) e

no_age : (a : ℤ) → i64_min ≤ℤ a → saturating_add a (as_i64 (as_secs 0)) ≤ℤ a
unfolding saturating_add as_i64
no_age (pos n) h = ground arith
no_age (negsuc n) h = ground arith

late :
    (l : GrantLease) (c : Confirm) (age : ℕ) (exp : ℤ) (cfg : LeaseConfig)
    → token_exp_decision l c age exp cfg ≡ fail_closed token_expired
    → saturating_add exp (as_i64 (as_secs cfg.token_skew)) <ℤ trusted_now l c age
unfolding token_exp_decision
late l c age exp cfg e = ground arith

fresh_now :
    (l : GrantLease) (c : Confirm)
    → c.server_time ≡ l.trusted_floor
    → i64_min ≤ℤ l.trusted_floor
    → trusted_now l c 0 ≤ℤ l.trusted_floor
unfolding trusted_now
fresh_now l c same word = let h = no_age l.trusted_floor word in rw same (ground arith)

-- A fresh confirm that finds the token expired has put the floor past it.
live-IsPast :
    (cfg : LeaseConfig) (l : GrantLease) (t : ℤ) (sla : Option ServerSla) (now : ℕ) (exp : ℤ)
    → IsLease cfg l
    → (on_grant_status l (live t sla) now exp cfg).1 ≡ fail_closed token_expired
    → IsPast (on_grant_status l (live t sla) now exp cfg).0 exp cfg
unfolding on_grant_status confirm_at effective
live-IsPast cfg l t sla now exp v e =
    let v' = on_grant_status-IsLease cfg l (live t sla) now exp v in
    let l' : GrantLease = (confirm_at (adopt l sla cfg) t now).0 in
    let c : Confirm = (confirm_at (adopt l sla cfg) t now).1 in
    let past : IsPast l' exp (effective (adopt l sla cfg) cfg) = omega (
      arith,
      late l' c 0 exp (effective (adopt l sla cfg) cfg) e,
      fresh_now l' c refl v'.floor_word,
    ) in
    same_skew-IsPast l' exp (effective (adopt l sla cfg) cfg) cfg v'.same_skew past

-- Once the server has affirmed a grant at a time at which the token is expired, that token is not
-- served again from the lease, whatever the server answers after that, with whatever times.
pub expired_stays_expired :
    (cfg : LeaseConfig) (before after : List Event) (t : ℤ) (sla : Option ServerSla) (now : ℕ)
    (exp : ℤ) (outcome : GrantStatusOutcome) (later : ℕ)
    → (on_grant_status (run cfg new_lease before) (live t sla) now exp cfg).1
      ≡ fail_closed token_expired
    → (decide
          (run cfg (on_grant_status (run cfg new_lease before) (live t sla) now exp cfg).0 after)
          later
          exp
          cfg
        ≢ serve)
      × ((on_grant_status
            (run cfg (on_grant_status (run cfg new_lease before) (live t sla) now exp cfg).0 after)
            outcome
            later
            exp
            cfg).1
          ≢ serve)
unfolding decide
expired_stays_expired cfg before after t sla now exp outcome later e =
    let l = run cfg new_lease before in
    let v = run-IsLease cfg new_lease before (new_lease-IsLease cfg) in
    let mid = (on_grant_status l (live t sla) now exp cfg).0 in
    let v' = run-IsLease cfg mid after (on_grant_status-IsLease cfg l (live t sla) now exp v) in
    let past : IsPast (run cfg mid after) exp cfg =
      omega (arith, live-IsPast cfg l t sla now exp v e, trusted_floor_monotone cfg mid after) in
    (
      decide_at-IsPast (run cfg mid after) _ later exp _
          (IsPast-effective cfg (run cfg mid after) exp v' past),
      on_grant_status-IsPast cfg (run cfg mid after) outcome later exp v' past,
    )
