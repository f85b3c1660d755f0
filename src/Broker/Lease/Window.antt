-- ===== src/Broker/Lease/Window.antt =====
-- How long a lease of cli/src/garnet_revocation.rs can serve after the server's last affirmative.
use signet_drive.Base.{
  ℕ, ◌+◌, ◌-◌, ◌≤◌, ◌<◌, ◌≡◌, ◌≢◌, refl, ap, arith, sym, ◌∙◌, Option, none, some, List, [],
}
use signet_drive.Base.{◌∷◌, inl, inr, ◌⊎◌}
use signet_drive.Base.Ints.{ℤ}
use signet_drive.Broker.Lease.{
  LeaseConfig, ServerSla, GrantStatusOutcome, live, revoked, unreachable,
}
use signet_drive.Broker.Lease.{serve, reconfirm_required, fail_closed, Confirm}
use signet_drive.Broker.Lease.{GrantLease, new_lease, effective, unwrap_or}
use signet_drive.Broker.Lease.{
  token_exp_decision, token_expired, decide, decide_at, adopt, confirm_at,
}
use signet_drive.Broker.Lease.{grace_at, on_grant_status, with_server_values, from_secs}

-- The worst latency of a revocation that a configuration accepts.
abbrev pub budget : LeaseConfig → ℕ
budget cfg = cfg.lease + cfg.outage_grace

-- Whatever the server supplies, the configuration it leads to has a total window of at most the
-- compiled one and the same skew; it is the compiled configuration, or its lease is from 5 to 120
-- seconds and its grace is at most 600.
pub with_server_values_bounded :
    (cfg : LeaseConfig) (l g : ℤ)
    → (budget (with_server_values cfg l g) ≤ budget cfg)
      × ((with_server_values cfg l g).token_skew ≡ cfg.token_skew)
      × ((with_server_values cfg l g ≡ cfg)
          ⊎ ((from_secs 5 ≤ (with_server_values cfg l g).lease)
              × ((with_server_values cfg l g).lease ≤ from_secs 120)
              × ((with_server_values cfg l g).outage_grace ≤ from_secs 600)))
unfolding with_server_values
with_server_values_bounded cfg l g = ground arith

token_exp_decision-cases :
    (l : GrantLease) (c : Confirm) (age : ℕ) (exp : ℤ) (cfg : LeaseConfig)
    → (token_exp_decision l c age exp cfg ≡ serve)
      ⊎ (token_exp_decision l c age exp cfg ≡ fail_closed token_expired)
unfolding token_exp_decision
token_exp_decision-cases l c age exp cfg = ground arith

grace_at_final :
    (l : GrantLease) (last : Option Confirm) (now : ℕ) (exp : ℤ) (cfg : LeaseConfig)
    → grace_at l last now exp cfg ≢ reconfirm_required
unfolding grace_at
grace_at_final l none now exp cfg e = ground arith
grace_at_final l (some c) now exp cfg e = elim (token_exp_decision-cases l c (now - c.at) exp cfg) [
  | inl h ↦ ground arith
  | inr h ↦ ground arith
]

-- After a grant status is fed back the decision is final: the operation is served or refused, and
-- never sent to confirm again.
pub on_grant_status_final :
    (l : GrantLease) (outcome : GrantStatusOutcome) (now : ℕ) (exp : ℤ) (cfg : LeaseConfig)
    → (on_grant_status l outcome now exp cfg).1 ≢ reconfirm_required
unfolding on_grant_status
on_grant_status_final l (live t sla) now exp cfg e =
    elim (token_exp_decision-cases (confirm_at (adopt l sla cfg) t now).0
      (confirm_at (adopt l sla cfg) t now).1 0 exp (effective (adopt l sla cfg) cfg)) [
        | inl h ↦ ground arith
        | inr h ↦ ground arith
      ]
on_grant_status_final l revoked now exp cfg e = ground arith
on_grant_status_final l unreachable now exp cfg e =
    grace_at_final l l.last_confirm now exp (effective l cfg) e

-- What the server said, when, and the expiry of the token it was asked for.
pub record Event : Type 0 where
  pub outcome : GrantStatusOutcome
  pub now : ℕ
  pub token_exp : ℤ

-- The outcomes are fed to the lease one after the other, under one compiled configuration.
abbrev pub run : LeaseConfig → GrantLease → List Event → GrantLease
run cfg l [] = l
run cfg l (e ∷ rest) = run cfg (on_grant_status l e.outcome e.now e.token_exp cfg).0 rest

-- When the last affirmative came, if any did.
abbrev pub live_at : Option ℕ → GrantStatusOutcome → ℕ → Option ℕ
live_at before (live t sla) now = some now
live_at before revoked now = before
live_at before unreachable now = before

abbrev pub last_live : Option ℕ → List Event → Option ℕ
last_live before [] = before
last_live before (e ∷ rest) = last_live (live_at before e.outcome e.now) rest

confirmed_at : Option Confirm → Option ℕ
confirmed_at none = none
confirmed_at (some c) = some c.at

-- A lease under a compiled configuration whose last affirmative came at `when`.
record Follows (cfg : LeaseConfig) (l : GrantLease) (when : Option ℕ) : Type 0 where
  anchored : confirmed_at l.last_confirm ≡ when
  within : budget (effective l cfg) ≤ budget cfg

adopt-within :
    (l : GrantLease) (sla : Option ServerSla) (cfg : LeaseConfig)
    → budget (effective l cfg) ≤ budget cfg
    → budget (effective (adopt l sla cfg) cfg) ≤ budget cfg
unfolding adopt effective unwrap_or
adopt-within l none cfg h = h
adopt-within l (some sla) cfg h =
    (with_server_values_bounded cfg sla.lease_seconds sla.outage_grace_seconds).0

on_grant_status-Follows :
    (cfg : LeaseConfig) (l : GrantLease) (when : Option ℕ) (outcome : GrantStatusOutcome) (now : ℕ)
    (exp : ℤ)
    → Follows cfg l when
    → Follows cfg (on_grant_status l outcome now exp cfg).0 (live_at when outcome now)
unfolding on_grant_status confirm_at confirmed_at effective
on_grant_status-Follows cfg l when (live t sla) now exp f = record {
  anchored = refl;
  within = adopt-within l sla cfg f.within;
}
on_grant_status-Follows cfg l when revoked now exp f = f
on_grant_status-Follows cfg l when unreachable now exp f = f

run-Follows :
    (cfg : LeaseConfig) (l : GrantLease) (when : Option ℕ) (events : List Event)
    → Follows cfg l when
    → Follows cfg (run cfg l events) (last_live when events)
run-Follows cfg l when [] f = f
run-Follows cfg l when (e ∷ rest) f =
    run-Follows cfg (on_grant_status l e.outcome e.now e.token_exp cfg).0
      (live_at when e.outcome e.now) rest
      (on_grant_status-Follows cfg l when e.outcome e.now e.token_exp f)

new_lease-Follows : (cfg : LeaseConfig) → Follows cfg new_lease none
unfolding new_lease confirmed_at effective unwrap_or
new_lease-Follows cfg = record { anchored = refl; within = omega arith }

-- A confirm is within the window of a configuration.
abbrev Recent : Option Confirm → ℕ → ℕ → Type 0
Recent last now window = (c : Confirm) × (last ≡ some c) × (now - c.at < window)

decide_at-Recent :
    (l : GrantLease) (last : Option Confirm) (now : ℕ) (exp : ℤ) (cfg : LeaseConfig)
    → decide_at l last now exp cfg ≡ serve
    → Recent last now cfg.lease
unfolding decide_at
decide_at-Recent l none now exp cfg e = absurd (ground arith)
decide_at-Recent l (some c) now exp cfg e = (c, refl, ground arith)

grace_at-Recent :
    (l : GrantLease) (last : Option Confirm) (now : ℕ) (exp : ℤ) (cfg : LeaseConfig)
    → grace_at l last now exp cfg ≡ serve
    → Recent last now (budget cfg)
unfolding grace_at
grace_at-Recent l none now exp cfg e = absurd (ground arith)
grace_at-Recent l (some c) now exp cfg e = (c, refl, ground arith)

Recent-last_live :
    (cfg : LeaseConfig) (l : GrantLease) (when : Option ℕ) (now window : ℕ)
    → Follows cfg l when
    → Recent l.last_confirm now window
    → window ≤ budget cfg
    → (at : ℕ) × (when ≡ some at) × (now - at < budget cfg)
unfolding confirmed_at
Recent-last_live cfg l when now window f (c, last, near) small =
    (c.at, sym f.anchored ∙ ap confirmed_at last, omega arith)

-- Under one compiled configuration, whatever the server answered and whatever windows it supplied:
-- when the lease serves an operation, from its cache or as the server is unreachable, the server's
-- last affirmative is younger than the compiled total window.
pub served_within_budget :
    (cfg : LeaseConfig) (events : List Event) (now : ℕ) (exp : ℤ)
    → (decide (run cfg new_lease events) now exp cfg ≡ serve)
      ⊎ ((on_grant_status (run cfg new_lease events) unreachable now exp cfg).1 ≡ serve)
    → (at : ℕ) × (last_live none events ≡ some at) × (now - at < budget cfg)
unfolding decide on_grant_status
served_within_budget cfg events now exp (inl e) =
    let l = run cfg new_lease events in
    let f = run-Follows cfg new_lease none events (new_lease-Follows cfg) in
    Recent-last_live cfg l (last_live none events) now _ f
      (decide_at-Recent l l.last_confirm now exp (effective l cfg) e) (omega (arith, f.within))
served_within_budget cfg events now exp (inr e) =
    let l = run cfg new_lease events in
    let f = run-Follows cfg new_lease none events (new_lease-Follows cfg) in
    Recent-last_live cfg l (last_live none events) now _ f
      (grace_at-Recent l l.last_confirm now exp (effective l cfg) e) f.within
