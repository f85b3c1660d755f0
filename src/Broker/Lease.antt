-- ===== src/Broker/Lease.antt =====
-- The lease on a grant that the broker serves: cli/src/garnet_revocation.rs.
--
-- A `Duration` and an `Instant` are numbers of nanoseconds; `now.saturating_duration_since(at)` is the
-- subtraction of ℕ, which stops at 0. The panic of a sum of durations past 2^64 seconds is not
-- modelled. `server_sla` of an option is an `Option`.
pub mod Window
pub mod Clock
mod Runs
use signet_drive.Base.{ℕ, ◌+◌, ◌-◌, ◌*◌, ◌/◌, min, max, Option, none, some, ltb, leb, if◌then◌else◌}
use signet_drive.Base.Ints.{ℤ, pos_part, ltb_ℤ, max_ℤ, i64_min, saturating_add, as_i64}

abbrev pub from_secs : ℕ → ℕ
from_secs s = s * 1000000000

abbrev pub as_secs : ℕ → ℕ
as_secs d = d / 1000000000

pub record LeaseConfig : Type 0 where
  pub lease : ℕ
  pub outage_grace : ℕ
  pub token_skew : ℕ

abbrev pub lease_min_secs : ℕ
lease_min_secs = 5

abbrev pub lease_max_secs : ℕ
lease_max_secs = 120

abbrev pub outage_grace_min_secs : ℕ
outage_grace_min_secs = 0

abbrev pub outage_grace_max_secs : ℕ
outage_grace_max_secs = 600

-- `u64::clamp`.
abbrev pub clamp : ℕ → ℕ → ℕ → ℕ
clamp n lo hi = if ltb n lo then lo else (if ltb hi n then hi else n)

-- `LeaseConfig::with_server_values`.
pub with_server_values : LeaseConfig → ℤ → ℤ → LeaseConfig
with_server_values cfg lease_seconds outage_grace_seconds =
    let lease = from_secs (clamp (pos_part lease_seconds) lease_min_secs lease_max_secs) in
    let outage_grace =
      from_secs
        (clamp (pos_part outage_grace_seconds) outage_grace_min_secs outage_grace_max_secs) in
    if ltb (cfg.lease + cfg.outage_grace) (lease + outage_grace)
    then cfg
    else record { lease = lease; outage_grace = outage_grace; token_skew = cfg.token_skew }

pub record ServerSla : Type 0 where
  pub lease_seconds : ℤ
  pub outage_grace_seconds : ℤ

pub data GrantStatusOutcome : Type 0 where
  live : ℤ → Option ServerSla → GrantStatusOutcome
  revoked : GrantStatusOutcome
  unreachable : GrantStatusOutcome

pub data FailReason : Type 0 where
  revoked : FailReason
  unreachable : FailReason
  token_expired : FailReason

pub data Decision : Type 0 where
  serve : Decision
  reconfirm_required : Decision
  fail_closed : FailReason → Decision

pub record Confirm : Type 0 where
  pub server_time : ℤ
  pub at : ℕ

pub record GrantLease : Type 0 where
  pub last_confirm : Option Confirm
  pub trusted_floor : ℤ
  pub server_sla : Option LeaseConfig

-- `GrantLease::new`, cold.
unfoldable pub new_lease : GrantLease
new_lease = record { last_confirm = none; trusted_floor = i64_min; server_sla = none }

-- `Option::unwrap_or`.
unwrap_or : Option LeaseConfig → LeaseConfig → LeaseConfig
unwrap_or none defaults = defaults
unwrap_or (some cfg) defaults = cfg

pub effective : GrantLease → LeaseConfig → LeaseConfig
unfolding unwrap_or
effective l defaults = unwrap_or l.server_sla defaults

-- The server's time at the confirm, advanced by its age, and not below the floor.
pub trusted_now : GrantLease → Confirm → ℕ → ℤ
trusted_now l confirm age =
    max_ℤ (saturating_add confirm.server_time (as_i64 (as_secs age))) l.trusted_floor

pub token_exp_decision : GrantLease → Confirm → ℕ → ℤ → LeaseConfig → Decision
unfolding trusted_now
token_exp_decision l confirm age token_exp cfg =
    if ltb_ℤ (saturating_add token_exp (as_i64 (as_secs cfg.token_skew)))
      (trusted_now l confirm age)
    then fail_closed token_expired
    else serve

-- `GrantLease::decide`, with the configuration in force.
decide_at : GrantLease → Option Confirm → ℕ → ℤ → LeaseConfig → Decision
decide_at l none now token_exp cfg = reconfirm_required
decide_at l (some confirm) now token_exp cfg =
    let expiry = token_exp_decision l confirm (now - confirm.at) token_exp cfg in
    if leb cfg.lease (now - confirm.at) then reconfirm_required else expiry

pub decide : GrantLease → ℕ → ℤ → LeaseConfig → Decision
unfolding decide_at
decide l now token_exp cfg = decide_at l l.last_confirm now token_exp (effective l cfg)

-- `if let Some(sla) = sla`.
adopt : GrantLease → Option ServerSla → LeaseConfig → GrantLease
adopt l none cfg = l
adopt l (some sla) cfg = record l {
  server_sla = some (with_server_values cfg sla.lease_seconds sla.outage_grace_seconds);
}

-- The anchor of a fresh confirm, and the lease that holds it.
confirm_at : GrantLease → ℤ → ℕ → GrantLease × Confirm
confirm_at l server_time now =
    let anchored = max_ℤ server_time l.trusted_floor in
    let confirm : Confirm = record { server_time = anchored; at = now } in
    (record l { last_confirm = some confirm; trusted_floor = anchored }, confirm)

-- The last-known-good window.
grace_at : GrantLease → Option Confirm → ℕ → ℤ → LeaseConfig → Decision
grace_at l none now token_exp cfg = fail_closed unreachable
grace_at l (some confirm) now token_exp cfg =
    let expiry = token_exp_decision l confirm (now - confirm.at) token_exp cfg in
    if ltb (now - confirm.at) (cfg.lease + cfg.outage_grace)
    then expiry
    else fail_closed unreachable

-- `GrantLease::on_grant_status`: the lease after it, and the decision.
pub on_grant_status : GrantLease → GrantStatusOutcome → ℕ → ℤ → LeaseConfig → GrantLease × Decision
unfolding adopt confirm_at grace_at
on_grant_status l (live server_time sla) now token_exp cfg =
    let adopted = adopt l sla cfg in
    let (l', confirm) = confirm_at adopted server_time now in
    (l', token_exp_decision l' confirm 0 token_exp (effective adopted cfg))
on_grant_status l revoked now token_exp cfg = (l, fail_closed revoked)
on_grant_status l unreachable now token_exp cfg =
    (l, grace_at l l.last_confirm now token_exp (effective l cfg))
