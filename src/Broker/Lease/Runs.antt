-- ===== src/Broker/Lease/Runs.antt =====
-- Leases that the tests of cli/src/garnet_revocation.rs use, and the theorems on them.
use signet_drive.Base.{ℕ, ◌-◌, ◌≤◌, ◌<◌, ◌≡◌, ◌≢◌, refl, none, some, [], ◌∷◌, ◌⊎◌, inr}
use signet_drive.Base.Ints.{pos, negsuc, saturating_add, as_i64}
use signet_drive.Broker.Lease.{LeaseConfig, live, revoked, unreachable}
use signet_drive.Broker.Lease.{serve, reconfirm_required, fail_closed, token_expired, new_lease}
use signet_drive.Broker.Lease.{
  decide, decide_at, on_grant_status, adopt, confirm_at, grace_at, effective,
}
use signet_drive.Broker.Lease.{
  unwrap_or, token_exp_decision, trusted_now, with_server_values, from_secs,
}
use signet_drive.Broker.Lease.Window.{Event, run, last_live, budget, with_server_values_bounded}
use signet_drive.Broker.Lease.Window.{served_within_budget}
use signet_drive.Broker.Lease.Clock.{expired_stays_expired}

abbrev cfg : LeaseConfig
cfg = record { lease = from_secs 30; outage_grace = from_secs 90; token_skew = from_secs 60 }

abbrev confirmed : Event
confirmed = record { outcome = live (pos 1000) none; now = from_secs 10; token_exp = pos 2000 }

abbrev cut : Event
cut = record { outcome = revoked; now = from_secs 45; token_exp = pos 2000 }

cold_refuses : decide new_lease (from_secs 5) (pos 2000) cfg ≡ reconfirm_required
unfolding decide decide_at new_lease
cold_refuses = refl

with_server_values_bounded_example :
    (budget (with_server_values cfg (pos 5) (pos 115)) ≤ budget cfg)
    × ((with_server_values cfg (pos 5) (pos 115)).token_skew ≡ cfg.token_skew)
    × ((with_server_values cfg (pos 5) (pos 115) ≡ cfg)
        ⊎ ((from_secs 5 ≤ (with_server_values cfg (pos 5) (pos 115)).lease)
            × ((with_server_values cfg (pos 5) (pos 115)).lease ≤ from_secs 120)
            × ((with_server_values cfg (pos 5) (pos 115)).outage_grace ≤ from_secs 600)))
with_server_values_bounded_example = with_server_values_bounded cfg (pos 5) (pos 115)

-- A negative lease is the least lease, and a total over the compiled one is refused whole.
adopts_least : (with_server_values cfg (negsuc 3) (pos 100)).lease ≡ from_secs 5
unfolding with_server_values
adopts_least = refl

refuses_whole : with_server_values cfg (pos 60) (pos 61) ≡ cfg
unfolding with_server_values
refuses_whole = refl

-- 90 seconds after the affirmative the server is unreachable: served within the grace, also when the
-- server has revoked the grant in between.
graced :
    (on_grant_status
      (run cfg new_lease (confirmed ∷ cut ∷ []))
      unreachable
      (from_secs 100)
      (pos 2000)
      cfg).1
    ≡ serve
unfolding on_grant_status adopt confirm_at grace_at token_exp_decision trusted_now effective
    unwrap_or new_lease saturating_add as_i64
graced = refl

served_within_budget_example :
    (at : ℕ) × (last_live none (confirmed ∷ cut ∷ []) ≡ some at) × (from_secs 100 - at < budget cfg)
served_within_budget_example =
    served_within_budget cfg (confirmed ∷ cut ∷ []) (from_secs 100) (pos 2000) (inr graced)

expires :
    (on_grant_status
      (run cfg new_lease (confirmed ∷ []))
      (live (pos 2061) none)
      (from_secs 50)
      (pos 2000)
      cfg).1
    ≡ fail_closed token_expired
unfolding on_grant_status adopt confirm_at token_exp_decision trusted_now effective unwrap_or
    new_lease saturating_add as_i64
expires = refl

expired_stays_expired_example :
    (decide
        (run cfg
          (on_grant_status
            (run cfg new_lease (confirmed ∷ []))
            (live (pos 2061) none)
            (from_secs 50)
            (pos 2000)
            cfg).0
          (confirmed ∷ []))
        (from_secs 60)
        (pos 2000)
        cfg
      ≢ serve)
    × ((on_grant_status
          (run cfg
            (on_grant_status
              (run cfg new_lease (confirmed ∷ []))
              (live (pos 2061) none)
              (from_secs 50)
              (pos 2000)
              cfg).0
            (confirmed ∷ []))
          (live (pos 0) none)
          (from_secs 60)
          (pos 2000)
          cfg).1
        ≢ serve)
expired_stays_expired_example =
    expired_stays_expired cfg (confirmed ∷ []) (confirmed ∷ []) (pos 2061) none (from_secs 50)
      (pos 2000) (live (pos 0) none) (from_secs 60) expires
