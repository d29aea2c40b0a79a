-- ===== src/Broker/Ratelimit/Tests.antt =====
-- The rate limits at concrete buckets.
use pi_mesh.Prelude.{ℕ, ◌+◌, ◌*◌, ◌≤◌, ◌≡◌, refl, List, [], ◌∷◌, arith}
use pi_mesh.Dict
use pi_mesh.Shared.Config.{rate_bucket_window_ms}
use pi_mesh.Broker.Ratelimit.{
  RateKind, msg, force, default_rate_limits, check_rate, check_buckets, refill, get_rates,
}
use pi_mesh.Broker.Ratelimit.Bound.{AllFit, check_all, check_all-bounded}
use pi_mesh.Broker.Samples.{two_peers}

-- One message with force a minute.
abbrev burst : List (ℕ × RateKind)
burst = (1000, force) ∷ (2000, force) ∷ (3000, msg) ∷ (61000, force) ∷ []

burst_passes : (check_all "ann" default_rate_limits burst two_peers).0 ≡ 3
unfolding check_all check_rate check_buckets refill Dict.get Dict.set
burst_passes = refl

new_buckets_fit : AllFit default_rate_limits (get_rates two_peers "ann" default_rate_limits 1000)
unfolding Dict.get
new_buckets_fit = record {
  msg_fits = omega arith;
  urgent_fits = omega arith;
  force_fits = omega arith;
}

check_all-bounded_example :
    (check_all "ann" default_rate_limits burst two_peers).0 * rate_bucket_window_ms
    ≤ (rate_bucket_window_ms + 60000) * default_rate_limits.msg_per_min
unfolding Dict.get
check_all-bounded_example =
    check_all-bounded "ann" default_rate_limits 1000 force
      ((2000, force) ∷ (3000, msg) ∷ (61000, force) ∷ []) two_peers 60000 new_buckets_fit refl
