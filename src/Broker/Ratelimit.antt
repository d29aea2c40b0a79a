-- ===== src/Broker/Ratelimit.antt =====
-- src/broker/ratelimit.ts: token buckets for each alias. The code counts tokens in floating point;
-- here a bucket holds whole multiples of 1 / `rate_bucket_window_ms` of a token, in which the gain
-- `elapsed / window * cap` is the number `elapsed * cap`, with no rounding.
pub mod Bound
pub mod Tests
use pi_mesh.Prelude.{
  ℕ, zero, suc, ◌+◌, ◌-◌, ◌*◌, min, String, Bool, true, false, not, ◌&&◌, ◌||◌, Option, none, some,
  if◌then◌else◌, leb, ltb,
}
use pi_mesh.Dict
use pi_mesh.Shared.Config.{
  rate_bucket_window_ms, default_rate_msg_per_min, default_rate_urgent_per_min,
  default_rate_force_per_min,
}
use pi_mesh.Broker.State.{BrokerState, PeerRates, TokenBucket, new_bucket}

pub data RateKind : Type 0 where
  msg urgent force : RateKind

pub record RateLimits : Type 0 where
  pub msg_per_min : ℕ
  pub urgent_per_min : ℕ
  pub force_per_min : ℕ

abbrev pub default_rate_limits : RateLimits
default_rate_limits = record {
  msg_per_min = default_rate_msg_per_min;
  urgent_per_min = default_rate_urgent_per_min;
  force_per_min = default_rate_force_per_min;
}

abbrev pub rates_or_new : RateLimits → ℕ → Option PeerRates → PeerRates
rates_or_new limits now (some r) = r
rates_or_new limits now none = record {
  msg = new_bucket limits.msg_per_min now;
  urgent = new_bucket limits.urgent_per_min now;
  force = new_bucket limits.force_per_min now;
}

abbrev pub get_rates : BrokerState → String → RateLimits → ℕ → PeerRates
get_rates s alias limits now = rates_or_new limits now (Dict.get alias s.rates)

-- One token, and the amount that `cap` tokens are.
abbrev pub one_token : ℕ
one_token = rate_bucket_window_ms

unfoldable pub refill : TokenBucket → ℕ → ℕ → TokenBucket
refill bucket cap now =
    if leb cap 0 then bucket else if leb now bucket.last_refill_at then bucket else record {
      tokens = min (cap * one_token) (bucket.tokens + (now - bucket.last_refill_at) * cap);
      last_refill_at = now;
    }

abbrev pub take_token : TokenBucket → TokenBucket
take_token bucket = record bucket { tokens = bucket.tokens - one_token }

abbrev pub refill_all : PeerRates → RateLimits → ℕ → PeerRates
refill_all r limits now = record {
  msg = refill r.msg limits.msg_per_min now;
  urgent = refill r.urgent limits.urgent_per_min now;
  force = refill r.force limits.force_per_min now;
}

abbrev pub bucket_of : RateKind → PeerRates → TokenBucket
bucket_of msg r = r.msg
bucket_of urgent r = r.urgent
bucket_of force r = r.force

-- The test of `checkRate` on refilled buckets.
abbrev pub has_tokens : RateKind → PeerRates → Bool
has_tokens kind r = leb one_token (bucket_of kind r).tokens && leb one_token r.msg.tokens

abbrev pub spend : RateKind → PeerRates → PeerRates
spend msg r = record r { msg = take_token r.msg }
spend urgent r = record r { urgent = take_token r.urgent; msg = take_token r.msg }
spend force r = record r { force = take_token r.force; msg = take_token r.msg }

-- What a check makes of the buckets of the alias. They stay refilled where it fails.
unfoldable pub check_buckets : RateKind → RateLimits → ℕ → PeerRates → Bool × PeerRates
check_buckets kind limits now r =
    let r' = refill_all r limits now in
    if has_tokens kind r' then (true, spend kind r') else (false, r')

unfoldable pub check_rate : BrokerState → String → RateKind → RateLimits → ℕ → Bool × BrokerState
check_rate s alias kind limits now =
    let (passed, r) = check_buckets kind limits now (get_rates s alias limits now) in
    (passed, record s { rates = Dict.set alias r s.rates })
