-- ===== src/Broker/Ratelimit/Bound.antt =====
-- How many checks can pass: never more than a full bucket and what flows in meanwhile.
use pi_mesh.Prelude.{
  ℕ, suc, ◌+◌, ◌-◌, ◌*◌, ◌≤◌, max, ◌≡◌, refl, ap, String, Bool, List, [], ◌∷◌, some, if◌then◌else◌,
  leb, arith, eq_iff, if-both, if-both_eq, and-eq-true,
}
use pi_mesh.Dict
use pi_mesh.Dict.Laws.{get-set}
use pi_mesh.Shared.Config.{rate_bucket_window_ms}
use pi_mesh.Broker.State.{BrokerState, PeerRates, TokenBucket}
use pi_mesh.Broker.Ratelimit.{
  RateKind, msg, urgent, force, RateLimits, get_rates, one_token, refill, take_token, refill_all,
  bucket_of, has_tokens, spend, check_buckets, check_rate,
}

-- A bucket holds at most `cap` tokens.
abbrev pub Fits : ℕ → TokenBucket → Type 0
Fits cap b = b.tokens ≤ cap * one_token

pub record AllFit (limits : RateLimits) (r : PeerRates) : Type 0 where
  pub msg_fits : Fits limits.msg_per_min r.msg
  pub urgent_fits : Fits limits.urgent_per_min r.urgent
  pub force_fits : Fits limits.force_per_min r.force

refill-Fits : (b : TokenBucket) (cap now : ℕ) → Fits cap b → Fits cap (refill b cap now)
unfolding refill
refill-Fits b cap now h = ground arith

check_buckets-AllFit :
    (kind : RateKind) (limits : RateLimits) (now : ℕ) (r : PeerRates)
    → AllFit limits r
    → AllFit limits (check_buckets kind limits now r).1
unfolding check_buckets
check_buckets-AllFit kind limits now r v =
    if-both (λ (x : Bool × PeerRates). AllFit limits x.1) (has_tokens kind r') (spend-AllFit kind)
      full
  where
    r' : PeerRates
    r' = refill_all r limits now

    full : AllFit limits r'
    full = record {
      msg_fits = refill-Fits r.msg limits.msg_per_min now v.msg_fits;
      urgent_fits = refill-Fits r.urgent limits.urgent_per_min now v.urgent_fits;
      force_fits = refill-Fits r.force limits.force_per_min now v.force_fits;
    }

    spend-AllFit : (k : RateKind) → AllFit limits (spend k r')
    spend-AllFit msg =
        let h = full.msg_fits in
        record {
          msg_fits = omega arith;
          urgent_fits = full.urgent_fits;
          force_fits = full.force_fits;
        }
    spend-AllFit urgent =
        let h = full.msg_fits in
        let k = full.urgent_fits in
        record { msg_fits = omega arith; urgent_fits = omega arith; force_fits = full.force_fits }
    spend-AllFit force =
        let h = full.msg_fits in
        let k = full.force_fits in
        record { msg_fits = omega arith; urgent_fits = full.urgent_fits; force_fits = omega arith }

-- What flows into a bucket is paid for by the time that passes.
record Flow (cap spent now : ℕ) (before after : TokenBucket) : Type 0 where
  paid :
      after.tokens + spent + before.last_refill_at * cap
      ≤ before.tokens + after.last_refill_at * cap
  later : before.last_refill_at ≤ after.last_refill_at
  on_time : after.last_refill_at ≤ max before.last_refill_at now

refill-Flow : (b : TokenBucket) (cap now : ℕ) → Flow cap 0 now b (refill b cap now)
unfolding refill
refill-Flow b cap now = if-both (Flow cap 0 now b) (leb cap 0) still (
    if-both_eq (Flow cap 0 now b) (leb now b.last_refill_at) (λ _. still)
      λ passes.
        let split : now ≡ b.last_refill_at + (now - b.last_refill_at) = ground arith in
        record {
          paid = omega (arith, ap (λ (t : ℕ). t * cap) split);
          later = ground arith;
          on_time = ground arith;
        })
  where
    still : Flow cap 0 now b b
    still = record { paid = omega arith; later = omega arith; on_time = omega arith }

msg-spend : (kind : RateKind) (r : PeerRates) → (spend kind r).msg ≡ take_token r.msg
msg-spend msg r = refl
msg-spend urgent r = refl
msg-spend force r = refl

abbrev spent_if : Bool → ℕ
spent_if passed = if passed then one_token else 0

-- Every check that passes, of whatever kind, takes one token from the message bucket.
check_buckets-Flow :
    (kind : RateKind) (limits : RateLimits) (now : ℕ) (r : PeerRates)
    → let (passed, r') = check_buckets kind limits now r in
      Flow limits.msg_per_min (spent_if passed) now r.msg r'.msg
unfolding check_buckets
check_buckets-Flow kind limits now r =
    if-both_eq (λ (x : Bool × PeerRates). Flow limits.msg_per_min (spent_if x.0) now r.msg x.1.msg)
      (has_tokens kind (refill_all r limits now))
      (λ e.
        let enough =
          (and-eq-true (leb one_token (bucket_of kind (refill_all r limits now)).tokens)
            (leb one_token (refill_all r limits now).msg.tokens) e).1 in
        rw (msg-spend kind (refill_all r limits now)) (record {
          paid = let p = flow.paid in ground arith;
          later = flow.later;
          on_time = flow.on_time;
        }))
      (λ _. flow)
  where
    flow : Flow limits.msg_per_min 0 now r.msg (refill r.msg limits.msg_per_min now)
    flow = refill-Flow r.msg limits.msg_per_min now

mul-le_right : (k a b : ℕ) → a ≤ b → a * k ≤ b * k
mul-le_right k a b h = grind arith

module _ (alias : String) (limits : RateLimits) where
  -- The checks of one alias, each at its own time; how many of them passed.
  unfoldable pub check_all : List (ℕ × RateKind) → BrokerState → ℕ × BrokerState
  check_all [] s = (0, s)
  check_all ((now, kind) ∷ rest) s =
      let (passed, s') = check_rate s alias kind limits now in
      let (n, s'') = check_all rest s' in (if passed then suc n else n, s'')

  abbrev pub latest : ℕ → List (ℕ × RateKind) → ℕ
  latest t [] = t
  latest t ((now, kind) ∷ rest) = latest (max t now) rest

  latest_mono : (xs : List (ℕ × RateKind)) (t u : ℕ) → t ≤ u → latest t xs ≤ latest u xs
  latest_mono [] t u h = h
  latest_mono ((now, kind) ∷ rest) t u h = latest_mono rest (max t now) (max u now) (omega arith)

  module _ (s : BrokerState) (now : ℕ) (kind : RateKind) where
    abbrev buckets : PeerRates
    buckets = get_rates s alias limits now

    stored-check_rate :
        Dict.get alias (check_rate s alias kind limits now).1.rates
        ≡ some (check_buckets kind limits now buckets).1
    unfolding check_rate
    stored-check_rate = ground (
      arith,
      get-set alias alias (check_buckets kind limits now buckets).1 s.rates,
      eq_iff alias alias,
    )

    passed-check_rate :
        (check_rate s alias kind limits now).0 ≡ (check_buckets kind limits now buckets).0
    unfolding check_rate
    passed-check_rate = refl

  -- The message bucket that the alias has at the first of the checks.
  abbrev first_bucket : List (ℕ × RateKind) → BrokerState → TokenBucket
  first_bucket [] s = (get_rates s alias limits 0).msg
  first_bucket ((now, kind) ∷ rest) s = (get_rates s alias limits now).msg

  first_bucket_stored :
      (xs : List (ℕ × RateKind)) (s : BrokerState) (r : PeerRates)
      → Dict.get alias s.rates ≡ some r
      → first_bucket xs s ≡ r.msg
  first_bucket_stored [] s r e = ground arith
  first_bucket_stored ((now, kind) ∷ rest) s r e = ground arith

  check_all-paid :
      (xs : List (ℕ × RateKind)) (s : BrokerState)
      → (check_all xs s).0 * one_token + (first_bucket xs s).last_refill_at * limits.msg_per_min
        ≤ (first_bucket xs s).tokens
          + latest (first_bucket xs s).last_refill_at xs * limits.msg_per_min
  unfolding check_all
  check_all-paid [] s = omega arith
  check_all-paid ((now, kind) ∷ rest) s =
      combine (check_rate s alias kind limits now).0
        (check_all rest (check_rate s alias kind limits now).1).0
        (rw
          (first_bucket_stored rest (check_rate s alias kind limits now).1
            (check_buckets kind limits now (buckets s now kind)).1 (stored-check_rate s now kind))
          at (check_all-paid rest (check_rate s alias kind limits now).1))
        (rw (← passed-check_rate s now kind) at
          (check_buckets-Flow kind limits now (buckets s now kind)))
    where
      b : TokenBucket
      b = (buckets s now kind).msg

      after : TokenBucket
      after = (check_buckets kind limits now (buckets s now kind)).1.msg

      combine :
          (passed : Bool) (n : ℕ)
          → n * one_token + after.last_refill_at * limits.msg_per_min
            ≤ after.tokens + latest after.last_refill_at rest * limits.msg_per_min
          → Flow limits.msg_per_min (spent_if passed) now b after
          → (if passed then suc n else n) * one_token + b.last_refill_at * limits.msg_per_min
            ≤ b.tokens + latest (max b.last_refill_at now) rest * limits.msg_per_min
      combine passed n ih flow =
          let p = flow.paid in
          let m = mul-le_right limits.msg_per_min _ _ (latest_mono rest _ _ flow.on_time) in
          ground arith

  -- From any state in which the alias's buckets hold no more than their limits (it may have none
  -- yet), of all its checks of whatever kind no more pass than the message limit allows for one
  -- window and the time from the last refill to the latest of the checks:
  -- passes * window <= limit * (window + elapsed).
  pub check_all-bounded :
      (now : ℕ) (kind : RateKind) (rest : List (ℕ × RateKind)) (s : BrokerState) (elapsed : ℕ)
      → AllFit limits (get_rates s alias limits now)
      → latest (get_rates s alias limits now).msg.last_refill_at ((now, kind) ∷ rest)
        ≡ (get_rates s alias limits now).msg.last_refill_at + elapsed
      → (check_all ((now, kind) ∷ rest) s).0 * rate_bucket_window_ms
        ≤ (rate_bucket_window_ms + elapsed) * limits.msg_per_min
  check_all-bounded now kind rest s elapsed fit e =
      let p = check_all-paid ((now, kind) ∷ rest) s in
      let full = fit.msg_fits in let split = ap (λ (t : ℕ). t * limits.msg_per_min) e in omega arith
