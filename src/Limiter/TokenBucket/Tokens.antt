-- ===== src/Limiter/TokenBucket/Tokens.antt =====
-- The number of tokens in a bucket of token_bucket.go.
use throttle.Prelude.{◌-◌, ◌≡◌, true, arith, Bool-cases, inl, inr}
use throttle.Int.{ℤ, pos, ◌≤ℤ◌, ◌<ℤ◌, ◌-ℤ◌, int_laws}
use throttle.Int64.{two_63}
use throttle.Time.{time_sub, saturate}
use throttle.Float64.{Float64}
use throttle.Limiter.TokenBucket.{TokenBucket, TokenBucketState, min, refill, consume}

module _ {F : Type 0} (float : Float64 F) where
  open float use {zero, one, add, sub, mul, div, lt, le, seconds, of_int}

  -- Facts of IEEE 754, NaN and the infinities included: what a true comparison says, that
  -- subtracting 1 does not raise a number and leaves one that is not negative from 1 on, and that
  -- a rate that an int64 bounds gives no negative amount in no negative time.
  pub record IsOrdered : Type 0 where
    pub le_of_lt : (a b : F) → lt a b ≡ true → le a b ≡ true
    pub le_trans : (a b c : F) → le a b ≡ true → le b c ≡ true → le a c ≡ true
    pub sub-one_le : (a : F) → le one a ≡ true → le (sub a one) a ≡ true
    pub sub-one_nonneg : (a : F) → le one a ≡ true → le zero (sub a one) ≡ true
    pub add_nonneg : (a b : F) → le zero a ≡ true → le zero b ≡ true → le zero (add a b) ≡ true
    pub amount_nonneg :
        (rate : F) (elapsed interval : ℤ)
        → le zero rate ≡ true
        → le rate (of_int (pos (two_63 - 1))) ≡ true
        → pos 0 ≤ℤ elapsed
        → pos 0 <ℤ interval
        → le zero (mul rate (div (seconds elapsed) (seconds interval))) ≡ true

  -- A configuration that the service accepts: no parameter is negative, infinite or NaN.
  pub record IsSane (tb : TokenBucket F) : Type 0 where
    pub rate_nonneg : le zero tb.refill_rate ≡ true
    pub rate_bounded : le tb.refill_rate (of_int (pos (two_63 - 1))) ≡ true
    pub interval_pos : pos 0 <ℤ tb.refill_interval
    pub cap_nonneg : le zero tb.max_tokens ≡ true
    pub cap_number : le tb.max_tokens tb.max_tokens ≡ true

  pub record InBucket (tb : TokenBucket F) (state : TokenBucketState F) : Type 0 where
    pub nonneg : le zero state.tokens ≡ true
    pub capped : le state.tokens tb.max_tokens ≡ true

  module _ (laws : IsOrdered) where
    saturate_nonneg : (z : ℤ) → pos 0 ≤ℤ z → pos 0 ≤ℤ saturate z
    unfolding saturate
    saturate_nonneg z h = ground arith

    elapsed_nonneg : (now last : ℤ) → last ≤ℤ now → pos 0 ≤ℤ time_sub now last
    unfolding time_sub
    elapsed_nonneg now last h = saturate_nonneg (now -ℤ last) (omega int_laws)

    min-InBucket :
        (tb : TokenBucket F) (a : F) (t : ℤ)
        → IsSane tb
        → le zero a ≡ true
        → InBucket tb (record { tokens = min float a tb.max_tokens; last_fill_time = t })
    unfolding min
    min-InBucket tb a t sane h = elim (Bool-cases (lt a tb.max_tokens)) [
      | inl below ↦ rw below (record { nonneg = h; capped = laws.le_of_lt a tb.max_tokens below })
      | inr above ↦ rw above (record { nonneg = sane.cap_nonneg; capped = sane.cap_number })
    ]

    refill-InBucket :
        (tb : TokenBucket F) (now : ℤ) (state : TokenBucketState F)
        → IsSane tb
        → InBucket tb state
        → state.last_fill_time ≤ℤ now
        → InBucket tb (refill float tb now state)
    unfolding refill
    refill-InBucket tb now state sane inside order = min-InBucket tb _ _ sane (
        laws.add_nonneg state.tokens _ inside.nonneg (
          laws.amount_nonneg tb.refill_rate _ tb.refill_interval sane.rate_nonneg sane.rate_bounded
            (elapsed_nonneg now state.last_fill_time order) sane.interval_pos))

    consume-InBucket :
        (tb : TokenBucket F) (state : TokenBucketState F)
        → InBucket tb state
        → InBucket tb (consume float state).1
    unfolding consume
    consume-InBucket tb state inside = elim (Bool-cases (le one state.tokens)) [
      | inl enough ↦ rw enough (record {
        nonneg = laws.sub-one_nonneg state.tokens enough;
        capped =
            laws.le_trans _ state.tokens tb.max_tokens (laws.sub-one_le state.tokens enough)
              inside.capped;
      })
      | inr empty ↦ rw empty inside
    ]

    -- Under the facts of float arithmetic above and for a sane configuration: one request, on a state whose
    -- tokens are between zero and the cap and whose last fill is not after the request, leaves the
    -- tokens between zero and the cap.
    pub request-InBucket :
        (tb : TokenBucket F) (now : ℤ) (state : TokenBucketState F)
        → IsSane tb
        → InBucket tb state
        → state.last_fill_time ≤ℤ now
        → InBucket tb (consume float (refill float tb now state)).1
    request-InBucket tb now state sane inside order =
        consume-InBucket tb _ (refill-InBucket tb now state sane inside order)
