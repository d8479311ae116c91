-- ===== src/Limiter/TokenBucket/Tests.antt =====
-- Runs of the token bucket on whole numbers: two tokens a second, up to ten.
use throttle.Prelude.{◌-◌, ◌/◌, ◌≡◌, refl, true, arith}
use throttle.Int.{leb_ℤ, ◌≤ℤ◌, ◌<ℤ◌, ℤ, pos, negsuc, ◌+ℤ◌, ◌-ℤ◌, ◌*ℤ◌}
use throttle.Int64.{mul-pos_pos, quot, two_63}
use throttle.Time.{second, nanos_per_second}
use throttle.Float64.Whole.{whole_numbers}
use throttle.Limiter.TokenBucket.{TokenBucket, refill, consume}
use throttle.Limiter.TokenBucket.Tokens.{IsOrdered, InBucket, request-InBucket}

whole_amount :
    (rate elapsed interval : ℤ)
    → leb_ℤ (pos 0) rate ≡ true
    → leb_ℤ rate (pos (two_63 - 1)) ≡ true
    → pos 0 ≤ℤ elapsed
    → pos 0 <ℤ interval
    → leb_ℤ (pos 0) (rate *ℤ quot (quot elapsed second) (quot interval second)) ≡ true
whole_amount (pos r) (pos e) (pos i) h _ k l =
    rw (mul-pos_pos r (e / nanos_per_second / (i / nanos_per_second))) (ground arith)
whole_amount (pos r) (negsuc e) (pos i) h _ k l = absurd (omega arith)
whole_amount (pos r) (pos e) (negsuc i) h _ k l = absurd (omega arith)
whole_amount (pos r) (negsuc e) (negsuc i) h _ k l = absurd (omega arith)
whole_amount (negsuc r) e i h _ k l = ground arith

whole_numbers-IsOrdered : IsOrdered whole_numbers
unfolding ◌+ℤ◌ ◌-ℤ◌
whole_numbers-IsOrdered = record {
  le_of_lt = λ a b h. ground arith;
  le_trans = λ a b c h k. ground arith;
  sub-one_le = λ a h. ground arith;
  sub-one_nonneg = λ a h. ground arith;
  add_nonneg = λ a b h k. ground arith;
  amount_nonneg = whole_amount;
}

abbrev two_a_second : TokenBucket ℤ
two_a_second = record { refill_rate = pos 2; refill_interval = second; max_tokens = pos 10 }

request-InBucket_example :
    InBucket whole_numbers two_a_second
      (consume whole_numbers (
        refill whole_numbers two_a_second
          (pos 3000000000)
          (record { tokens = pos 1; last_fill_time = pos 0 }))).1
request-InBucket_example =
    request-InBucket whole_numbers whole_numbers-IsOrdered two_a_second (pos 3000000000)
      (record { tokens = pos 1; last_fill_time = pos 0 })
      (record {
        rate_nonneg = refl;
        rate_bounded = refl;
        interval_pos = omega arith;
        cap_nonneg = refl;
        cap_number = refl;
      })
      (record { nonneg = refl; capped = refl }) (omega arith)
