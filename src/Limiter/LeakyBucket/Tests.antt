-- ===== src/Limiter/LeakyBucket/Tests.antt =====
-- Runs of the leaky bucket: three places, one of which drains every ten seconds.
use throttle.Prelude.{ℕ, ◌≡◌, refl, some, List, [], ◌∷◌, map, arith, ◌+◌, ◌-◌}
use throttle.Int.{pos}
use throttle.Limiter.Decisions.{first_granted}
use throttle.Limiter.LeakyBucket.Levels.{
  decide, level, bucket, leakable, AllowsAtMost, decide-Frequent, decide_bound,
}

abbrev times : List ℕ
times = 9 ∷ 18 ∷ 27 ∷ 36 ∷ 45 ∷ []

-- A request every nine seconds: the third is the last.
decide-Frequent_example :
    decide (bucket 3 1 9 (omega arith)) (level 0 0) (map pos times) ≡ some (first_granted 3 times)
decide-Frequent_example = decide-Frequent 3 1 9 (omega arith) 0 0 3 times refl (ground arith)

decide_bound_example :
    AllowsAtMost
      (3 - 1 + leakable 3 1 9 (omega arith) 0 45)
      (decide (bucket 3 1 9 (omega arith)) (level 1 0) (map pos times))
decide_bound_example =
    decide_bound 3 1 9 (omega arith) 0 1 45 times (omega arith) (omega arith) (omega arith)
      (ground arith)
