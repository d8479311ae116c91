-- ===== src/Limiter/LeakyBucket/Levels.antt =====
-- How the level of a leaky bucket moves, and how many requests it lets through.
use throttle.Prelude.{
  ℕ, zero, suc, ◌+◌, ◌-◌, ◌*◌, ◌/◌, ◌≤◌, ◌<◌, ◌≡◌, refl, ◌∙◌, ap, Bool, true, false, Option, none,
  some, List, [], ◌∷◌, map, arith,
}
use native.Mathlib.Decide.{dec_lt}
use native.Mathlib.Nat.{div-eq_of_lt, div-mul-le_self, le-div_iff_mul-le, mul-le-mul_right, add-mul}
use throttle.Int.{ℤ, pos}
use throttle.Int64.{sub64, sub64-pos, sub64-negative, mul64-pos, div64-pos, add64-pos, two_63}
use throttle.Limiter.Decisions.{allowed_count, first_granted}
use throttle.Limiter.LeakyBucket.{LeakyBucket, LeakyBucketState, at_least_zero, leak, step}

-- The decisions over a sequence of request times; `none` where a request panics.
unfoldable pub decide : LeakyBucket → LeakyBucketState → List ℤ → Option (List Bool)
decide lb state [] = some []
decide lb state (t ∷ ts) = elim (step lb t state) [
  | none ↦ none
  | some (allowed, state') ↦ elim (decide lb state' ts) [
    | none ↦ none
    | some bs ↦ some (allowed ∷ bs)
  ]
]

abbrev pub level : ℕ → ℕ → LeakyBucketState
level n t = record { count = pos n; last_leak_time = pos t }

clamped : (n k : ℕ) → n < two_63 → k < two_63 → at_least_zero (sub64 (pos n) (pos k)) ≡ pos (n - k)
clamped n k hn hk = elim (dec_lt n k) [
  | yes below ↦ rw (sub64-negative n k below hk) (ground arith)
  | no above ↦ rw (sub64-pos n k (omega arith) hn) (ground arith)
]

div_add : (a b i : ℕ) → a / suc i + b / suc i ≤ (a + b) / suc i
div_add a b i = (le-div_iff_mul-le (omega arith)).1 (
    omega (
      arith,
      add-mul (a / suc i) (b / suc i) (suc i),
      div-mul-le_self a (suc i),
      div-mul-le_self b (suc i),
    ))

rejoin : (a b c : ℕ) → a ≤ b → b ≤ c → b - a + (c - b) ≡ c - a
rejoin a b c h k = omega arith

-- A run that does not panic, and that allows at most `b` requests.
abbrev pub AllowsAtMost : ℕ → Option (List Bool) → Type 0
AllowsAtMost b none = ⊥
AllowsAtMost b (some bs) = allowed_count bs ≤ b

AllowsAtMost-cons :
    (a : Bool) (b b' : ℕ) (o : Option (List Bool))
    → AllowsAtMost b o
    → allowed_count (a ∷ []) + b ≤ b'
    → AllowsAtMost b' (elim o [ none ↦ none | some bs ↦ some (a ∷ bs) ])
AllowsAtMost-cons a b b' none h le = h
AllowsAtMost-cons true b b' (some bs) h le = omega arith
AllowsAtMost-cons false b b' (some bs) h le = omega arith

module _ (capacity rate interval : ℕ) (small : capacity < two_63) where
  abbrev pub bucket : LeakyBucket
  bucket = record {
    bucket_capacity = pos capacity;
    leak_rate = pos rate;
    leak_interval = pos (suc interval);
  }

  -- The level after `t - last` nanoseconds: whole intervals only.
  abbrev pub drained : ℕ → ℕ → ℕ → ℕ
  drained n last t = n - (t - last) / suc interval * rate

  leak_lem :
      (n last t : ℕ)
      → n < two_63
      → t < two_63
      → last ≤ t
      → (t - last) / suc interval * rate < two_63
      → leak bucket (pos t) (level n last) ≡ some (level (drained n last t) t)
  unfolding leak
  leak_lem n last t hn ht le fits = ground (
    arith,
    sub64-pos t last le ht,
    div64-pos (t - last) interval,
    mul64-pos ((t - last) / suc interval) rate fits,
    clamped n ((t - last) / suc interval * rate) hn fits,
  )

  step_room :
      (n last t : ℕ)
      → n ≤ capacity
      → t < two_63
      → last ≤ t
      → (t - last) / suc interval * rate < two_63
      → drained n last t < capacity
      → step bucket (pos t) (level n last) ≡ some (true, level (suc (drained n last t)) t)
  unfolding step
  step_room n last t hn ht le fits room =
      ground (arith, leak_lem n last t (omega arith) ht le fits, add64-pos (drained n last t) 1)

  step_full :
      (n last t : ℕ)
      → n ≤ capacity
      → t < two_63
      → last ≤ t
      → (t - last) / suc interval * rate < two_63
      → capacity ≤ drained n last t
      → step bucket (pos t) (level n last) ≡ some (false, level (drained n last t) t)
  unfolding step
  step_full n last t hn ht le fits full = ground (arith, leak_lem n last t (omega arith) ht le fits)

  -- Each request comes less than one leak interval after the one before it.
  abbrev pub Frequent : ℕ → List ℕ → Type 0
  Frequent last [] = Unit {0}
  Frequent last (t ∷ ts) = (last ≤ t) × (t - last < suc interval) × (t < two_63) × Frequent t ts

  module _ (n last t : ℕ) (hn : n ≤ capacity) (ht : t < two_63) (le : last ≤ t)
      (soon : t - last < suc interval) where
    no_interval : (t - last) / suc interval * rate ≡ 0
    no_interval = rw (div-eq_of_lt soon) (omega arith)

    no_overflow : (t - last) / suc interval * rate < two_63
    no_overflow = rw no_interval (omega arith)

    step_soon_room :
        n < capacity → step bucket (pos t) (level n last) ≡ some (true, level (suc n) t)
    step_soon_room room =
        step_room n last t hn ht le no_overflow (omega (arith, no_interval))
        ∙ ap (λ c. some (true, level (suc c) t)) (omega (arith, no_interval))

    step_soon_full : capacity ≤ n → step bucket (pos t) (level n last) ≡ some (false, level n t)
    step_soon_full full =
        step_full n last t hn ht le no_overflow (omega (arith, no_interval))
        ∙ ap (λ c. some (false, level c t)) (omega (arith, no_interval))

  -- For a capacity that fits an int64: under requests less than one leak interval apart the bucket
  -- never leaks, for as long as they go on. A bucket with `n` of the
  -- `n + k` places taken admits the next `k` requests and denies all the others.
  pub decide-Frequent :
      (last n k : ℕ) (ts : List ℕ)
      → n + k ≡ capacity
      → Frequent last ts
      → decide bucket (level n last) (map pos ts) ≡ some (first_granted k ts)
  unfolding decide first_granted
  decide-Frequent last n k [] room h = refl
  decide-Frequent last n zero (t ∷ ts) room h = ground (
    arith,
    step_soon_full n last t (omega arith) h.2 h.0 h.1 (omega arith),
    decide-Frequent t n zero ts room h.3,
  )
  decide-Frequent last n (suc k) (t ∷ ts) room h = ground (
    arith,
    step_soon_room n last t (omega arith) h.2 h.0 h.1 (omega arith),
    decide-Frequent t (suc n) k ts (omega arith) h.3,
  )

  -- Times in order, from `last` on and up to `hi`.
  abbrev pub Ordered : ℕ → ℕ → List ℕ → Type 0
  Ordered last hi [] = last ≤ hi
  Ordered last hi (t ∷ ts) = (last ≤ t) × Ordered t hi ts

  -- What leaks in whole intervals between `last` and `hi`.
  abbrev pub leakable : ℕ → ℕ → ℕ
  leakable last hi = (hi - last) / suc interval * rate

  leakable_add :
      (last t hi : ℕ) → last ≤ t → t ≤ hi → leakable last t + leakable t hi ≤ leakable last hi
  leakable_add last t hi h k = omega (
    arith,
    mul-le-mul_right rate (div_add (t - last) (hi - t) interval),
    add-mul ((t - last) / suc interval) ((hi - t) / suc interval) rate,
    ap (λ (d : ℕ). d / suc interval * rate) (rejoin last t hi h k),
  )

  Ordered-le : (last hi : ℕ) (ts : List ℕ) → Ordered last hi ts → last ≤ hi
  Ordered-le last hi [] h = h
  Ordered-le last hi (t ∷ ts) h = omega (arith, Ordered-le t hi ts h.1)

  -- For a leak interval of at least one nanosecond, a leak rate that is not negative and a capacity less
  -- than two to the 63, a level of at most the capacity, a last leak not before the epoch, and requests in
  -- order from that leak up to a time `hi` less than two to the 63, until which what leaks is less than that too: no request panics,
  -- and the bucket lets through at most what it has room for and what leaks in the whole intervals up
  -- to `hi`.
  pub decide_bound :
      (last n hi : ℕ) (ts : List ℕ)
      → n ≤ capacity
      → hi < two_63
      → leakable last hi < two_63
      → Ordered last hi ts
      → AllowsAtMost (capacity - n + leakable last hi) (decide bucket (level n last) (map pos ts))
  unfolding decide
  decide_bound last n hi [] le h fits order = omega arith
  decide_bound last n hi (t ∷ ts) le h fits order =
      let t_le = Ordered-le t hi ts order.1 in
      let sum_le = leakable_add last t hi order.0 t_le in
      elim (dec_lt (n - leakable last t) capacity) [
        | yes room ↦
            rw (step_room n last t le (omega arith) order.0 (omega arith) room, AllowsAtMost)
              (AllowsAtMost-cons true _ _ _
                (decide_bound t (suc (drained n last t)) hi ts room h (omega arith) order.1)
                (omega arith))
        | no full ↦
            rw
              (
                step_full n last t le (omega arith) order.0 (omega arith) (omega arith),
                AllowsAtMost,
              )
              (AllowsAtMost-cons false _ _ _
                (decide_bound t (drained n last t) hi ts (omega arith) h (omega arith) order.1)
                (omega arith))
      ]
