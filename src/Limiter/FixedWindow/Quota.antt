-- ===== src/Limiter/FixedWindow/Quota.antt =====
-- How many requests a fixed window admits. The decisions of fixed_window.go over a sequence of
-- request times, each request starting from the state that the one before it left.
use throttle.Prelude.{
  ℕ, zero, suc, ◌+◌, ◌-◌, ◌≤◌, ◌<◌, ◌≡◌, refl, Bool, true, false, List, [], ◌∷◌, ◌++◌, arith,
  replicate, All, ap, ◌∙◌,
}
use native.Mathlib.Decide.{dec_lt}
use throttle.Int.{ℤ, pos, ◌+ℤ◌, ◌≤ℤ◌, ◌<ℤ◌, dec_lt_ℤ, int_laws}
use throttle.Int64.{add64, add64-pos, add64-eq, two_63, IsInt64, IsInt64-between}
use throttle.Limiter.Decisions.{
  allowed_count, first_granted, first_granted-count, first_granted_all,
}
use throttle.Limiter.FixedWindow.{FixedWindow, FixedWindowState, fresh, roll, admit}

-- One request at time `now`.
unfoldable pub step : FixedWindow → ℤ → FixedWindowState → Bool × FixedWindowState
unfolding roll admit
step fw now state = admit fw (roll fw now state)

unfoldable pub decide : FixedWindow → FixedWindowState → List ℤ → List Bool
decide fw state [] = []
decide fw state (t ∷ ts) = let (allowed, state') = step fw t state in allowed ∷ decide fw state' ts

abbrev pub counted : ℕ → ℤ → FixedWindowState
counted n e = record { count = pos n; window_end = e }

module _ (fw : FixedWindow) (m : ℕ) (limit : fw.max_requests ≡ pos m) (small : m < two_63) where
  step-inside :
      (t e : ℤ) (n : ℕ) → t <ℤ e → n < m → step fw t (counted n e) ≡ (true, counted (suc n) e)
  unfolding step
  step-inside t e n inside room = ground (arith, add64-pos n 1)

  step-full : (t e : ℤ) (n : ℕ) → t <ℤ e → m ≤ n → step fw t (counted n e) ≡ (false, counted n e)
  unfolding step
  step-full t e n inside full = ground arith

  pub step-rolls :
      (t e : ℤ) (n : ℕ)
      → e ≤ℤ t
      → 0 < m
      → step fw t (counted n e) ≡ (true, counted 1 (add64 t fw.window_duration))
  unfolding step
  step-rolls t e n over room = ground (arith, add64-pos 0 1)

  pub step-rolls_full :
      (t e : ℤ) (n : ℕ)
      → e ≤ℤ t
      → m ≡ 0
      → step fw t (counted n e) ≡ (false, counted 0 (add64 t fw.window_duration))
  unfolding step
  step-rolls_full t e n over empty = ground arith

  pub window_end :
      (t : ℤ)
      → IsInt64 (t +ℤ fw.window_duration)
      → add64 t fw.window_duration ≡ t +ℤ fw.window_duration
  window_end t h = add64-eq t fw.window_duration h

  -- For a limit of `m` that fits an int64: within its window a state with `n` of the `n + k` requests counted admits the next `k` requests and
  -- denies all that follow, whenever they come before the window's end.
  pub decide_inside :
      (e : ℤ) (n k : ℕ) (ts : List ℤ)
      → n + k ≡ m
      → All (λ t. t <ℤ e) ts
      → decide fw (counted n e) ts ≡ first_granted k ts
  unfolding decide first_granted
  decide_inside e n k [] room h = refl
  decide_inside e n zero (t ∷ ts) room h =
      rw (step-full t e n h.0 (omega arith), decide)
        (ap (λ bs. false ∷ bs) (decide_inside e n zero ts room h.1))
  decide_inside e n (suc k) (t ∷ ts) room h =
      rw (step-inside t e n h.0 (omega arith), decide)
        (ap (λ bs. true ∷ bs) (decide_inside e (suc n) k ts (omega arith) h.1))

  inside_count :
      (e : ℤ) (n : ℕ) (ts : List ℤ)
      → n ≤ m
      → All (λ t. t <ℤ e) ts
      → allowed_count (decide fw (counted n e) ts) ≤ m - n
  inside_count e n ts le h =
      rw (decide_inside e n (m - n) ts (omega arith) h) (first_granted-count (m - n) ts)

  -- Times that lie in one span of a window's length, from `start` on.
  abbrev pub InSpan : ℤ → List ℤ → Type 0
  InSpan start ts =
      All
        (λ t. (start ≤ℤ t) × (t <ℤ start +ℤ fw.window_duration) × IsInt64 (t +ℤ fw.window_duration))
        ts

  span_after :
      (start t : ℤ) (ts : List ℤ)
      → start ≤ℤ t
      → InSpan start ts
      → All (λ u. u <ℤ t +ℤ fw.window_duration) ts
  span_after start t [] le h = tt
  span_after start t (u ∷ ts) le h = (omega int_laws, span_after start t ts le h.1)

  -- For a limit of `m`, less than two to the 63, a state with `n` requests counted, at most `m`, and
  -- requests at times at which the end of a new window fits an int64: in a span of one window's length
  -- no more are allowed than the `m - n` that are left in the window of the state, and the `m` of one
  -- more window.
  pub decide_span :
      (start e : ℤ) (n : ℕ) (ts : List ℤ)
      → n ≤ m
      → InSpan start ts
      → allowed_count (decide fw (counted n e) ts) ≤ (m - n) + m
  unfolding decide
  decide_span start e n [] le h = omega arith
  decide_span start e n (t ∷ ts) le h = elim (dec_lt_ℤ t e) [
    | yes inside ↦ elim (dec_lt n m) [
      | yes room ↦
          rw (step-inside t e n inside room)
            (omega (arith, decide_span start e (suc n) ts room h.1))
      | no full ↦
          rw (step-full t e n inside (omega arith)) (omega (arith, decide_span start e n ts le h.1))
    ]
    | no over ↦
        let later = span_after start t ts h.0.0 h.1 in
        elim (dec_lt 0 m) [
          | yes room ↦
              rw (step-rolls t e n (omega arith) room, window_end t h.0.2)
                (omega (arith, inside_count (t +ℤ fw.window_duration) 1 ts room later))
          | no none_left ↦
              rw (step-rolls_full t e n (omega arith) (omega arith), window_end t h.0.2)
                (omega (arith, inside_count (t +ℤ fw.window_duration) 0 ts (omega arith) later))
        ]
  ]

  decide_prefix :
      (t e : ℤ) (n k : ℕ) (ts : List ℤ)
      → t <ℤ e
      → n + k ≡ m
      → decide fw (counted n e) (replicate k t ++ ts)
        ≡ replicate k true ++ decide fw (counted m e) ts
  unfolding decide
  decide_prefix t e n zero ts inside room = ap (λ c. decide fw (counted c e) ts) (omega arith)
  decide_prefix t e n (suc k) ts inside room =
      rw (step-inside t e n inside (omega arith), decide)
        (ap (λ bs. true ∷ bs) (decide_prefix t e (suc n) k ts inside (omega arith)))

  All-replicate : (k : ℕ) (t e : ℤ) → t <ℤ e → All (λ u. u <ℤ e) (replicate k t)
  All-replicate zero t e h = tt
  All-replicate (suc k) t e h = (h, All-replicate k t e h)

  decide_rollover :
      (e : ℤ) (k : ℕ)
      → IsInt64 (e +ℤ fw.window_duration)
      → pos 0 <ℤ fw.window_duration
      → k ≡ m
      → decide fw (counted m e) (replicate k e) ≡ replicate k true
  unfolding decide
  decide_rollover e zero fits positive all = refl
  decide_rollover e (suc k) fits positive all =
      rw (step-rolls e e m (omega arith) (omega arith), window_end e fits)
        (ap (λ bs. true ∷ bs)
          (decide_inside (e +ℤ fw.window_duration) 1 k (replicate k e) (omega arith)
              (All-replicate k e (e +ℤ fw.window_duration) (omega int_laws))
            ∙ first_granted_all k e))

  -- For a limit of `m`, at least one and less than two to the 63, a positive window, and a key without
  -- a state: a first request not before the epoch, where two windows after it still fit an int64, opens a
  -- window; it, `m - 1` requests at any one time before the end of that window, and `m` requests at
  -- its end are all allowed, so that `2 m - 1` can be allowed in a moment.
  pub decide_boundary :
      (begin t : ℤ)
      → 0 < m
      → pos 0 ≤ℤ begin
      → t <ℤ begin +ℤ fw.window_duration
      → IsInt64 (begin +ℤ fw.window_duration +ℤ fw.window_duration)
      → pos 0 <ℤ fw.window_duration
      → decide fw
          (fresh fw begin)
          (begin ∷ (replicate (m - 1) t ++ replicate m (begin +ℤ fw.window_duration)))
        ≡ true ∷ (replicate (m - 1) true ++ replicate m true)
  unfolding decide
  decide_boundary begin t room later inside fits positive =
      let e = begin +ℤ fw.window_duration in
      let end_fits =
        IsInt64-between (pos 0) e (e +ℤ fw.window_duration) (omega arith) fits (omega int_laws)
          (omega int_laws) in
      rw (window_end begin end_fits, step-inside begin e 0 (omega int_laws) room)
        (ap (λ bs. true ∷ bs)
          (decide_prefix t e 1 (m - 1) (replicate m e) inside (omega arith)
            ∙ ap (λ bs. replicate (m - 1) true ++ bs) (decide_rollover e m fits positive refl)))
