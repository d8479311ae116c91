-- ===== src/Handler/RateLimit/Enforced.antt =====
-- internal/handler/ratelimit.go: a run of checks for one key among requests for others, over a store
-- with expirations.
use throttle.Prelude.{
  ℕ, zero, suc, ◌+◌, ◌-◌, String, ◌≡◌, refl, ap, ◌∙◌, some, List, [], ◌∷◌, arith, if◌then◌else◌,
  ◌==◌, false, ltb,
}
use throttle.Int.{ℤ, pos, ◌+ℤ◌, ◌≤ℤ◌, ◌<ℤ◌, int_laws}
use throttle.Int64.{IsInt64, IsInt64-between}
use throttle.Time.{Clock, unix_nano, second}
use throttle.Float64.{Float64}
use throttle.Codec.{IsCodecAt}
use throttle.Storage.{Store}
use throttle.Storage.Expiring.{IsExpiring}
use throttle.Limiter.FixedWindow.{FixedWindowState, load, state_key}
use throttle.Limiter.FixedWindow.Quota.{counted}
use throttle.Limiter.FixedWindow.Counting.{next_count}
use throttle.Service.Config.{RateLimitConfig}
use throttle.Service.Limiters.{Codecs, Service, limiter_key, window_duration}
use throttle.Service.RateLimit.Checks.{window, IsFixedWindow, IsConfigured}
use throttle.Service.RateLimit.Counts.{
  Counts, after_check, check-Counts, loads_fresh, loads_kept, looked, found, looks_before,
}
use throttle.Service.RateLimit.Isolation.{Apart}
use throttle.Service.RateLimit.OwnKeys.{IsOwn, Apart-Counts, Apart-IsConfigured, Apart-state}
use throttle.Handler.RateLimit.Requests.{
  Request, serve, IsOther, Call, own, other, own_checks, AreOthers,
}
use throttle.Handler.RateLimit.{set}
use throttle.Handler.RateLimit.Answers.{
  status_code, promised, request, statuses, AnsweredBefore, AnsweredBefore-later, other_apart,
  request_after, request_status,
}

promised_next :
    (m c left n : ℕ)
    → c + left ≡ m
    → promised left (suc n) ≡ some (if ltb c m then 200 else 429) ∷ promised (left - 1) n
unfolding promised
promised_next m c zero n all = ground arith
promised_next m c (suc left) n all = ground arith

left_next : (m c left : ℕ) → c + left ≡ m → next_count m c + (left - 1) ≡ m
left_next m c left all = ground arith

module _ {F W : Type 0} (float : Float64 F) (store : Store F W) (clock : Clock W) (json : Codecs F)
    (key : String) (ex : IsExpiring store clock)
    (codec : (state : FixedWindowState) → IsCodecAt json.fixed_states state) (cfg : RateLimitConfig)
    (config_law : IsCodecAt json.configs cfg) (m : ℕ) (fw : IsFixedWindow m cfg)
    (named : (key == "") ≡ false) where
  abbrev CountsAt : ℕ → ℤ → Service F W → Type 0
  CountsAt c end s = Counts float store clock json ex codec key cfg config_law m fw c end s

  abbrev pub Configured : Service F W → Type 0
  Configured s = IsConfigured float store clock json ex codec key cfg config_law m fw s

  -- The state that a check loads.
  abbrev IsLoaded : (s : Service F W) → Configured s → ℕ → ℤ → Type 0
  IsLoaded s set c end =
      load json.fixed_states (window cfg)
        (unix_nano (ex.now (looked float store clock json ex codec key cfg config_law m fw s set)))
        (found float store clock json ex codec key cfg config_law m fw s set)
      ≡ counted c end

  -- One request that finds `c` requests counted in its window.
  request_counts :
      (s : Service F W) (set : Configured s) (c : ℕ) (end : ℤ)
      → pos 0 ≤ℤ end
      → IsInt64 (end +ℤ second)
      → IsLoaded s set c end
      → ex.now (request float store clock json key s).1.world <ℤ end
      → (status_code (request float store clock json key s).0 ≡ some (if ltb c m then 200 else 429))
        × CountsAt (next_count m c) end (request float store clock json key s).1
  request_counts s set c end low fits loads before =
      let after = request_after float store clock json key ex s named in
      let (resp, answered, same, later, counts) =
        check-Counts float store clock json ex codec key cfg config_law m fw s set c end low fits
          loads (rw after at before) in
      (
        rw (request_status float store clock json key ex s resp named answered, same) refl,
        rw after counts,
      )

  request_counts_kept :
      (s : Service F W) (c : ℕ) (end : ℤ)
      → pos 0 ≤ℤ end
      → IsInt64 (end +ℤ second)
      → CountsAt c end s
      → ex.now (request float store clock json key s).1.world <ℤ end
      → (status_code (request float store clock json key s).0 ≡ some (if ltb c m then 200 else 429))
        × CountsAt (next_count m c) end (request float store clock json key s).1
  request_counts_kept s c end low fits counts before =
      request_counts s counts.set c end low fits
        (loads_kept float store clock json ex codec key cfg config_law m fw s counts.set c end low
          fits counts (rw (request_after float store clock json key ex s named) at before))
        before

  limiter_apart :
      (r : Request) (s : Service F W)
      → IsOther key r
      → Apart float store clock json ex
          (IsOwn key)
          (limiter_key key cfg.algorithm)
          s
          (serve float store clock json r s).1
  limiter_apart r s is_other =
      rw fw.algorithm (other_apart float store clock json key ex r s is_other)

  -- From a window that has `left` requests left.
  statuses_inside :
      (end : ℤ) (c left : ℕ) (calls : List Call) (s : Service F W)
      → pos 0 ≤ℤ end
      → IsInt64 (end +ℤ second)
      → c + left ≡ m
      → CountsAt c end s
      → AreOthers key calls
      → AnsweredBefore float store clock json key ex end calls s
      → statuses float store clock json key calls s ≡ promised left (own_checks calls)
  unfolding statuses promised own_checks
  statuses_inside end c left [] s low fits all counts others soon = refl
  statuses_inside end c left (own ∷ calls) s low fits all counts others soon =
      let (code, next) = request_counts_kept s c end low fits counts soon.0 in
      rw (promised_next m c left (own_checks calls) all, code)
        (ap (λ codes. some (if ltb c m then 200 else 429) ∷ codes)
          (statuses_inside end (next_count m c) (left - 1) calls
            (request float store clock json key s).1 low fits (left_next m c left all) next others
            soon.1))
  statuses_inside end c left (other r ∷ calls) s low fits all counts others soon =
      let s' = (serve float store clock json r s).1 in
      let apart = limiter_apart r s others.0 in
      statuses_inside end c left calls s' low fits all
        (Apart-Counts float store clock json ex key codec cfg config_law m fw s s' apart c end
          counts)
        others.1 soon

  -- From a store without a state for the key.
  pub statuses_fresh :
      (horizon : ℤ) (calls : List Call) (s : Service F W)
      → Configured s
      → ((t : ℤ) → ex.shown s.world (state_key key) t ≡ "")
      → horizon ≤ℤ ex.now s.world +ℤ window_duration cfg
      → IsInt64 (horizon +ℤ window_duration cfg +ℤ second)
      → AreOthers key calls
      → AnsweredBefore float store clock json key ex horizon calls s
      → statuses float store clock json key calls s ≡ promised m (own_checks calls)
  unfolding statuses promised own_checks
  statuses_fresh horizon [] s set unset near fits others soon = refl
  statuses_fresh horizon (other r ∷ calls) s set unset near fits others soon =
      let s' = (serve float store clock json r s).1 in
      let apart = limiter_apart r s others.0 in
      statuses_fresh horizon calls s'
        (Apart-IsConfigured float store clock json ex key codec cfg config_law m fw s s' apart set)
        (λ t.
          Apart-state float store clock json ex key codec cfg config_law m fw s s' apart t
          ∙ unset t)
        (omega (int_laws, near, apart.store_same.later)) fits others.1 soon
  statuses_fresh horizon (own ∷ calls) s set unset near fits others soon =
      let length = window_duration cfg in
      let start = ex.now (looked float store clock json ex codec key cfg config_law m fw s set) in
      let order = looks_before float store clock json ex codec key cfg config_law m fw s set in
      let before : ex.now
            (after_check float store clock json ex codec key cfg config_law m fw s).world
          <ℤ horizon =
        rw (request_after float store clock json key ex s named) at soon.0 in
      let positive : pos 0 ≤ℤ length = omega (int_laws, order.0, order.1, order.2, before) in
      let low : pos 0 ≤ℤ start +ℤ length = omega (int_laws, order.0, set.after_epoch) in
      let later : horizon ≤ℤ start +ℤ length = omega (int_laws, order.0, near) in
      let end_fits =
        IsInt64-between (pos 0) (start +ℤ length +ℤ second) (horizon +ℤ length +ℤ second)
          (omega arith) fits (omega int_laws) (omega (int_laws, order.1, order.2, before)) in
      let loads =
        loads_fresh float store clock json ex codec key cfg config_law m fw s set (unset _) positive
          end_fits in
      let (code, next) =
        request_counts s set 0 (start +ℤ length) low end_fits loads
          (omega (arith, soon.0, later)) in
      rw (promised_next m 0 m (own_checks calls) (omega arith), code)
        (ap (λ codes. some (if ltb 0 m then 200 else 429) ∷ codes)
          (statuses_inside (start +ℤ length) (next_count m 0) (m - 1) calls
            (request float store clock json key s).1 low end_fits (left_next m 0 m (omega arith))
            next others
            (AnsweredBefore-later float store clock json key ex horizon (start +ℤ length) calls
              (request float store clock json key s).1 later soon.1)))
