-- ===== src/Service/RateLimit/Counts.antt =====
-- internal/service/ratelimit.go: the count that `CheckLimit` keeps for a fixed window, over a store
-- with expirations.
use throttle.Prelude.{ℕ, String, ◌≡◌, refl, ap, ◌∙◌, arith, ltb, inr}
use throttle.Int.{ℤ, pos, ◌+ℤ◌, ◌≤ℤ◌, ◌<ℤ◌, int_laws}
use throttle.Int64.{IsInt64, IsInt64-between}
use throttle.Exec.{Outcome, Result, ok, returns}
use throttle.Time.{Clock, unix_nano, second}
use throttle.Float64.{Float64}
use throttle.Codec.{IsCodecAt}
use throttle.Storage.{Store}
use throttle.Storage.Expiring.{IsExpiring}
use throttle.Limiter.FixedWindow.{FixedWindowState, load, state_key}
use throttle.Limiter.FixedWindow.Quota.{counted}
use throttle.Limiter.FixedWindow.Counting
use throttle.Limiter.FixedWindow.Counting.{
  decision, written_at, written_at_later, allow-admit, allow_run, next_count, begun, found_text,
  unix_nano-inside, load-counted, load_fresh, written_later, written_shown, written_others,
}
use throttle.Service.Config.{RateLimitConfig}
use throttle.Service.Limiters.{CheckLimitResponse, Codecs, Service, config_key, window_duration}
use throttle.Service.RateLimit.{check_limit}
use throttle.Service.RateLimit.Checks.{
  IsFixedWindow, window, IsConfigured, check_run, state-ne-config,
}

module _ {F W : Type 0} (float : Float64 F) (store : Store F W) (clock : Clock W) (json : Codecs F)
    (ex : IsExpiring store clock)
    (codec : (state : FixedWindowState) → IsCodecAt json.fixed_states state) (key : String)
    (cfg : RateLimitConfig) (config_law : IsCodecAt json.configs cfg) (m : ℕ)
    (fw : IsFixedWindow m cfg) where
  abbrev Configured : Service F W → Type 0
  Configured s = IsConfigured float store clock json ex codec key cfg config_law m fw s

  abbrev pub after_check : Service F W → Service F W
  after_check s = (check_limit float store clock json key s).1

  abbrev three_reads : W → W
  three_reads w = (clock.read (clock.read (clock.read w).1).1).1

  reads_later : (w : W) → ex.now w ≤ℤ ex.now (three_reads w)
  reads_later w = omega (
    arith,
    ex.read_later w,
    ex.read_later (clock.read w).1,
    ex.read_later (clock.read (clock.read w).1).1,
  )

  reads_shown : (w : W) (j : String) (t : ℤ) → ex.shown (three_reads w) j t ≡ ex.shown w j t
  reads_shown w j t = rw (ex.read_shown, ex.read_shown, ex.read_shown) refl

  -- The window that ends at `end` is in the store, with `c` requests counted.
  pub record Counts (c : ℕ) (end : ℤ) (s : Service F W) : Type 0 where
    pub set : Configured s
    pub kept :
        (t : ℤ)
        → ex.now s.world ≤ℤ t
        → t ≤ℤ end
        → ex.shown s.world (state_key key) t ≡ (codec (counted c end)).text

  module _ (s : Service F W) (set : Configured s) where
    abbrev pub looked : W
    looked = (store.get (config_key key) s.world).1

    abbrev pub found : String
    found = found_text store clock ex json.fixed_states (window cfg) key looked

    -- The time at which the check reads the state is not after the check.
    pub looks_before :
        (ex.now s.world ≤ℤ ex.now looked)
        × (ex.now looked ≤ℤ ex.now (begun store clock ex json.fixed_states (window cfg) key looked))
        × (ex.now (begun store clock ex json.fixed_states (window cfg) key looked)
            ≤ℤ ex.now (after_check s).world)
    looks_before =
        let fixed_window = window cfg in
        let decided = decision store clock ex json.fixed_states fixed_window key looked in
        let text = (codec decided.1).text in
        let begins = begun store clock ex json.fixed_states fixed_window key looked in
        let reading = (clock.read (store.get (state_key key) begins).1).0 in
        let writes =
          written_at store clock ex json.fixed_states fixed_window key looked text
            decided.1.window_end reading in
        let (resp, after, run, same, in_world, own) =
          check_run float store clock json ex codec key cfg config_law m fw s decided.0 writes set (
            allow-admit store clock ex json.fixed_states fixed_window key looked text
              (codec decided.1).marshals) in
        let world : (after_check s).world ≡ three_reads writes =
          ap (λ (r : Outcome (Result CheckLimitResponse) × Service F W). r.1.world) run
          ∙ in_world in
        (
          ex.get_later s.world (config_key key),
          ex.read_later looked,
          rw world (
              omega (
                arith,
                written_at_later store clock ex json.fixed_states fixed_window key looked text
                    decided.1.window_end reading,
                reads_later writes,
              )),
        )

    found_shown :
        found
        ≡ ex.shown s.world
            (state_key key)
            (ex.now (begun store clock ex json.fixed_states (window cfg) key looked))
    found_shown = rw (ex.read_shown, ex.get_shown) refl

    -- What the check finds in a store without a state for the key,
    pub loads_fresh :
        ex.shown s.world
            (state_key key)
            (ex.now (begun store clock ex json.fixed_states (window cfg) key looked))
          ≡ ""
        → pos 0 ≤ℤ window_duration cfg
        → IsInt64 (ex.now looked +ℤ window_duration cfg +ℤ second)
        → load json.fixed_states (window cfg) (unix_nano (ex.now looked)) found
          ≡ counted 0 (ex.now looked +ℤ window_duration cfg)
    loads_fresh unset nonneg fits =
        let start = ex.now looked in
        let length = window_duration cfg in
        let begins : pos 0 ≤ℤ start = omega (arith, set.after_epoch, looks_before.0) in
        let ends =
          IsInt64-between (pos 0) (start +ℤ length) (start +ℤ length +ℤ second) (omega arith) fits
            (omega int_laws) (omega int_laws) in
        let time =
          unix_nano-inside (start +ℤ length) (omega int_laws) fits start begins (omega int_laws) in
        rw (time, found_shown, unset) (load_fresh json.fixed_states (window cfg) start ends)

    -- and in a window that has not ended.
    pub loads_kept :
        (c : ℕ) (end : ℤ)
        → pos 0 ≤ℤ end
        → IsInt64 (end +ℤ second)
        → Counts c end s
        → ex.now (after_check s).world <ℤ end
        → load json.fixed_states (window cfg) (unix_nano (ex.now looked)) found ≡ counted c end
    loads_kept c end low fits counts before =
        let nonneg : pos 0 ≤ℤ ex.now looked = omega (arith, set.after_epoch, looks_before.0) in
        let inside : ex.now looked <ℤ end = omega (arith, looks_before.1, looks_before.2) in
        let same =
          found_shown
          ∙ counts.kept _ (omega (arith, looks_before.0, looks_before.1))
              (omega (arith, looks_before.2)) in
        rw (same, unix_nano-inside end low fits (ex.now looked) nonneg (omega (arith, inside)))
          (load-counted end low fits json.fixed_states (window cfg) c (ex.now looked)
            (codec (counted c end)) inside)

    module _ (c : ℕ) (end : ℤ) (low : pos 0 ≤ℤ end) (fits : IsInt64 (end +ℤ second))
        (loads : load json.fixed_states (window cfg) (unix_nano (ex.now looked)) found
          ≡ counted c end) where
      abbrev next_law : IsCodecAt json.fixed_states (counted (next_count m c) end)
      next_law = codec (counted (next_count m c) end)

      abbrev written : W
      written =
          Counting.written store clock ex json.fixed_states (window cfg) key looked m c end fw.limit
            fw.small loads next_law

      module _ (before : ex.now (three_reads written) <ℤ end) where
        writes_before : ex.now written <ℤ end
        writes_before = omega (arith, reads_later written)

        nonneg : pos 0 ≤ℤ ex.now looked
        nonneg = omega (arith, set.after_epoch, looks_before.0)

        writes_later : ex.now s.world ≤ℤ ex.now (three_reads written)
        writes_later =
            let writes =
              written_later store clock ex json.fixed_states (window cfg) key looked m c end
                fw.limit fw.small loads next_law in
            omega (arith, writes, looks_before.0, reads_later written)

        config_kept : (t : ℤ) → ex.shown (three_reads written) (config_key key) t ≡ config_law.text
        config_kept t =
            reads_shown written (config_key key) t
            ∙ written_others store clock ex json.fixed_states (window cfg) key looked m c end
                fw.limit fw.small loads next_law (config_key key) t (state-ne-config key key)
            ∙ ex.get_shown s.world (config_key key) (config_key key) t
            ∙ set.configured t

        state_kept :
            (t : ℤ)
            → ex.now (three_reads written) ≤ℤ t
            → t ≤ℤ end
            → ex.shown (three_reads written) (state_key key) t ≡ next_law.text
        state_kept t later inside =
            reads_shown written (state_key key) t
            ∙ written_shown store clock ex json.fixed_states (window cfg) key looked m c end
                fw.limit fw.small loads next_law low fits nonneg writes_before t
                (omega (arith, later, reads_later written)) inside

      -- A request that finds `c` counted in its window is answered by the count, and leaves the next.
      pub check-Counts :
          ex.now (after_check s).world <ℤ end
          → (resp : CheckLimitResponse) × ((check_limit float store clock json key s).0
              ≡ returns (ok resp))
            × (resp.allowed ≡ ltb c m)
            × (ex.now s.world ≤ℤ ex.now (after_check s).world)
            × Counts (next_count m c) end (after_check s)
      check-Counts before =
          let (resp, after, run, same, in_world, own) =
            check_run float store clock json ex codec key cfg config_law m fw s (ltb c m) written
              set
              (allow_run store clock ex json.fixed_states (window cfg) key looked m c end fw.limit
                fw.small loads next_law) in
          let left = ap (λ (r : Outcome (Result CheckLimitResponse) × Service F W). r.1) run in
          let world : (after_check s).world ≡ three_reads written =
            ap (λ (s' : Service F W). s'.world) left ∙ in_world in
          let ends : ex.now (three_reads written) <ℤ end = rw world at before in
          (
            resp,
            ap (λ (r : Outcome (Result CheckLimitResponse) × Service F W). r.0) run,
            same,
            rw world (writes_later ends),
            record {
              set = record {
                configured = rw world (config_kept ends);
                made = inr (rw left own);
                after_epoch = rw world (omega (arith, set.after_epoch, writes_later ends));
              };
              kept = rw world (state_kept ends);
            },
          )
