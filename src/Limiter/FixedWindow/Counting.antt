-- ===== src/Limiter/FixedWindow/Counting.antt =====
-- One request through `Allow` of fixed_window.go inside a window, over a store with expirations.
use throttle.Prelude.{
  ℕ, suc, ◌<◌, String, ◌≡◌, refl, ap, ◌∙◌, Bool, false, arith, ◌==◌, eq_iff, if◌then◌else◌, ltb,
}
use throttle.Int.{ℤ, pos, ◌+ℤ◌, ◌-ℤ◌, ◌≤ℤ◌, ◌<ℤ◌, le→ltb_ℤ, int_laws}
use throttle.Int64.{IsInt64, IsInt64-between, two_63, add64-eq, add64-pos, wrap64-eq}
use throttle.Exec.{ok, returns}
use throttle.Time.{Clock, unix_nano, time_sub, saturate-eq, second}
use throttle.Codec.{Codec, IsCodecAt}
use throttle.Storage.{Store}
use throttle.Storage.Expiring.{IsExpiring}
use throttle.Limiter.{verdict}
use throttle.Limiter.FixedWindow.{
  FixedWindow, FixedWindowState, roll, admit, load, expiration_after, state_key, allow,
}
use throttle.Limiter.FixedWindow.Quota.{counted}

module _ (end : ℤ) (low : pos 0 ≤ℤ end) (fits : IsInt64 (end +ℤ second)) where
  -- The time to live of a state whose window has not ended.
  expiration_inside :
      (fw : FixedWindow) (t : ℤ)
      → pos 0 ≤ℤ t
      → t <ℤ end
      → expiration_after fw (time_sub end t) ≡ end -ℤ t +ℤ second
  unfolding expiration_after time_sub
  expiration_inside fw t nonneg before =
      let until = saturate-eq (end -ℤ t) (
        IsInt64-between (pos 0) (end -ℤ t) (end +ℤ second) (omega arith) fits (omega int_laws)
          (omega int_laws)) in
      let sum = add64-eq (end -ℤ t) second (
        IsInt64-between (pos 0) (end -ℤ t +ℤ second) (end +ℤ second) (omega arith) fits
          (omega int_laws) (omega int_laws)) in
      rw (until, sum, le→ltb_ℤ (end -ℤ t +ℤ second) (pos 0) (omega int_laws)) refl

  pub unix_nano-inside : (t : ℤ) → pos 0 ≤ℤ t → t ≤ℤ end → unix_nano t ≡ t
  unfolding unix_nano
  unix_nano-inside t nonneg before =
      wrap64-eq t
        (IsInt64-between (pos 0) t (end +ℤ second) (omega arith) fits nonneg (omega int_laws))

  pub load-counted :
      (json : Codec FixedWindowState) (fw : FixedWindow) (c : ℕ) (t : ℤ)
      (law : IsCodecAt json (counted c end))
      → t <ℤ end
      → load json fw t law.text ≡ counted c end
  unfolding load roll
  load-counted json fw c t law before =
      ground (arith, law.unmarshals, law.nonempty, eq_iff law.text "")

pub load_fresh :
    (json : Codec FixedWindowState) (fw : FixedWindow) (t : ℤ)
    → IsInt64 (t +ℤ fw.window_duration)
    → load json fw t "" ≡ counted 0 (t +ℤ fw.window_duration)
unfolding load
load_fresh json fw t fits = rw (add64-eq t fw.window_duration fits) refl

-- The count after a request that finds `c` requests counted, of `m` at most.
abbrev pub next_count : ℕ → ℕ → ℕ
next_count m c = if ltb c m then suc c else c

admit-counted :
    (fw : FixedWindow) (m c : ℕ) (end : ℤ)
    → fw.max_requests ≡ pos m
    → m < two_63
    → admit fw (counted c end) ≡ (ltb c m, counted (next_count m c) end)
unfolding admit
admit-counted fw m c end limit small = rw limit (ground (arith, add64-pos c 1))

module _ {F W : Type 0} (store : Store F W) (clock : Clock W) (ex : IsExpiring store clock)
    (json : Codec FixedWindowState) (fw : FixedWindow) (key : String) (w : W) where
  abbrev pub begun : W
  begun = (clock.read w).1

  abbrev pub found_text : String
  found_text = ex.shown begun (state_key key) (ex.now begun)

  abbrev pub read_again : W
  read_again = (store.get (state_key key) begun).1

  abbrev pub decision : Bool × FixedWindowState
  decision = admit fw (load json fw (unix_nano (clock.read w).0) found_text)

  -- The world after a text was written for a window with this end, at this time.
  abbrev pub written_at : String → ℤ → ℤ → W
  written_at text end now =
      (store.set (state_key key) text (expiration_after fw (time_sub end now))
        (clock.read read_again).1).1

  pub written_at_later :
      (text : String) (end now : ℤ) → ex.now begun ≤ℤ ex.now (written_at text end now)
  written_at_later text end now = omega (
    arith,
    ex.get_later begun (state_key key),
    ex.read_later read_again,
    ex.set_later (clock.read read_again).1 (state_key key) text
        (expiration_after fw (time_sub end now)),
  )

  -- Any request writes the state that it decides on, where that can be written out.
  pub allow-admit :
      (text : String)
      → json.marshal decision.1 ≡ ok text
      → allow store clock json fw key w ≡ (
        returns (verdict decision.0),
        written_at text decision.1.window_end (clock.read read_again).0,
      )
  unfolding allow
  allow-admit text marshals = ground (
    arith,
    ex.get_answer begun (state_key key),
    marshals,
    ex.set_answer (clock.read read_again).1 (state_key key) text
        (expiration_after fw (time_sub decision.1.window_end (clock.read read_again).0)),
  )

  -- The limit, a window end, and a state of the window that the request finds.
  module _ (m c : ℕ) (end : ℤ) (limit : fw.max_requests ≡ pos m) (small : m < two_63)
      (loads : load json fw (unix_nano (ex.now w)) found_text ≡ counted c end)
      (law : IsCodecAt json (counted (next_count m c) end)) where
    abbrev pub written : W
    written = written_at law.text end (ex.now read_again)

    pub allow_run : allow store clock json fw key w ≡ (returns (verdict (ltb c m)), written)
    allow_run =
        let decided : decision ≡ (ltb c m, counted (next_count m c) end) =
          rw (ex.read_answer w, loads) (admit-counted fw m c end limit small) in
        allow-admit law.text (rw decided law.marshals)
        ∙ ap
            (λ (d : Bool × FixedWindowState).
              (returns (verdict d.0), written_at law.text d.1.window_end (clock.read read_again).0))
            decided
        ∙ ap (λ now. (returns (verdict (ltb c m)), written_at law.text end now))
            (ex.read_answer read_again)

    pub written_later : ex.now w ≤ℤ ex.now written
    written_later =
        omega (arith, ex.read_later w, written_at_later law.text end (ex.now read_again))

    -- The request ends before the window does.
    module _ (low : pos 0 ≤ℤ end) (fits : IsInt64 (end +ℤ second)) (nonneg : pos 0 ≤ℤ ex.now w)
        (before : ex.now written <ℤ end) where
      pub written_shown :
          (t : ℤ) → ex.now written ≤ℤ t → t ≤ℤ end → ex.shown written (state_key key) t ≡ law.text
      written_shown t later inside =
          let reading = ex.now read_again in
          let set_at = (clock.read read_again).1 in
          let begins = ex.get_later begun (state_key key) in
          let set_later =
            ex.set_later set_at (state_key key) law.text
              (expiration_after fw (time_sub end reading)) in
          let lasts =
            expiration_inside end low fits fw reading (omega (arith, ex.read_later w, begins))
              (omega (arith, ex.read_later read_again, set_later)) in
          ex.set_shown set_at (state_key key) law.text (expiration_after fw (time_sub end reading))
            t (rw lasts (omega (int_laws, ex.read_later read_again, set_later)))
            (omega (arith, set_later)) (rw lasts (omega (int_laws, ex.read_later read_again)))

    pub written_others :
        (j : String) (t : ℤ) → (state_key key == j) ≡ false → ex.shown written j t ≡ ex.shown w j t
    written_others j t other =
        let shown_set =
          ex.set_others (clock.read read_again).1 (state_key key) j law.text
            (expiration_after fw (time_sub end (ex.now read_again))) t other in
        cc (
          shown_set,
          ex.read_shown read_again j t,
          ex.get_shown begun (state_key key) j t,
          ex.read_shown w j t,
        )
