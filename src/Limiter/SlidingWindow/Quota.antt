-- ===== src/Limiter/SlidingWindow/Quota.antt =====
-- The decisions of sliding_window.go over a sequence of requests, against a reference that keeps the
-- whole history and looks at the requests allowed in the last window.
use throttle.Prelude.{
  ℕ, suc, ◌≤◌, ◌≡◌, refl, sym, ◌∙◌, ap, Bool, true, false, ◌&&◌, List, [], ◌∷◌, ◌++◌, arith, length,
  count_where, if◌then◌else◌, Bool-cases, inl, inr,
}
use mathlib.Core.List.{append-nil, append_assoc}
use throttle.Int.{ℤ, pos, ◌-ℤ◌, ◌≤ℤ◌, ltb_ℤ, leb_ℤ, int_laws, -ℤ_parts}
use throttle.Int64.{sub64, sub64-eq, IsInt64}
use throttle.Limiter.Decisions.{granted}
use throttle.Limiter.SlidingWindow.{SlidingWindow, filtered, admit, step}
use throttle.Limiter.SlidingWindow.Recent.{
  Rising, recent, filtered-recent, Rising-recent, Rising-append, Rising-mono, recent-recent,
  recent-append, length-recent,
}

-- The program, each request starting from the timestamps that the one before it stored.
unfoldable pub decide : SlidingWindow → List ℤ → List ℤ → List Bool
decide sw stored [] = []
decide sw stored (t ∷ ts) =
    let (allowed, stored') = step sw t stored in allowed ∷ decide sw stored' ts

-- Fewer than the limit were allowed in the window that ends at `t`.
abbrev pub has_room : SlidingWindow → List ℤ → ℤ → Bool
has_room sw history t =
    ltb_ℤ (pos (count_where (ltb_ℤ (t -ℤ sw.window_duration)) history)) sw.max_requests

-- The reference: a request is allowed if fewer than the limit were allowed in the window before it.
unfoldable pub reference : SlidingWindow → List ℤ → List ℤ → List Bool
reference sw history [] = []
reference sw history (t ∷ ts) =
    let allowed = has_room sw history t in
    allowed ∷ reference sw (if allowed then history ++ t ∷ [] else history) ts

-- Times in order, from `lo` on, at which the window's start does not overflow.
abbrev pub InOrder : SlidingWindow → ℤ → List ℤ → Type 0
InOrder sw lo [] = Unit {0}
InOrder sw lo (t ∷ ts) = (lo ≤ℤ t) × IsInt64 (t -ℤ sw.window_duration) × InOrder sw t ts

module _ (sw : SlidingWindow) where
  open sw use {window_duration, max_requests}

  -- What is stored stands for the history: the two agree on what is recent from `last` on.
  record StandsFor (last : ℤ) (stored history : List ℤ) : Type 0 where
    lowest : ℤ
    rising : Rising lowest stored last
    agree :
        (t : ℤ)
        → last ≤ℤ t
        → recent (t -ℤ window_duration) stored ≡ recent (t -ℤ window_duration) history

  StandsFor-filtered :
      (last t : ℤ) (stored history : List ℤ)
      → StandsFor last stored history
      → last ≤ℤ t
      → StandsFor t (recent (t -ℤ window_duration) stored) history
  StandsFor-filtered last t stored history r le = record {
    lowest = r.lowest;
    rising =
        Rising-recent (t -ℤ window_duration) r.lowest t stored
          (Rising-mono r.lowest last t stored r.rising le);
    agree = λ u h.
        recent-recent (t -ℤ window_duration) (u -ℤ window_duration) stored (omega int_laws)
        ∙ r.agree u (omega int_laws);
  }

  StandsFor-append :
      (t : ℤ) (stored history : List ℤ)
      → StandsFor t stored history
      → StandsFor t (stored ++ t ∷ []) (history ++ t ∷ [])
  StandsFor-append t stored history r = record {
    lowest = r.lowest;
    rising = Rising-append r.lowest t t stored r.rising (omega arith);
    agree = λ u h.
        recent-append (u -ℤ window_duration) stored (t ∷ [])
        ∙ ap (λ xs. xs ++ recent (u -ℤ window_duration) (t ∷ [])) (r.agree u h)
        ∙ sym (recent-append (u -ℤ window_duration) history (t ∷ []));
  }

  module _ (last t : ℤ) (stored history : List ℤ) (r : StandsFor last stored history)
      (le : last ≤ℤ t) (fits : IsInt64 (t -ℤ window_duration)) where
    recent-stored : filtered (sub64 t window_duration) stored ≡ recent (t -ℤ window_duration) stored
    recent-stored =
        rw (sub64-eq t window_duration fits)
          (filtered-recent (t -ℤ window_duration) r.lowest last stored r.rising)

    count_stored :
        length (recent (t -ℤ window_duration) stored)
        ≡ count_where (ltb_ℤ (t -ℤ window_duration)) history
    count_stored = ap length (r.agree t le) ∙ length-recent (t -ℤ window_duration) history

    step_room :
        has_room sw history t ≡ true
        → step sw t stored ≡ (true, recent (t -ℤ window_duration) stored ++ t ∷ [])
    unfolding step admit
    step_room room = rw (recent-stored, count_stored, room)

    step_full :
        has_room sw history t ≡ false
        → step sw t stored ≡ (false, recent (t -ℤ window_duration) stored)
    unfolding step admit
    step_full full = rw (recent-stored, count_stored, full)

  decide-reference_from :
      (last : ℤ) (stored history ts : List ℤ)
      → StandsFor last stored history
      → InOrder sw last ts
      → decide sw stored ts ≡ reference sw history ts
  unfolding decide reference
  decide-reference_from last stored history [] r h = refl
  decide-reference_from last stored history (t ∷ ts) r h =
      let kept = StandsFor-filtered last t stored history r h.0 in
      elim (Bool-cases (has_room sw history t)) [
        | inl room ↦
            rw (step_room last t stored history r h.0 h.1 room, room)
              (ap (λ bs. true ∷ bs)
                (decide-reference_from t _ (history ++ t ∷ []) ts
                  (StandsFor-append t _ history kept) h.2))
        | inr full ↦
            rw (step_full last t stored history r h.0 h.1 full, full)
              (ap (λ bs. false ∷ bs) (decide-reference_from t _ history ts kept h.2))
      ]

  -- From an empty store, and for requests in order at times at which the window's start does not
  -- overflow, the program decides every request as the
  -- reference that keeps the whole history does.
  pub decide-reference :
      (lo : ℤ) (ts : List ℤ) → InOrder sw lo ts → decide sw [] ts ≡ reference sw [] ts
  decide-reference lo ts h =
      decide-reference_from lo [] [] ts
        (record { lowest = lo; rising = omega arith; agree = λ t le. refl }) h

  -- The requests allowed in the window (last - duration, last].
  abbrev pub in_window : ℤ → ℤ → Bool
  in_window last u = ltb_ℤ (last -ℤ window_duration) u && leb_ℤ u last

  window_count-le :
      (s last : ℤ) (history : List ℤ)
      → s ≤ℤ last
      → count_where (in_window last) history ≤ count_where (ltb_ℤ (s -ℤ window_duration)) history
  window_count-le s last [] h = omega arith
  window_count-le s last (u ∷ us) h = ground (
    arith,
    window_count-le s last us h,
    -ℤ_parts s window_duration,
    -ℤ_parts last window_duration,
  )

  -- No window of the given length holds more than `m` of the requests.
  abbrev pub WithinLimit : ℕ → List ℤ → Type 0
  WithinLimit m history = (last : ℤ) → count_where (in_window last) history ≤ m

  count_where-append :
      (last t : ℤ) (history : List ℤ)
      → count_where (in_window last) (history ++ t ∷ []) ≡ (
          if in_window last t
          then suc (count_where (in_window last) history)
          else count_where (in_window last) history)
  count_where-append last t [] = refl
  count_where-append last t (u ∷ us) = ground (arith, count_where-append last t us)

  WithinLimit-append :
      (m : ℕ) (t : ℤ) (history : List ℤ)
      → max_requests ≡ pos m
      → has_room sw history t ≡ true
      → WithinLimit m history
      → WithinLimit m (history ++ t ∷ [])
  WithinLimit-append m t history limit room h last =
      rw (count_where-append last t history)
        (ground (arith, h last, window_count-le t last history))

  reference-WithinLimit :
      (m : ℕ) (history ts : List ℤ)
      → max_requests ≡ pos m
      → WithinLimit m history
      → WithinLimit m (history ++ granted ts (reference sw history ts))
  unfolding reference
  reference-WithinLimit m history [] limit h = rw append-nil h
  reference-WithinLimit m history (t ∷ ts) limit h = elim (Bool-cases (has_room sw history t)) [
    | inl room ↦ rw room (
        rw (append_assoc history (t ∷ [])) at (
          reference-WithinLimit m (history ++ t ∷ []) ts limit
            (WithinLimit-append m t history limit room h)))
    | inr full ↦ rw full (reference-WithinLimit m history ts limit h)
  ]

  -- For requests in order, at times at which the window's start does not overflow, from an empty
  -- store and with the limit `m`: no window of the configured length, wherever it ends, holds more
  -- than `m` requests that were allowed.
  pub decide-WithinLimit :
      (m : ℕ) (lo : ℤ) (ts : List ℤ)
      → max_requests ≡ pos m
      → InOrder sw lo ts
      → WithinLimit m (granted ts (decide sw [] ts))
  decide-WithinLimit m lo ts limit h =
      rw (decide-reference lo ts h) (reference-WithinLimit m [] ts limit (λ last. omega arith))
