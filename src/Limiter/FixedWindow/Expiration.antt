-- ===== src/Limiter/FixedWindow/Expiration.antt =====
-- The expiration of the stored window, beside the end of the window.
use throttle.Prelude.{◌≡◌, true, false, ◌-◌, arith, Bool-cases, inl, inr}
use throttle.Int.{ℤ, pos, negsuc, ◌+ℤ◌, ◌-ℤ◌, ◌≤ℤ◌, ◌<ℤ◌, ltb_ℤ, ltb→lt_ℤ, int_laws}
use throttle.Int64.{IsInt64, IsInt64-between, two_63, add64, add64-eq}
use throttle.Time.{time_sub, saturate-eq, second}
use throttle.Limiter.FixedWindow.{FixedWindow, expiration_after}

module _ (fw : FixedWindow) (end now set_at : ℤ) (positive : pos 0 ≤ℤ fw.window_duration)
    (end_nonneg : pos 0 ≤ℤ end) (now_nonneg : pos 0 ≤ℤ now)
    (end_le : end ≤ℤ now +ℤ fw.window_duration)
    (fits : IsInt64 (now +ℤ fw.window_duration +ℤ second)) (order : now ≤ℤ set_at) where
  open fw use {window_duration}

  until-eq : time_sub end now ≡ end -ℤ now
  unfolding time_sub
  until-eq = saturate-eq (end -ℤ now) (
      IsInt64-between (negsuc (two_63 - 1)) (end -ℤ now) (now +ℤ window_duration +ℤ second)
        (omega arith) fits (omega int_laws) (omega int_laws))

  sum-eq : add64 (time_sub end now) second ≡ end -ℤ now +ℤ second
  sum-eq = rw until-eq (
      add64-eq (end -ℤ now) second (
        IsInt64-between (negsuc (two_63 - 1)) (end -ℤ now +ℤ second)
          (now +ℤ window_duration +ℤ second) (omega arith) fits (omega int_laws) (omega int_laws)))

  whole-eq : add64 window_duration second ≡ window_duration +ℤ second
  whole-eq = add64-eq window_duration second (
      IsInt64-between (pos 0) (window_duration +ℤ second) (now +ℤ window_duration +ℤ second)
        (omega arith) fits (omega int_laws) (omega int_laws))

  expiration_open :
      ltb_ℤ (add64 (time_sub end now) second) (pos 0) ≡ false
      → expiration_after fw (time_sub end now) ≡ end -ℤ now +ℤ second
  unfolding expiration_after
  expiration_open test = rw test sum-eq

  expiration_over :
      ltb_ℤ (add64 (time_sub end now) second) (pos 0) ≡ true
      → expiration_after fw (time_sub end now) ≡ window_duration +ℤ second
  unfolding expiration_after
  expiration_over test = rw test whole-eq

  -- A state that has expired at `t` belongs to a window that ended more than a second before.
  pub expired_late :
      (t : ℤ) → set_at +ℤ expiration_after fw (time_sub end now) <ℤ t → end +ℤ second <ℤ t
  expired_late t h = elim (Bool-cases (ltb_ℤ (add64 (time_sub end now) second) (pos 0))) [
    | inl test ↦
        let over = ltb→lt_ℤ (end -ℤ now +ℤ second) (pos 0) (rw sum-eq at test) in
        let late = (rw (expiration_over test) at h) in omega int_laws
    | inr test ↦ let late = (rw (expiration_open test) at h) in omega int_laws
  ]
