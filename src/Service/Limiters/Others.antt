-- ===== src/Service/Limiters/Others.antt =====
-- What `GetOrCreateLimiter` leaves alone.
use throttle.Prelude.{
  String, ◌≡◌, refl, false, arith, sym, ap, ◌∙◌, Bool-cases, ◌+◌, ◌==◌, eq_iff, inl, inr, ◌⊎◌,
  Option-cases,
}
use Prim.Native.String.{◌++◌, count}
use throttle.Int.{ℤ}
use throttle.Exec.{Result, ok, err, Outcome, returns, panics, Result-cases}
use throttle.Float64.{Float64}
use throttle.Dict
use throttle.Dict.{Dict}
use throttle.Dict.Laws.{lookup-insert}
use throttle.Service.Config.{
  RateLimitConfig, token_bucket, sliding_window, fixed_window, leaky_bucket,
}
use throttle.Service.Limiters.{
  Limiter, Service, limiter_key, leak_rate, new_limiter, get_or_create_limiter,
}
use text.Mathlib.TextLemmas.{append_cancel_right, append_assoc, length-append, append_inj}

abbrev pub IsKnown : String → Type 0
IsKnown algorithm =
    (algorithm ≡ token_bucket)
    ⊎ (algorithm ≡ sliding_window)
    ⊎ (algorithm ≡ fixed_window)
    ⊎ (algorithm ≡ leaky_bucket)

-- Texts that end in different texts of one length.
endings_differ :
    (p q s t : String) → count s ≡ count t → (s == t) ≡ false → ((p ++ s) == (q ++ t)) ≡ false
endings_differ p q s t lengths differ = elim (Bool-cases ((p ++ s) == (q ++ t))) [
  | inr other ↦ other
  | inl same ↦
      let e = (eq_iff (p ++ s) (q ++ t)).0 same in
      let both : count p + count s ≡ count q + count t =
        sym (length-append p s) ∙ ap count e ∙ length-append q t in
      let parts = append_inj e (omega (arith, both, lengths)) in
      ground (arith, parts.1, eq_iff s t, differ)
]

pub limiter_key-eq :
    (key other algorithm : String)
    → (other == key) ≡ false
    → IsKnown algorithm
    → (limiter_key other algorithm == limiter_key key fixed_window) ≡ false
unfolding limiter_key
limiter_key-eq key other algorithm differ known = elim known [
  | inl e ↦ rw e (endings_differ other key ":token_bucket" ":fixed_window" refl refl)
  | inr (inl e) ↦ rw e (
      rw (sym (append_assoc other ":s" "liding_window"))
        (endings_differ (other ++ ":s") key "liding_window" ":fixed_window" refl refl))
  | inr (inr (inl e)) ↦ rw e (
      ground (
        arith,
        eq_iff (other ++ ":fixed_window") (key ++ ":fixed_window"),
        append_cancel_right other key ":fixed_window",
        eq_iff other key,
        differ,
      ))
  | inr (inr (inr e)) ↦ rw e (endings_differ other key ":leaky_bucket" ":fixed_window" refl refl)
]

module _ {F : Type 0} (float : Float64 F) where
  new_limiter-IsKnown :
      (cfg : RateLimitConfig) (rate : ℤ) (lim : Limiter F)
      → new_limiter float cfg rate ≡ ok lim
      → IsKnown cfg.algorithm
  unfolding new_limiter
  new_limiter-IsKnown cfg rate lim made = ground (
    arith,
    eq_iff cfg.algorithm token_bucket,
    eq_iff cfg.algorithm sliding_window,
    eq_iff cfg.algorithm fixed_window,
    eq_iff cfg.algorithm leaky_bucket,
  )

  -- A limiter is made, if at all, for this key and algorithm only.
  pub get_or_create_limiter_others :
      {W : Type 0} (own key : String) (cfg : RateLimitConfig) (s : Service F W)
      → (IsKnown cfg.algorithm → (key == own) ≡ false)
      → (o : Outcome (Result (Limiter F))) × (kept : Dict (Limiter F)) × (get_or_create_limiter
            float key cfg s
          ≡ (o, record s { limiters = kept }))
        × (Dict.lookup own kept ≡ Dict.lookup own s.limiters)
  unfolding get_or_create_limiter
  get_or_create_limiter_others own key cfg s apart =
      elim (Option-cases (Dict.lookup key s.limiters)) [
        | inr (lim, found) ↦ (returns (ok lim), s.limiters, rw found refl, refl)
        | inl missing ↦ elim (Option-cases (leak_rate cfg)) [
          | inl stuck ↦ (panics, s.limiters, rw (missing, stuck) refl, refl)
          | inr (rate, divides) ↦ elim (Result-cases (new_limiter float cfg rate)) [
            | inl (e, fails) ↦
                (returns (err e), s.limiters, rw (missing, divides, fails) refl, refl)
            | inr (lim, made) ↦
                let other = apart (new_limiter-IsKnown cfg rate lim made) in
                (
                  returns (ok lim),
                  Dict.insert key lim s.limiters,
                  rw (missing, divides, made) refl,
                  rw (lookup-insert key own lim s.limiters, other) refl,
                )
          ]
        ]
      ]
