-- ===== src/Limiter/SlidingWindow/Recent.antt =====
-- The loop of sliding_window.go that drops the old timestamps, on timestamps in order, beside the
-- recent ones among them.
use throttle.Prelude.{
  ◌≡◌, refl, List, [], ◌∷◌, ◌++◌, arith, keep_where, count_where, ap, length, Bool-cases, inl, inr,
}
use throttle.Int.{ℤ, ◌≤ℤ◌, ◌<ℤ◌, ltb_ℤ, lt→ltb_ℤ, ltb→lt_ℤ, le→ltb_ℤ}
use throttle.Limiter.SlidingWindow.{filtered}

-- Times in order, from `lo` on and up to `hi`.
abbrev pub Rising : ℤ → List ℤ → ℤ → Type 0
Rising lo [] hi = lo ≤ℤ hi
Rising lo (x ∷ xs) hi = (lo ≤ℤ x) × Rising x xs hi

-- The times after `start`.
abbrev pub recent : ℤ → List ℤ → List ℤ
recent start = keep_where (ltb_ℤ start)

all_kept : (start lo hi : ℤ) (xs : List ℤ) → start <ℤ lo → Rising lo xs hi → xs ≡ recent start xs
all_kept start lo hi [] h r = refl
all_kept start lo hi (x ∷ xs) h r =
    rw (lt→ltb_ℤ start x (omega arith))
      (ap (λ ys. x ∷ ys) (all_kept start x hi xs (omega arith) r.1))

pub filtered-recent :
    (start lo hi : ℤ) (xs : List ℤ) → Rising lo xs hi → filtered start xs ≡ recent start xs
unfolding filtered
filtered-recent start lo hi [] r = refl
filtered-recent start lo hi (x ∷ xs) r = elim (Bool-cases (ltb_ℤ start x)) [
  | inl after ↦ rw after (ap (λ ys. x ∷ ys) (all_kept start x hi xs (ltb→lt_ℤ start x after) r.1))
  | inr before ↦ rw before (filtered-recent start x hi xs r.1)
]

Rising-weaken : (lo x hi : ℤ) (xs : List ℤ) → lo ≤ℤ x → Rising x xs hi → Rising lo xs hi
Rising-weaken lo x hi [] h r = omega arith
Rising-weaken lo x hi (y ∷ ys) h r = (omega arith, r.1)

pub Rising-recent :
    (start lo hi : ℤ) (xs : List ℤ) → Rising lo xs hi → Rising lo (recent start xs) hi
Rising-recent start lo hi [] r = r
Rising-recent start lo hi (x ∷ xs) r = elim (Bool-cases (ltb_ℤ start x)) [
  | inl after ↦ rw after (r.0, Rising-recent start x hi xs r.1)
  | inr before ↦
      rw before (Rising-weaken lo x hi (recent start xs) r.0 (Rising-recent start x hi xs r.1))
]

pub Rising-append :
    (lo hi now : ℤ) (xs : List ℤ) → Rising lo xs hi → hi ≤ℤ now → Rising lo (xs ++ now ∷ []) now
Rising-append lo hi now [] r h = (omega arith, omega arith)
Rising-append lo hi now (x ∷ xs) r h = (r.0, Rising-append x hi now xs r.1 h)

pub Rising-mono : (lo hi now : ℤ) (xs : List ℤ) → Rising lo xs hi → hi ≤ℤ now → Rising lo xs now
Rising-mono lo hi now [] r h = omega arith
Rising-mono lo hi now (x ∷ xs) r h = (r.0, Rising-mono x hi now xs r.1 h)

-- Narrowing twice is narrowing once, to the later start.
pub recent-recent : (s t : ℤ) (xs : List ℤ) → s ≤ℤ t → recent t (recent s xs) ≡ recent t xs
recent-recent s t [] h = refl
recent-recent s t (x ∷ xs) h = ground (arith, recent-recent s t xs h)

pub recent-append : (s : ℤ) (xs ys : List ℤ) → recent s (xs ++ ys) ≡ recent s xs ++ recent s ys
recent-append s [] ys = refl
recent-append s (x ∷ xs) ys = ground (arith, recent-append s xs ys)

pub length-recent : (s : ℤ) (xs : List ℤ) → length (recent s xs) ≡ count_where (ltb_ℤ s) xs
length-recent s [] = refl
length-recent s (x ∷ xs) = ground (arith, length-recent s xs)

pub recent_none :
    (start lo hi : ℤ) (xs : List ℤ) → Rising lo xs hi → hi ≤ℤ start → recent start xs ≡ []
recent_none start lo hi [] r h = refl
recent_none start lo hi (x ∷ xs) r h =
    rw (le→ltb_ℤ start x (Rising-le lo x hi xs r.1 h)) (recent_none start x hi xs r.1 h)
  where
    Rising-le : (lo x hi : ℤ) (xs : List ℤ) → Rising x xs hi → hi ≤ℤ start → x ≤ℤ start
    Rising-le lo x hi [] r h = omega arith
    Rising-le lo x hi (y ∷ ys) r h = omega (arith, Rising-le lo y hi ys r.1 h)
