-- ===== src/Memory/Cleanup.antt =====
-- The goroutine of memory.go that removes expired entries.
use throttle.Prelude.{
  ℕ, zero, suc, ◌+◌, String, ◌≡◌, refl, ap, ◌∙◌, Bool, true, false, Option, none, some, List, [],
  ◌∷◌, ◌++◌, replicate, arith, if◌then◌else◌,
}
use throttle.Int.{ℤ, ◌≤ℤ◌}
use throttle.Exec.{returns, Exec, pure, ◌>>◌}
use throttle.Dict.Laws.{lookup-delete_where}
use throttle.Memory.{World, StorageValue, is_expired, remove_expired_keys}
use throttle.Memory.Readings.{NeverBack, NeverBack-le}
use throttle.Memory.Values.{entry_at, next_time, IsStore, operations-IsStore}

-- What the `select` of `cleanupExpiredKeys` takes next: a tick, or the closed channel.
pub data CleanupEvent : Type 0 where
  ticked : CleanupEvent
  closed : CleanupEvent

-- An entry that has not expired at a time.
abbrev pub unexpired : ℤ → Option StorageValue → Option StorageValue
unexpired t none = none
unexpired t (some val) = if is_expired val.expiration t then none else some val

unexpired-later :
    (t u : ℤ) (o : Option StorageValue) → t ≤ℤ u → unexpired u (unexpired t o) ≡ unexpired u o
unexpired-later t u none le = refl
unexpired-later t u (some val) le = ground arith

module _ {F : Type 0} where
  -- `cleanupExpiredKeys`, for the events that it takes: whether it has returned.
  unfoldable pub cleanup_expired : List CleanupEvent → Exec (World F) Bool
  cleanup_expired [] = pure false
  cleanup_expired (closed ∷ events) = pure true
  cleanup_expired (ticked ∷ events) = remove_expired_keys >> cleanup_expired events

  entry_at-remove_expired_keys :
      (w : World F) (k : String)
      → IsStore w
      → entry_at (remove_expired_keys w).1 k ≡ unexpired (next_time w) (entry_at w k)
  unfolding remove_expired_keys
  entry_at-remove_expired_keys w k h =
      rw (lookup-delete_where k (λ v. is_expired v.expiration (next_time w)) w.memory.entries h)
        (ground arith)

  -- For a clock that never goes back and a store in which no key stands twice: after any number of
  -- ticks, one at least, and the closing of the channel, the cleanup has returned, and exactly the
  -- entries stand that had not expired at the last tick.
  pub cleanup_expired_lem :
      (n : ℕ) (rest : List CleanupEvent) (w : World F) (k : String)
      → NeverBack w.clock
      → IsStore w
      → let (ended, after) = cleanup_expired (replicate (suc n) ticked ++ closed ∷ rest) w in
        (ended ≡ returns true)
        × (entry_at after k ≡ unexpired (w.clock (n + w.readings)) (entry_at w k))
  unfolding cleanup_expired remove_expired_keys
  cleanup_expired_lem zero rest w k steady h =
      let last : w.readings ≡ 0 + w.readings = omega arith in
      (
        refl,
        entry_at-remove_expired_keys w k h ∙ ap (λ i. unexpired (w.clock i) (entry_at w k)) last,
      )
  cleanup_expired_lem (suc n) rest w k steady h =
      let cleaned = (remove_expired_keys w).1 in
      let (ended, stands) =
        cleanup_expired_lem n rest cleaned k steady
          (operations-IsStore w "" "" (next_time w) (next_time w) h).5 in
      let last : n + suc w.readings ≡ suc n + w.readings = omega arith in
      (
        ended,
        stands
            ∙ ap (λ i. unexpired (w.clock i) (entry_at cleaned k)) last
            ∙ ap (unexpired (w.clock (suc n + w.readings))) (entry_at-remove_expired_keys w k h)
            ∙ unexpired-later (next_time w) (w.clock (suc n + w.readings)) (entry_at w k)
                (NeverBack-le w.clock steady w.readings (suc n + w.readings) (omega arith)),
      )
