-- ===== src/Memory/SortedSets.antt =====
-- The sorted sets of the in-memory store.
use throttle.Prelude.{
  String, ◌≡◌, refl, ap, Bool, true, false, Option, none, some, [], ◌∷◌, arith, ◌==◌, eq_refl,
  eq_iff, if◌then◌else◌, length, leb,
}
use throttle.Int.{ℤ, pos}
use throttle.Exec.{ok, returns}
use throttle.Float64.{Float64}
use throttle.Dict
use throttle.Dict.{Dict}
use throttle.Dict.Laws.{lookup-insert, lookup-delete}
use throttle.Memory.Values.{next_time}
use throttle.Memory.{
  is_expired, World, SortedSet, in_range, z_count, z_rem_range_by_score, rem_range,
}

module _ {ℓ} {V : Type ℓ} where
  count-delete_where :
      (test : V → Bool) (m : Dict V) → Dict.count test (Dict.delete_where test m) ≡ 0
  unfolding Dict.count Dict.delete_where
  count-delete_where test [] = refl
  count-delete_where test ((j, v) ∷ m) = ground (arith, count-delete_where test m)

  -- What the test keeps is counted as before.
  count-delete_where_apart :
      (test kept : V → Bool) (m : Dict V)
      → ((v : V) → kept v ≡ true → test v ≡ false)
      → Dict.count kept (Dict.delete_where test m) ≡ Dict.count kept m
  unfolding Dict.count Dict.delete_where
  count-delete_where_apart test kept [] apart = refl
  count-delete_where_apart test kept ((j, v) ∷ m) apart =
      ground (arith, count-delete_where_apart test kept m apart, apart v)

  count_none : (test : V → Bool) (m : Dict V) → leb (length m) 0 ≡ true → Dict.count test m ≡ 0
  unfolding Dict.count
  count_none test [] h = refl
  count_none test (x ∷ m) h = ground arith

module _ {F : Type 0} (float : Float64 F) where
  -- What stands under a key, expired or not.
  abbrev pub set_at : World F → String → Option (SortedSet F)
  set_at w k = Dict.lookup k w.memory.sorted_sets

  -- How many members have a score of the range at the time `t`.
  abbrev live_count : F → F → ℤ → Option (SortedSet F) → ℤ
  live_count lo hi t none = pos 0
  live_count lo hi t (some zset) =
      if is_expired zset.expiration t
      then pos 0
      else pos (Dict.count (in_range float lo hi) zset.members)

  z_count_view :
      (w : World F) (k : String) (lo hi : F)
      → (z_count float k lo hi w).0 ≡ returns (ok (live_count lo hi (next_time w) (set_at w k)))
  unfolding z_count
  z_count_view w k lo hi = ground arith

  abbrev without : F → F → Option (SortedSet F) → Option (SortedSet F)
  without lo hi none = none
  without lo hi (some zset) =
      let rest = Dict.delete_where (in_range float lo hi) zset.members in
      if leb (length rest) 0 then none else some (record zset { members = rest })

  set_at-rem_range :
      (w : World F) (k j : String) (lo hi : F) (o : Option (SortedSet F))
      → set_at w k ≡ o
      → set_at (rem_range float k lo hi o w) j ≡ (if k == j then without lo hi o else set_at w j)
  set_at-rem_range w k j lo hi none e = ground (arith, eq_iff k j)
  set_at-rem_range w k j lo hi (some zset) e =
      let rest = Dict.delete_where (in_range float lo hi) zset.members in
      ground (
        arith,
        lookup-delete k j w.memory.sorted_sets,
        lookup-insert k j (record zset { members = rest }) w.memory.sorted_sets,
      )

  set_at-z_rem_range :
      (w : World F) (k j : String) (lo hi : F)
      → set_at (z_rem_range_by_score float k lo hi w).1 j
        ≡ (if k == j then without lo hi (set_at w k) else set_at w j)
  unfolding z_rem_range_by_score
  set_at-z_rem_range w k j lo hi = set_at-rem_range w k j lo hi (set_at w k) refl

  live_count-without :
      (lo hi : F) (t : ℤ) (o : Option (SortedSet F)) → live_count lo hi t (without lo hi o) ≡ pos 0
  live_count-without lo hi t none = refl
  live_count-without lo hi t (some zset) =
      let rest = Dict.delete_where (in_range float lo hi) zset.members in
      ground (arith, count-delete_where (in_range float lo hi) zset.members)

  live_count_apart :
      (lo hi lo' hi' : F) (t : ℤ) (o : Option (SortedSet F))
      → ((x : F) → in_range float lo' hi' x ≡ true → in_range float lo hi x ≡ false)
      → live_count lo' hi' t (without lo hi o) ≡ live_count lo' hi' t o
  live_count_apart lo hi lo' hi' t none apart = refl
  live_count_apart lo hi lo' hi' t (some zset) apart =
      let rest = Dict.delete_where (in_range float lo hi) zset.members in
      ground (
        arith,
        count-delete_where_apart (in_range float lo hi) (in_range float lo' hi') zset.members apart,
        count_none (in_range float lo' hi') rest,
      )

  -- The clock is not read.
  next_time-z_rem_range :
      (w : World F) (k : String) (lo hi : F)
      → next_time (z_rem_range_by_score float k lo hi w).1 ≡ next_time w
  unfolding z_rem_range_by_score
  next_time-z_rem_range w k lo hi = unread (set_at w k)
    where
      unread : (o : Option (SortedSet F)) → next_time (rem_range float k lo hi o w) ≡ next_time w
      unread none = refl
      unread (some zset) = refl

  -- For another key `j` and a range that has no score in common with the first: after ZRemRangeByScore
  -- the count of the key over its range is zero, its count over the other range is what it was, and so
  -- is the count of `j` over the first range.
  pub z_count-z_rem_range_by_score :
      (w : World F) (k j : String) (lo hi lo' hi' : F)
      → ((x : F) → in_range float lo' hi' x ≡ true → in_range float lo hi x ≡ false)
      → (k == j) ≡ false
      → let after = (z_rem_range_by_score float k lo hi w).1 in
        ((z_count float k lo hi after).0 ≡ returns (ok (pos 0)))
        × ((z_count float k lo' hi' after).0 ≡ (z_count float k lo' hi' w).0)
        × ((z_count float j lo hi after).0 ≡ (z_count float j lo hi w).0)
  z_count-z_rem_range_by_score w k j lo hi lo' hi' apart other =
      let after = (z_rem_range_by_score float k lo hi w).1 in
      let same = eq_refl k in
      (
        rw
            (
              z_count_view after k lo hi,
              set_at-z_rem_range w k k lo hi,
              same,
              live_count-without lo hi (next_time after) (set_at w k),
            )
            refl,
        rw
            (
              z_count_view after k lo' hi',
              z_count_view w k lo' hi',
              set_at-z_rem_range w k k lo hi,
              same,
              next_time-z_rem_range w k lo hi,
            )
            (ap (λ n. returns (ok n))
              (live_count_apart lo hi lo' hi' (next_time w) (set_at w k) apart)),
        rw
            (
              z_count_view after j lo hi,
              z_count_view w j lo hi,
              set_at-z_rem_range w k j lo hi,
              other,
              next_time-z_rem_range w k lo hi,
            )
            refl,
      )
