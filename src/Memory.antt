-- ===== src/Memory.antt =====
-- internal/storage/memory.go. Every method holds the mutex for its whole body, so a method is one
-- step of the world; the background goroutine makes `remove_expired_keys` steps between them.
mod Tests
pub mod Scan
pub mod Readings
pub mod Values
pub mod Cleanup
pub mod SortedSets
pub mod Histories
use throttle.Prelude.{
  ℕ, zero, suc, String, Bool, true, false, not, ◌&&◌, Option, none, some, List, [], ◌∷◌, leb,
  length, if◌then◌else◌,
}
use throttle.Int.{ℤ, pos, ◌+ℤ◌, ltb_ℤ, leb_ℤ}
use throttle.Int64.{wrap64, add64}
use throttle.Exec.{Result, ok, err, Exec, pure, panic, ◌>>=◌, ◌>>◌}
use throttle.Time.{Clock, time_now, zero_time}
use throttle.Float64.{Float64}
use throttle.Storage.{Store}
use throttle.Dict
use throttle.Dict.{Dict}
use Scan.{print_int, scan_int}

pub record StorageValue : Type 0 where
  pub value : String
  pub expiration : ℤ

pub record SortedSet (F : Type 0) : Type 0 where
  pub members : Dict F
  pub expiration : ℤ

pub record MemoryStore (F : Type 0) : Type 0 where
  pub entries : Dict StorageValue
  pub sorted_sets : Dict (SortedSet F)
  -- `stopChan` has been closed
  pub stopped : Bool

-- The store with the clock that its methods read: `clock n` is what reading number `n` shows.
pub record World (F : Type 0) : Type 0 where
  pub clock : ℕ → ℤ
  pub readings : ℕ
  pub memory : MemoryStore F

-- `NewMemoryStore`
abbrev pub new_memory_store : {F : Type 0} → MemoryStore F
new_memory_store = record { entries = []; sorted_sets = []; stopped = false }

-- `expiration.IsZero()`
abbrev pub is_zero_time : ℤ → Bool
is_zero_time t = leb_ℤ t zero_time && leb_ℤ zero_time t

-- `!expiration.IsZero() && expiration.Before(now)`
abbrev pub is_expired : ℤ → ℤ → Bool
is_expired expiration now = not (is_zero_time expiration) && ltb_ℤ expiration now

-- The value that `Increment` writes over the one found.
abbrev incremented : Option StorageValue → ℤ
incremented none = pos 1
incremented (some val) = elim (scan_int val.value) [ none ↦ pos 1 | some n ↦ add64 n (pos 1) ]

-- The value that `IncrementBy` adds to.
abbrev current_val : Option StorageValue → ℤ
current_val none = pos 0
current_val (some val) = elim (scan_int val.value) [ none ↦ pos 0 | some n ↦ n ]

module _ {F : Type 0} where
  abbrev pub world_clock : Clock (World F)
  world_clock = record { read = λ w. (w.clock w.readings, record w { readings = suc w.readings }) }

  abbrev put_entries : Dict StorageValue → World F → World F
  put_entries es w = record w { memory = record w.memory { entries = es } }

  abbrev put_sorted_sets : Dict (SortedSet F) → World F → World F
  put_sorted_sets zs w = record w { memory = record w.memory { sorted_sets = zs } }

  -- `ms.data[key] = &StorageValue{value, time.Now().Add(expiration)}`
  unfoldable pub store_value : String → String → ℤ → Exec (World F) (Unit {0})
  store_value key value expiration = do
    now ← time_now world_clock
    λ w. pure tt (
        put_entries
          (Dict.insert key (record { value = value; expiration = now +ℤ expiration })
            w.memory.entries)
          w)

  unfoldable pub remove_expired_keys : Exec (World F) (Unit {0})
  remove_expired_keys = do
    now ← time_now world_clock
    λ w. pure tt (
        put_sorted_sets (Dict.delete_where (λ z. is_expired z.expiration now) w.memory.sorted_sets)
          (put_entries (Dict.delete_where (λ v. is_expired v.expiration now) w.memory.entries) w))

  unfoldable pub increment : String → ℤ → Exec (World F) (Result ℤ)
  unfolding store_value
  increment key expiration w =
      let new_val = incremented (Dict.lookup key w.memory.entries) in
      (store_value key (print_int new_val) expiration >>= λ _. pure (ok new_val)) w

  unfoldable pub increment_by : String → ℤ → ℤ → Exec (World F) (Result ℤ)
  unfolding store_value
  increment_by key value expiration w =
      let new_val = add64 (current_val (Dict.lookup key w.memory.entries)) value in
      (store_value key (print_int new_val) expiration >>= λ _. pure (ok new_val)) w

  -- `now` is read only where the expiration is not the zero time.
  abbrev expired_now : ℤ → Exec (World F) Bool
  expired_now expiration = elim (is_zero_time expiration) [
    | true ↦ pure false
    | false ↦ do now ← time_now world_clock; pure (ltb_ℤ expiration now)
  ]

  abbrev read_value : Option StorageValue → Exec (World F) (Result String)
  read_value none = pure (ok "")
  read_value (some val) = do
    expired ← expired_now val.expiration
    pure (ok (if expired then "" else val.value))

  unfoldable pub get : String → Exec (World F) (Result String)
  get key w = read_value (Dict.lookup key w.memory.entries) w

  unfoldable pub set : String → String → ℤ → Exec (World F) (Result (Unit {0}))
  unfolding store_value
  set key value expiration = do store_value key value expiration; pure (ok tt)

  unfoldable pub delete : String → Exec (World F) (Result (Unit {0}))
  delete key w = pure (ok tt) (
      put_sorted_sets (Dict.delete key w.memory.sorted_sets)
        (put_entries (Dict.delete key w.memory.entries) w))

  abbrev members_of : Option (SortedSet F) → Dict F
  members_of none = []
  members_of (some zset) = zset.members

  unfoldable pub z_add : String → F → String → ℤ → Exec (World F) (Result (Unit {0}))
  z_add key score member expiration w =
      let members = Dict.insert member score (members_of (Dict.lookup key w.memory.sorted_sets)) in
      (do
        now ← time_now world_clock
        λ w'. pure (ok tt) (
            put_sorted_sets
              (Dict.insert key (record { members = members; expiration = now +ℤ expiration })
                w'.memory.sorted_sets)
              w'))
        w

  -- `val.expiration = time.Now().Add(expiration)`, where the key is there.
  abbrev expire_entry : String → ℤ → Option StorageValue → Exec (World F) (Unit {0})
  expire_entry key expiration none = pure tt
  expire_entry key expiration (some val) = do
    now ← time_now world_clock
    λ w. pure tt (
        put_entries
          (Dict.insert key (record val { expiration = now +ℤ expiration }) w.memory.entries) w)

  abbrev expire_set : String → ℤ → Option (SortedSet F) → Exec (World F) (Unit {0})
  expire_set key expiration none = pure tt
  expire_set key expiration (some zset) = do
    now ← time_now world_clock
    λ w. pure tt (
        put_sorted_sets
          (Dict.insert key (record zset { expiration = now +ℤ expiration }) w.memory.sorted_sets) w)

  unfoldable pub expire : String → ℤ → Exec (World F) (Result (Unit {0}))
  expire key expiration = do
    λ w. expire_entry key expiration (Dict.lookup key w.memory.entries) w
    λ w. expire_set key expiration (Dict.lookup key w.memory.sorted_sets) w
    pure (ok tt)

  unfoldable pub ping : Exec (World F) (Result (Unit {0}))
  ping = pure (ok tt)

  -- Closing a closed channel panics.
  unfoldable pub close : Exec (World F) (Result (Unit {0}))
  close w =
      if w.memory.stopped
      then panic w
      else pure (ok tt) (record w { memory = record w.memory { stopped = true } })

module _ {F : Type 0} (float : Float64 F) where
  -- `score >= min && score <= max`
  abbrev pub in_range : F → F → F → Bool
  in_range lo hi score = float.le lo score && float.le score hi

  abbrev rem_range : String → F → F → Option (SortedSet F) → World F → World F
  rem_range key lo hi none w = w
  rem_range key lo hi (some zset) w =
      let rest = Dict.delete_where (in_range lo hi) zset.members in
      put_sorted_sets
        (if leb (length rest) 0
          then Dict.delete key w.memory.sorted_sets
          else Dict.insert key (record zset { members = rest }) w.memory.sorted_sets)
        w

  unfoldable pub z_rem_range_by_score : String → F → F → Exec (World F) (Result (Unit {0}))
  z_rem_range_by_score key lo hi w =
      pure (ok tt) (rem_range key lo hi (Dict.lookup key w.memory.sorted_sets) w)

  abbrev count_range : F → F → Option (SortedSet F) → Exec (World F) (Result ℤ)
  count_range lo hi none = pure (ok (pos 0))
  count_range lo hi (some zset) = do
    expired ← expired_now zset.expiration
    pure (ok (if expired then pos 0 else pos (Dict.count (in_range lo hi) zset.members)))

  unfoldable pub z_count : String → F → F → Exec (World F) (Result ℤ)
  z_count key lo hi w = count_range lo hi (Dict.lookup key w.memory.sorted_sets) w

  -- The in-memory backend as a `Store`.
  abbrev pub memory_store : Store F (World F)
  memory_store = record {
    increment = increment;
    increment_by = increment_by;
    get = get;
    set = set;
    delete = delete;
    z_add = z_add;
    z_rem_range_by_score = z_rem_range_by_score;
    z_count = z_count;
    expire = expire;
    ping = ping;
    close = close;
  }
