-- ===== src/Memory/Histories.antt =====
-- Runs of the in-memory store of memory.go beside a map that is never cleaned up. Expire and the
-- increments stay out: they look at entries that have expired, and so notice a cleanup.
use throttle.Prelude.{
  String, ◌≡◌, refl, ap, ap₂, ◌∙◌, Option, none, some, List, [], ◌∷◌, arith, ◌==◌, if◌then◌else◌,
}
use throttle.Int.{ℤ, ◌+ℤ◌, ◌≤ℤ◌}
use throttle.Exec.{Result, ok, Outcome, returns}
use throttle.Memory.{World, StorageValue, get, set, delete, remove_expired_keys}
use throttle.Memory.Values.{
  value_at, live_text, get_view, value_at-set, value_at-delete, value_at-remove_expired_keys,
  IsStore, operations-IsStore,
}

-- A call of a method, or a tick of the cleanup goroutine.
pub data Operation : Type 0 where
  gets : String → Operation
  sets : String → String → ℤ → Operation
  deletes : String → Operation
  cleans_up : Operation

-- The time at which each of them is made, which its reading of the clock shows.
abbrev pub History : Type 0
History = List (ℤ × Operation)

-- Each is made at a time that is not before the one before it, the first not before `now`.
abbrev pub InOrder : ℤ → History → Type 0
InOrder now [] = Unit {0}
InOrder now ((t, op) ∷ rest) = (now ≤ℤ t) × InOrder t rest

module _ {F : Type 0} where
  abbrev at_time : ℤ → World F → World F
  at_time t w = record w { clock = λ _. t }

  -- What the store answers to the `Get`s of a history.
  unfoldable pub answers : History → World F → List (Outcome (Result String))
  answers [] w = []
  answers ((t, gets k) ∷ rest) w = let (a, w') = get k (at_time t w) in a ∷ answers rest w'
  answers ((t, sets k v d) ∷ rest) w = answers rest (set k v d (at_time t w)).1
  answers ((t, deletes k) ∷ rest) w = answers rest (delete k (at_time t w)).1
  answers ((t, cleans_up) ∷ rest) w = answers rest (remove_expired_keys (at_time t w)).1

-- The abstract view: for each key the text that was set last, and when it expires.
abbrev pub Slots : Type 0
Slots = String → Option StorageValue

abbrev pub put : String → Option StorageValue → Slots → Slots
put k slot m j = if k == j then slot else m j

-- What such a map answers, which a cleanup does not change.
unfoldable pub expected : History → Slots → List (Outcome (Result String))
expected [] m = []
expected ((t, gets k) ∷ rest) m = returns (ok (live_text t (m k))) ∷ expected rest m
expected ((t, sets k v d) ∷ rest) m =
    expected rest (put k (some (record { value = v; expiration = t +ℤ d })) m)
expected ((t, deletes k) ∷ rest) m = expected rest (put k none m)
expected ((t, cleans_up) ∷ rest) m = expected rest m

module _ {F : Type 0} where
  -- From the time `now` on the store shows what the map holds.
  pub record Shows (now : ℤ) (w : World F) (m : Slots) : Type 0 where
    pub store : IsStore w
    pub same : (k : String) (t : ℤ) → now ≤ℤ t → value_at w k t ≡ live_text t (m k)

  Shows-get :
      (now t : ℤ) (k : String) (w : World F) (m : Slots)
      → Shows now w m
      → now ≤ℤ t
      → Shows t (get k (at_time t w)).1 m
  unfolding value_at
  Shows-get now t k w m r le = record {
    store = rw ((get_view (at_time t w) k).1) r.store;
    same = λ j u later. rw ((get_view (at_time t w) k).1) (r.same j u (omega arith));
  }

  Shows-set :
      (now t : ℤ) (k v : String) (d : ℤ) (w : World F) (m : Slots)
      → Shows now w m
      → now ≤ℤ t
      → Shows t
          (set k v d (at_time t w)).1
          (put k (some (record { value = v; expiration = t +ℤ d })) m)
  unfolding value_at
  Shows-set now t k v d w m r le = record {
    store = (operations-IsStore (at_time t w) k v d d r.store).0;
    same = λ j u later.
        value_at-set (at_time t w) k j v d u ∙ ground (arith, r.same j u (omega arith));
  }

  Shows-delete :
      (now t : ℤ) (k : String) (w : World F) (m : Slots)
      → Shows now w m
      → now ≤ℤ t
      → Shows t (delete k (at_time t w)).1 (put k none m)
  unfolding value_at
  Shows-delete now t k w m r le = record {
    store = (operations-IsStore (at_time t w) k "" t t r.store).1;
    same =
        λ j u later. value_at-delete (at_time t w) k j u ∙ ground (arith, r.same j u (omega arith));
  }

  Shows-cleanup :
      (now t : ℤ) (w : World F) (m : Slots)
      → Shows now w m
      → now ≤ℤ t
      → Shows t (remove_expired_keys (at_time t w)).1 m
  unfolding value_at
  Shows-cleanup now t w m r le = record {
    store = (operations-IsStore (at_time t w) "" "" t t r.store).5;
    same = λ j u later.
        value_at-remove_expired_keys (at_time t w) j u r.store later ∙ r.same j u (omega arith);
  }

  -- A store that shows at the start what a map holds answers the `Get`s of any history, made in the
  -- order of time, as the map does: cleanups, whenever they come, change no answer, and an entry is
  -- there exactly until it expires, is deleted or is set again.
  pub answers-expected :
      (history : History) (now : ℤ) (w : World F) (m : Slots)
      → InOrder now history
      → Shows now w m
      → answers history w ≡ expected history m
  unfolding answers expected value_at
  answers-expected [] now w m order r = refl
  answers-expected ((t, gets k) ∷ rest) now w m order r =
      ap₂ ◌∷◌ ((get_view (at_time t w) k).0 ∙ ap (λ s. returns (ok s)) (r.same k t order.0)) (
        answers-expected rest t (get k (at_time t w)).1 m order.1 (Shows-get now t k w m r order.0))
  answers-expected ((t, sets k v d) ∷ rest) now w m order r =
      answers-expected rest t (set k v d (at_time t w)).1
        (put k (some (record { value = v; expiration = t +ℤ d })) m) order.1
        (Shows-set now t k v d w m r order.0)
  answers-expected ((t, deletes k) ∷ rest) now w m order r =
      answers-expected rest t (delete k (at_time t w)).1 (put k none m) order.1
        (Shows-delete now t k w m r order.0)
  answers-expected ((t, cleans_up) ∷ rest) now w m order r =
      answers-expected rest t (remove_expired_keys (at_time t w)).1 m order.1
        (Shows-cleanup now t w m r order.0)
