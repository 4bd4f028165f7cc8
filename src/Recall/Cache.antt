-- ===== src/Recall/Cache.antt =====
-- services/recall_mcp/cache.py: `RecallCache`, for any keys with a Boolean equality `same`, and any
-- values. `now` is `time.monotonic()` in some unit, a clock that never goes back.
pub mod Bounded
use public_gbrain_agentos.Base.{
  ℕ, suc, ◌-◌, Bool, Option, none, some, List, [], ◌∷◌, ◌++◌, ltb, length, if◌then◌else◌,
}

pub record Slot (K V : Type 0) : Type 0 where
  pub key : K
  pub ts : ℕ
  pub value : V

-- the `OrderedDict`, the least recently used first, and the settings
pub record RecallCache (K V : Type 0) : Type 0 where
  pub store : List (Slot K V)
  pub ttl_sec : ℕ
  pub max_entries : ℕ

module _ {K V : Type 0} (same : K → K → Bool) where
  unfoldable pub find : K → List (Slot K V) → Option (Slot K V)
  find k [] = none
  find k (s ∷ ss) = if same s.key k then some s else find k ss

  -- `del store[key]`, where it is there
  unfoldable pub remove : K → List (Slot K V) → List (Slot K V)
  remove k [] = []
  remove k (s ∷ ss) = let rest = remove k ss in if same s.key k then ss else s ∷ rest

  -- A hit is moved to the end; an expired entry is dropped.
  unfoldable pub get : ℕ → K → RecallCache K V → Option V × RecallCache K V
  get now k c = elim (find k c.store) [
    | none ↦ (none, c)
    | some s ↦
        if ltb c.ttl_sec (now - s.ts)
        then (none, record c { store = remove k c.store })
        else (some s.value, record c { store = remove k c.store ++ s ∷ [] })
  ]

  -- `while len(store) > max_entries: store.popitem(last=False)`
  unfoldable pub evict : ℕ → List (Slot K V) → List (Slot K V)
  evict max_entries [] = []
  evict max_entries (s ∷ ss) =
      let rest = evict max_entries ss in if ltb max_entries (suc (length ss)) then rest else s ∷ ss

  unfoldable pub put : ℕ → K → V → RecallCache K V → RecallCache K V
  put now k v c = record c {
    store = evict c.max_entries (remove k c.store ++ record { key = k; ts = now; value = v } ∷ []);
  }

  unfoldable pub invalidate_all : RecallCache K V → RecallCache K V
  invalidate_all c = record c { store = [] }
