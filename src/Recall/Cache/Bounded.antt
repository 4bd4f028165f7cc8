-- ===== src/Recall/Cache/Bounded.antt =====
-- The cache stays within its bounds, and what it answers is what was put there last.
use public_gbrain_agentos.Base.{
  ℕ, suc, ◌-◌, ◌≤◌, ◌≡◌, ◌↔◌, refl, Bool, true, none, some, List, [], ◌∷◌, ◌++◌, arith, inl, inr,
  Bool-cases, Option-cases, ltb, length, length-append, if◌then◌else◌,
}
use public_gbrain_agentos.Base.Table.Keys.{or_else}
use public_gbrain_agentos.Recall.Cache.{
  Slot, RecallCache, find, remove, get, evict, put, invalidate_all,
}

pub data Call (K V : Type 0) : Type 0 where
  looked : ℕ → K → Call K V
  stored : ℕ → K → V → Call K V
  cleared : Call K V

pub run_cache :
    {K V : Type 0} → (K → K → Bool) → List (Call K V) → RecallCache K V → RecallCache K V
run_cache same [] c = c
run_cache same (looked now k ∷ calls) c = run_cache same calls (get same now k c).1
run_cache same (stored now k v ∷ calls) c = run_cache same calls (put same now k v c)
run_cache same (cleared ∷ calls) c = run_cache same calls (invalidate_all same c)

module _ {K V : Type 0} (same : K → K → Bool)
    (same_iff : (a b : K) → (same a b ≡ true) ↔ (a ≡ b)) where
  -- no key stands twice
  abbrev pub IsDict : List (Slot K V) → Type 0
  IsDict [] = Unit
  IsDict (s ∷ ss) = (find same s.key ss ≡ none) × IsDict ss

  pub record IsBounded (c : RecallCache K V) : Type 0 where
    pub keys : IsDict c.store
    pub size : length c.store ≤ c.max_entries

  find-append :
      (k : K) (xs ys : List (Slot K V))
      → find same k (xs ++ ys) ≡ or_else (find same k xs) (find same k ys)
  unfolding find
  find-append k [] ys = refl
  find-append k (x ∷ xs) ys = ground (arith, find-append k xs ys)

  find-remove : (k : K) (xs : List (Slot K V)) → IsDict xs → find same k (remove same k xs) ≡ none
  unfolding find remove
  find-remove k [] h = refl
  find-remove k (x ∷ xs) h = ground (arith, same_iff x.key k, find-remove k xs h.1)

  find-remove-none :
      (j k : K) (xs : List (Slot K V))
      → find same j xs ≡ none
      → find same j (remove same k xs) ≡ none
  unfolding find remove
  find-remove-none j k [] h = refl
  find-remove-none j k (x ∷ xs) h = ground (arith, find-remove-none j k xs)

  IsDict-remove : (k : K) (xs : List (Slot K V)) → IsDict xs → IsDict (remove same k xs)
  unfolding remove
  IsDict-remove k [] h = tt
  IsDict-remove k (x ∷ xs) h =
      ground (arith, IsDict-remove k xs h.1, find-remove-none x.key k xs h.0)

  IsDict-append :
      (xs : List (Slot K V)) (s : Slot K V)
      → IsDict xs
      → find same s.key xs ≡ none
      → IsDict (xs ++ s ∷ [])
  unfolding find
  IsDict-append [] s h new = (refl, tt)
  IsDict-append (x ∷ xs) s h new = ground (
    arith,
    IsDict-append xs s h.1,
    find-append x.key xs (s ∷ []),
    same_iff x.key s.key,
    same_iff s.key x.key,
  )

  IsDict-evict : (n : ℕ) (xs : List (Slot K V)) → IsDict xs → IsDict (evict same n xs)
  unfolding evict
  IsDict-evict n [] h = tt
  IsDict-evict n (x ∷ xs) h = ground (arith, IsDict-evict n xs h.1)

  length-evict : (n : ℕ) (xs : List (Slot K V)) → length (evict same n xs) ≤ n
  unfolding evict
  length-evict n [] = omega arith
  length-evict n (x ∷ xs) = ground (arith, length-evict n xs)

  length-remove :
      (k : K) (xs : List (Slot K V)) (s : Slot K V)
      → find same k xs ≡ some s
      → suc (length (remove same k xs)) ≡ length xs
  unfolding find remove
  length-remove k [] s h = absurd (ground arith)
  length-remove k (x ∷ xs) s h = ground (arith, length-remove k xs s)

  find-last :
      (n : ℕ) (k : K) (xs : List (Slot K V)) (s : Slot K V)
      → 1 ≤ n
      → find same k xs ≡ none
      → same s.key k ≡ true
      → find same k (evict same n (xs ++ s ∷ [])) ≡ some s
  unfolding find evict
  find-last n k [] s room new named = ground arith
  find-last n k (x ∷ xs) s room new named =
      ground (arith, find-last n k xs s room, find-append k xs (s ∷ []))

  put-IsBounded :
      (now : ℕ) (k : K) (v : V) (c : RecallCache K V) → IsBounded c → IsBounded (put same now k v c)
  unfolding put
  put-IsBounded now k v c h = record {
    keys = IsDict-evict c.max_entries _ (
        IsDict-append (remove same k c.store) _ (IsDict-remove k c.store h.keys)
          (find-remove k c.store h.keys));
    size = length-evict c.max_entries _;
  }

  find-key : (k : K) (xs : List (Slot K V)) (s : Slot K V) → find same k xs ≡ some s → s.key ≡ k
  unfolding find
  find-key k [] s h = absurd (ground arith)
  find-key k (x ∷ xs) s h = ground (arith, same_iff x.key k, find-key k xs s)

  get-IsBounded :
      (now : ℕ) (k : K) (c : RecallCache K V) → IsBounded c → IsBounded (get same now k c).1
  unfolding get
  get-IsBounded now k c h = elim (Option-cases (find same k c.store)) [
    | inl missing ↦ rw (missing, get) h
    | inr (s, found) ↦
        let shorter = length-remove k c.store s found in
        let gone : find same s.key (remove same k c.store) ≡ none =
          rw (find-key k c.store s found) (find-remove k c.store h.keys) in
        elim (Bool-cases (ltb c.ttl_sec (now - s.ts))) [
          | inl expired ↦
              rw (found, expired, get)
                (record {
                  keys = IsDict-remove k c.store h.keys;
                  size = omega (arith, h.size, shorter);
                })
          | inr fresh ↦
              rw (found, fresh, get)
                (record {
                  keys =
                      IsDict-append (remove same k c.store) s (IsDict-remove k c.store h.keys) gone;
                  size =
                      omega
                        (arith, h.size, shorter, length-append (remove same k c.store) (s ∷ []));
                })
        ]
  ]

  -- Any sequence of calls keeps the cache bounded: at most `max_entries` entries, no key twice.
  pub run-IsBounded :
      (calls : List (Call K V)) (c : RecallCache K V)
      → IsBounded c
      → IsBounded (run_cache same calls c)
  unfolding run_cache
  run-IsBounded [] c h = h
  run-IsBounded (looked now k ∷ calls) c h = run-IsBounded calls _ (get-IsBounded now k c h)
  run-IsBounded (stored now k v ∷ calls) c h = run-IsBounded calls _ (put-IsBounded now k v c h)
  run-IsBounded (cleared ∷ calls) c h =
      run-IsBounded calls _ (unfold invalidate_all in record { keys = tt; size = omega arith })

  -- In a bounded cache that may hold an entry, what was just stored is found until its time to live
  -- has passed, and not after that.
  pub get-put :
      (c : RecallCache K V) (t t' : ℕ) (k : K) (v : V)
      → IsBounded c
      → 1 ≤ c.max_entries
      → (get same t' k (put same t k v c)).0 ≡ (if ltb c.ttl_sec (t' - t) then none else some v)
  unfolding get put
  get-put c t t' k v h room =
      let s : Slot K V = record { key = k; ts = t; value = v } in
      let found =
        find-last c.max_entries k (remove same k c.store) s room (find-remove k c.store h.keys)
          (ground (arith, same_iff k k)) in
      elim (Bool-cases (ltb c.ttl_sec (t' - t))) [
        | inl expired ↦ rw (found, expired, get) refl
        | inr fresh ↦ rw (found, fresh, get) refl
      ]
