-- ===== src/Ingest/Embedder/Cached.antt =====
-- The cache of the embedder does not show in its results.
use public_gbrain_agentos.Base.{
  ℕ, zero, suc, ◌≤◌, ◌<◌, ◌≡◌, refl, sym, ap, ◌∙◌, Option, none, some, List, [], ◌∷◌, ◌++◌, arith,
  All, All-append, map, length, length-append, length-drop, take, drop, ltb, Bool-cases,
  Option-cases, inl, inr,
}
use mathlib.Core.Option.{some-injective}
use public_gbrain_agentos.Base.Text.{Text, text_eq}
use public_gbrain_agentos.Base.Text.Equality.{text_eq_iff}
use public_gbrain_agentos.Ingest.Embedder.{
  Cache, find, without, evict, cache_key, cache_get, cache_put, cached, missing, embed_batches,
  filled, put_all, embed, cache_max_size,
}

module _ {V : Type 0} (sha256 : Text → Text) (vec : Text → V) where
  -- an entry has the embedding of every text with its key
  abbrev pub IsRight : Cache V → Type 0
  IsRight = All (λ e. (t : Text) → cache_key sha256 t ≡ e.0 → e.1 ≡ vec t)

  without-IsRight : (k : Text) (cache : Cache V) → IsRight cache → IsRight (without k cache)
  unfolding without
  without-IsRight k [] h = tt
  without-IsRight k ((j, v) ∷ cache) h = elim (Bool-cases (text_eq j k)) [
    | inl same ↦ rw same (without-IsRight k cache h.1)
    | inr other ↦ rw other (h.0, without-IsRight k cache h.1)
  ]

  evict-IsRight : (cache : Cache V) → IsRight cache → IsRight (evict cache)
  unfolding evict
  evict-IsRight [] h = tt
  evict-IsRight (e ∷ cache) h = elim (Bool-cases (ltb cache_max_size (suc (length cache)))) [
    | inl full ↦ rw full (evict-IsRight cache h.1)
    | inr fits ↦ rw fits h
  ]

  find-IsRight :
      (k : Text) (cache : Cache V) (v : V)
      → IsRight cache
      → find k cache ≡ some v
      → (t : Text) → cache_key sha256 t ≡ k
      → v ≡ vec t
  unfolding find
  find-IsRight k [] v h found t e = absurd (ground (arith, found))
  find-IsRight k ((j, u) ∷ cache) v h found t e = elim (Bool-cases (text_eq j k)) [
    | inl same ↦
        sym (some-injective u v (ground (arith, found, same)))
        ∙ h.0 t (e ∙ sym ((text_eq_iff j k).0 same))
    | inr other ↦ find-IsRight k cache v h.1 (ground (arith, found, other)) t e
  ]

  get-IsRight : (t : Text) (cache : Cache V) → IsRight cache → IsRight (cache_get sha256 t cache).1
  unfolding cache_get
  get-IsRight t cache h = elim (Option-cases (find (cache_key sha256 t) cache)) [
    | inl new ↦ rw (new, cache_get) h
    | inr (v, found) ↦
        rw (found, cache_get)
          (All-append _ (without (cache_key sha256 t) cache) _
            (without-IsRight (cache_key sha256 t) cache h)
            (find-IsRight (cache_key sha256 t) cache v h found, tt))
  ]

  -- what the cache gave for the texts
  abbrev Agree : List Text → List (Option V) → Type 0
  Agree [] [] = Unit
  Agree [] (r ∷ results) = ⊥
  Agree (t ∷ texts) [] = ⊥
  Agree (t ∷ texts) (none ∷ results) = Agree texts results
  Agree (t ∷ texts) (some v ∷ results) = (v ≡ vec t) × Agree texts results

  filled_lem :
      (texts : List Text) (results : List (Option V))
      → Agree texts results
      → filled sha256 results (map vec (missing sha256 texts results)) ≡ map vec texts
  unfolding filled missing
  filled_lem [] [] h = refl
  filled_lem [] (r ∷ results) h = absurd h
  filled_lem (t ∷ texts) [] h = absurd h
  filled_lem (t ∷ texts) (none ∷ results) h =
      ap (λ (r : List V). vec t ∷ r) (filled_lem texts results h)
  filled_lem (t ∷ texts) (some v ∷ results) h = cc (h.0, filled_lem texts results h.1)

  map-window : (n : ℕ) (ts : List Text) → map vec (take n ts) ++ map vec (drop n ts) ≡ map vec ts
  map-window zero ts = refl
  map-window (suc n) [] = refl
  map-window (suc n) (t ∷ ts) = ap (λ (r : List V). vec t ∷ r) (map-window n ts)

  batches_lem :
      (model : List Text → Option (List V))
      → ((ts : List Text) → model ts ≡ some (map vec ts))
      → (fuel : ℕ) (texts : List Text) → length texts ≤ fuel
      → embed_batches sha256 model fuel texts ≡ some (map vec texts)
  unfolding embed_batches
  batches_lem model answers zero [] h = refl
  batches_lem model answers zero (t ∷ texts) h = absurd (omega arith)
  batches_lem model answers (suc fuel) [] h = refl
  batches_lem model answers (suc fuel) (t ∷ texts) h =
      rw
        (
          embed_batches,
          answers (t ∷ take 7 texts),
          batches_lem model answers fuel (drop 7 texts) (omega (arith, length-drop 7 texts, h)),
        )
        (ap (λ (r : List V). some (vec t ∷ r)) (map-window 7 texts))

  evict-length : (cache : Cache V) → length (evict cache) ≤ cache_max_size
  unfolding evict
  evict-length [] = omega arith
  evict-length (e ∷ cache) = ground (arith, evict-length cache)

  without-length : (k : Text) (cache : Cache V) → length (without k cache) ≤ length cache
  unfolding without
  without-length k [] = omega arith
  without-length k ((j, v) ∷ cache) = ground (arith, without-length k cache)

  found-length :
      (k : Text) (cache : Cache V) (v : V)
      → find k cache ≡ some v
      → length (without k cache) < length cache
  unfolding without find
  found-length k [] v h = absurd (ground (arith, h))
  found-length k ((j, u) ∷ cache) v h =
      ground (arith, without-length k cache, found-length k cache v)

  get-length : (t : Text) (cache : Cache V) → length (cache_get sha256 t cache).1 ≤ length cache
  unfolding cache_get
  get-length t cache = elim (Option-cases (find (cache_key sha256 t) cache)) [
    | inl new ↦ rw (new, cache_get) (omega arith)
    | inr (v, found) ↦
        rw (found, cache_get)
          (omega (
            arith,
            found-length (cache_key sha256 t) cache v found,
            length-append (without (cache_key sha256 t) cache) ((cache_key sha256 t, v) ∷ []),
          ))
  ]

  get_lem :
      (t : Text) (cache : Cache V)
      → IsRight cache
      → (texts : List Text) (rest : List (Option V)) → Agree texts rest
      → Agree (t ∷ texts) ((cache_get sha256 t cache).0 ∷ rest)
  unfolding cache_get
  get_lem t cache h texts rest agree = elim (Option-cases (find (cache_key sha256 t) cache)) [
    | inl new ↦ rw (new, cache_get) agree
    | inr (v, found) ↦
        rw (found, cache_get) (find-IsRight (cache_key sha256 t) cache v h found t refl, agree)
  ]

  -- a cache that may be asked
  pub record IsSound (cache : Cache V) : Type 0 where
    pub right : IsRight cache
    pub bounded : length cache ≤ cache_max_size

  cached_lem :
      (texts : List Text) (cache : Cache V)
      → IsSound cache
      → Agree texts (cached sha256 texts cache).0 × IsSound (cached sha256 texts cache).1
  unfolding cached
  cached_lem [] cache h = (tt, h)
  cached_lem (t ∷ texts) cache h =
      let after = (cache_get sha256 t cache).1 in
      let (agree, sound) = cached_lem texts after record {
        right = get-IsRight t cache h.right;
        bounded = omega (arith, get-length t cache, h.bounded);
      } in
      (get_lem t cache h.right texts (cached sha256 texts after).0 agree, sound)

  module _ (safe : (t u : Text) → cache_key sha256 t ≡ cache_key sha256 u → vec t ≡ vec u) where
    put-IsSound :
        (t : Text) (cache : Cache V) → IsSound cache → IsSound (cache_put sha256 t (vec t) cache)
    unfolding cache_put
    put-IsSound t cache h = record {
      right = evict-IsRight _ (
          All-append _ (without (cache_key sha256 t) cache) _
            (without-IsRight (cache_key sha256 t) cache h.right) ((λ u e. safe t u (sym e)), tt));
      bounded =
          evict-length (without (cache_key sha256 t) cache ++ (cache_key sha256 t, vec t) ∷ []);
    }

    put_all-IsSound :
        (ts : List Text) (cache : Cache V)
        → IsSound cache
        → IsSound (put_all sha256 ts (map vec ts) cache)
    unfolding put_all
    put_all-IsSound [] cache h = h
    put_all-IsSound (t ∷ ts) cache h =
        put_all-IsSound ts (cache_put sha256 t (vec t) cache) (put-IsSound t cache h)

    -- Where the model gives each text its vector, embed returns those vectors in the order of the
    -- texts, whatever the cache holds, and leaves a cache of at most 512 entries that holds the
    -- right vectors again. The cache is so before, and texts with the same key have the same vector.
    pub embed_lem :
        (model : List Text → Option (List V))
        → ((ts : List Text) → model ts ≡ some (map vec ts))
        → (texts : List Text) (cache : Cache V) → IsSound cache
        → ((embed sha256 model texts cache).0 ≡ some (map vec texts))
          × IsSound (embed sha256 model texts cache).1
    unfolding embed
    embed_lem model answers texts cache h =
        let r = cached sha256 texts cache in
        let uncached = missing sha256 texts r.0 in
        let (agree, sound) = cached_lem texts cache h in
        rw (embed, batches_lem model answers (length uncached) uncached (omega arith))
          (ap some (filled_lem texts r.0 agree), put_all-IsSound uncached r.1 sound)
