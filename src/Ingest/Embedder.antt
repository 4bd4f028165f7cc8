-- ===== src/Ingest/Embedder.antt =====
-- services/ingest_worker/embedder.py: embeddings of texts, with a cache that forgets the least
-- recently used. FastEmbed's model and SHA-256 are parameters.
pub mod Cached
use public_gbrain_agentos.Base.{
  ℕ, zero, suc, Bool, true, false, Option, none, some, List, [], ◌∷◌, ◌++◌, length, take, drop, ltb,
  if◌then◌else◌,
}
use public_gbrain_agentos.Base.Text.{Text, text_eq}

abbrev pub batch_size : ℕ
batch_size = 8

abbrev pub cache_max_size : ℕ
cache_max_size = 512

abbrev pub key_length : ℕ
key_length = 32

-- the `OrderedDict`, the least recently used first
abbrev pub Cache : Type 0 → Type 0
Cache V = List (Text × V)

unfoldable pub cache_key : (Text → Text) → Text → Text
cache_key sha256 content = take key_length (sha256 content)

module _ {V : Type 0} where
  unfoldable pub find : Text → Cache V → Option V
  find k [] = none
  find k ((j, v) ∷ cache) = if text_eq j k then some v else find k cache

  unfoldable pub without : Text → Cache V → Cache V
  without k [] = []
  without k ((j, v) ∷ cache) =
      let rest = without k cache in if text_eq j k then rest else (j, v) ∷ rest

  -- `while len(cache) > CACHE_MAX_SIZE: cache.popitem(last=False)`
  unfoldable pub evict : Cache V → Cache V
  evict [] = []
  evict (e ∷ cache) =
      let rest = evict cache in if ltb cache_max_size (suc (length cache)) then rest else e ∷ cache

  module _ (sha256 : Text → Text) where
    -- A hit is moved to the end.
    unfoldable pub cache_get : Text → Cache V → Option V × Cache V
    unfolding find without
    cache_get content cache = elim (find (cache_key sha256 content) cache) [
      | none ↦ (none, cache)
      | some v ↦
          (some v, without (cache_key sha256 content) cache ++ (cache_key sha256 content, v) ∷ [])
    ]

    unfoldable pub cache_put : Text → V → Cache V → Cache V
    unfolding without evict
    cache_put content v cache =
        evict (without (cache_key sha256 content) cache ++ (cache_key sha256 content, v) ∷ [])

    -- what the cache knows of each text, in turn
    unfoldable pub cached : List Text → Cache V → List (Option V) × Cache V
    unfolding cache_get
    cached [] cache = ([], cache)
    cached (t ∷ texts) cache =
        let (v, after) = cache_get t cache in
        let (results, last) = cached texts after in (v ∷ results, last)

    -- `uncached_texts`
    unfoldable pub missing : List Text → List (Option V) → List Text
    missing [] results = []
    missing (t ∷ texts) [] = []
    missing (t ∷ texts) (none ∷ results) = t ∷ missing texts results
    missing (t ∷ texts) (some v ∷ results) = missing texts results

    -- the texts in batches; the fuel is their number
    unfoldable pub embed_batches : (List Text → Option (List V)) → ℕ → List Text → Option (List V)
    embed_batches model zero texts = some []
    embed_batches model (suc fuel) [] = some []
    embed_batches model (suc fuel) (t ∷ texts) =
        let rest = embed_batches model fuel (drop batch_size (t ∷ texts)) in
        elim (model (take batch_size (t ∷ texts))) [
          | none ↦ none
          | some vs ↦ elim rest [ none ↦ none | some ws ↦ some (vs ++ ws) ]
        ]

    -- `results[idx] = emb` for the texts that were not cached, then `[r for r in results if r]`
    unfoldable pub filled : List (Option V) → List V → List V
    filled [] vs = []
    filled (some v ∷ results) vs = v ∷ filled results vs
    filled (none ∷ results) [] = filled results []
    filled (none ∷ results) (v ∷ vs) = v ∷ filled results vs

    unfoldable pub put_all : List Text → List V → Cache V → Cache V
    unfolding cache_put
    put_all [] vs cache = cache
    put_all (t ∷ ts) [] cache = cache
    put_all (t ∷ ts) (v ∷ vs) cache = put_all ts vs (cache_put t v cache)

    -- the embeddings, `none` where the model raises, and the cache after that
    unfoldable pub embed :
        (List Text → Option (List V)) → List Text → Cache V → Option (List V) × Cache V
    unfolding cached missing embed_batches filled put_all
    embed model texts cache =
        let (results, after) = cached texts cache in
        let uncached = missing texts results in
        elim (embed_batches model (length uncached) uncached) [
          | none ↦ (none, after)
          | some vs ↦ (some (filled results vs), put_all uncached vs after)
        ]

    -- `embed([text])[0]`; `none` where that raises, too
    unfoldable pub embed_single :
        (List Text → Option (List V)) → Text → Cache V → Option V × Cache V
    unfolding embed
    embed_single model content cache =
        let (vs, after) = embed model (content ∷ []) cache in (only vs, after)
      where
        only : Option (List V) → Option V
        only none = none
        only (some []) = none
        only (some (v ∷ vs)) = some v
