-- ===== src/Ingest/Chunker.antt =====
-- services/ingest_worker/chunker.py: a text cut into windows of words.
pub mod Windows
use public_gbrain_agentos.Base.{
  ℕ, zero, suc, ◌+◌, ◌-◌, min, Bool, true, false, not, Option, none, some, List, [], ◌∷◌, map,
  length, take, drop, ltb, if◌then◌else◌,
}
use public_gbrain_agentos.Base.Int.{ℤ, pos, negsuc, ltb_ℤ, leb_ℤ}
use public_gbrain_agentos.Base.Text.{Text, text, join}
use public_gbrain_agentos.Base.Text.Words.{split_words}

abbrev pub window_size_default : ℤ
window_size_default = pos 500

abbrev pub overlap_default : ℤ
overlap_default = pos 50

-- `a + b` and `-a`
abbrev pub plus : ℤ → ℤ → ℤ
plus (pos a) (pos b) = pos (a + b)
plus (pos a) (negsuc b) = if ltb a (suc b) then negsuc (b - a) else pos (a - suc b)
plus (negsuc a) (pos b) = if ltb b (suc a) then negsuc (a - b) else pos (b - suc a)
plus (negsuc a) (negsuc b) = negsuc (suc (a + b))

abbrev pub minus : ℤ → ℤ
minus (pos zero) = pos zero
minus (pos (suc a)) = negsuc a
minus (negsuc a) = pos (suc a)

-- where an index of a slice stands in a list of `n` items
abbrev pub index : ℕ → ℤ → ℕ
index n (pos k) = min k n
index n (negsuc k) = n - suc k

-- `xs[start:end]`
abbrev pub slice : {A : Type 0} → ℤ → ℤ → List A → List A
slice start end xs = let a = index (length xs) start in take (index (length xs) end - a) (drop a xs)

-- The `while` loop over `words`; `none` where the fuel does not last.
unfoldable pub chunk_loop : ℕ → ℤ → ℤ → List Text → ℤ → Option (List (List Text))
chunk_loop zero window_size step words start = none
chunk_loop (suc fuel) window_size step words start =
    let end = plus start window_size in
    let chunk_words = slice start end words in
    let rest = chunk_loop fuel window_size step words (plus start step) in
    if not (ltb_ℤ start (pos (length words)))
    then some []
    else if leb_ℤ (pos (length words)) end
    then some (chunk_words ∷ [])
    else elim rest [ none ↦ none | some chunks ↦ some (chunk_words ∷ chunks) ]

-- the words of each chunk
unfoldable pub chunk_words : ℕ → ℤ → ℤ → List Text → Option (List (List Text))
chunk_words fuel window_size overlap [] = some []
chunk_words fuel window_size overlap (w ∷ words) =
    if leb_ℤ (pos (length (w ∷ words))) window_size
    then some ((w ∷ words) ∷ [])
    else chunk_loop fuel window_size (plus window_size (minus overlap)) (w ∷ words) (pos 0)

unfoldable pub chunk_text : ℕ → Text → ℤ → ℤ → Option (List Text)
chunk_text fuel content window_size overlap =
    elim (chunk_words fuel window_size overlap (split_words content)) [
      | none ↦ none
      | some chunks ↦ some (map (join (text " ")) chunks)
    ]
