-- ===== src/Ingest/Chunker/Windows.antt =====
-- When the loop of chunk_text ends, and what its chunks hold.
use public_gbrain_agentos.Base.{
  ℕ, zero, suc, ◌+◌, ◌-◌, ◌≤◌, ◌<◌, min, ◌≡◌, refl, sym, ap, ◌∙◌, true, false, Option, none, some,
  List, [], ◌∷◌, ◌++◌, arith, All, length, length-take, length-drop, take, drop, take-append-drop,
  ltb, leb, Bool-cases, inl, inr,
}
use mathlib.Core.List.{append-nil}
use public_gbrain_agentos.Base.Int.{ℤ, pos, negsuc, leb_ℤ, pos_part, neg_part}
use public_gbrain_agentos.Base.Text.{Text}
use public_gbrain_agentos.Ingest.Chunker.{plus, minus, slice, chunk_loop, chunk_words}

-- The words that the chunks stand for, where each begins with the last `o` words of the one before.
abbrev pub behind : {A : Type 0} → ℕ → List (List A) → List A
behind o [] = []
behind o (c ∷ cs) = drop o c ++ behind o cs

abbrev pub stitch : {A : Type 0} → ℕ → List (List A) → List A
stitch o [] = []
stitch o (c ∷ cs) = c ++ behind o cs

plus-parts :
    (a b : ℤ)
    → pos_part (plus a b) + (neg_part a + neg_part b)
      ≡ (pos_part a + pos_part b) + neg_part (plus a b)
plus-parts (pos a) (pos b) = omega arith
plus-parts (pos a) (negsuc b) = ground arith
plus-parts (negsuc a) (pos b) = ground arith
plus-parts (negsuc a) (negsuc b) = omega arith

drop-append :
    {A : Type 0} (o : ℕ) (xs ys : List A) → o ≤ length xs → drop o (xs ++ ys) ≡ drop o xs ++ ys
drop-append zero xs ys h = refl
drop-append (suc o) [] ys h = absurd (omega arith)
drop-append (suc o) (x ∷ xs) ys h = drop-append o xs ys (omega arith)

drop_nil : {A : Type 0} (n : ℕ) → drop {A = A} n [] ≡ []
drop_nil zero = refl
drop_nil (suc n) = refl

drop-drop : {A : Type 0} (n m k : ℕ) (xs : List A) → k ≡ m + n → drop n (drop m xs) ≡ drop k xs
drop-drop n zero k xs h = ap (λ i. drop i xs) (omega (arith, h))
drop-drop n (suc m) k [] h = drop_nil n ∙ sym (drop_nil k)
drop-drop n (suc m) zero (x ∷ xs) h = absurd (omega (arith, h))
drop-drop n (suc m) (suc k) (x ∷ xs) h = drop-drop n m k xs (omega (arith, h))

take-all : {A : Type 0} (n : ℕ) (xs : List A) → length xs ≤ n → take n xs ≡ xs
take-all zero [] h = refl
take-all zero (x ∷ xs) h = absurd (omega arith)
take-all (suc n) [] h = refl
take-all (suc n) (x ∷ xs) h = ap (λ r. x ∷ r) (take-all n xs (omega arith))

-- a window in the middle of the words, and the last one
slice_within :
    (a w : ℕ) (words : List Text)
    → a + w ≤ length words
    → slice (pos a) (pos (a + w)) words ≡ take w (drop a words)
slice_within a w words h =
    let n : min (a + w) (length words) - min a (length words) ≡ w = omega (arith, h) in
    let m : min a (length words) ≡ a = omega (arith, h) in
    ap (λ i. take i (drop (min a (length words)) words)) n ∙ ap (λ i. take w (drop i words)) m

slice_last :
    (a w : ℕ) (words : List Text)
    → a ≤ length words
    → length words ≤ a + w
    → slice (pos a) (pos (a + w)) words ≡ drop a words
slice_last a w words h k =
    let m : min a (length words) ≡ a = omega (arith, h) in
    let n : min (a + w) (length words) - min a (length words) ≡ length words - a =
      omega (arith, h, k) in
    ap (λ i. take i (drop (min a (length words)) words)) n
    ∙ ap (λ i. take (length words - a) (drop i words)) m
    ∙ take-all (length words - a) (drop a words) (omega (arith, length-drop a words))

abbrev first : {A : Type 0} → List (List A) → List A
first [] = []
first (c ∷ cs) = c

behind-stitch :
    {A : Type 0} (o : ℕ) (cs : List (List A))
    → o ≤ length (first cs)
    → behind o cs ≡ drop o (stitch o cs)
behind-stitch o [] h = sym (drop_nil o)
behind-stitch o (c ∷ cs) h = sym (drop-append o c (behind o cs) h)

-- chunks of the words that are left
abbrev IsCut : ℕ → ℕ → List Text → List (List Text) → Type 0
IsCut o w left chunks =
    (stitch o chunks ≡ left)
    × All (λ c. length c ≤ w) chunks
    × (min w (length left) ≤ length (first chunks))

abbrev Cuts : ℕ → ℕ → List Text → Option (List (List Text)) → Type 0
Cuts o w left r = (chunks : List (List Text)) × (r ≡ some chunks) × IsCut o w left chunks

IsCut-more :
    (w d o a : ℕ) (words : List Text)
    → w ≡ suc d + o
    → a + w < length words
    → (cs : List (List Text)) → IsCut o w (drop (a + suc d) words) cs
    → IsCut o w (drop a words) (take w (drop a words) ∷ cs)
IsCut-more w d o a words sized more cs cut = (
  ap (λ (r : List Text). take w (drop a words) ++ r)
        (behind-stitch o cs (omega (arith, cut.2, length-drop (a + suc d) words, sized))
          ∙ ap (drop o) cut.0
          ∙ drop-drop o (a + suc d) (a + w) words (omega (arith, sized))
          ∙ sym (drop-drop w a (a + w) words refl))
      ∙ take-append-drop w (drop a words),
  (omega (arith, length-take w (drop a words)), cut.1),
  omega (arith, length-take w (drop a words)),
)

loop_lem :
    (fuel w d o a : ℕ) (words : List Text)
    → w ≡ suc d + o
    → a < length words
    → length words < a + fuel
    → Cuts o w (drop a words) (chunk_loop fuel (pos w) (pos (suc d)) words (pos a))
unfolding chunk_loop
loop_lem zero w d o a words sized inside enough = absurd (omega arith)
loop_lem (suc fuel) w d o a words sized inside enough =
    let runs : ltb (a + 0) (length words + 0) ≡ true = ground (arith, inside) in
    elim (Bool-cases (leb (length words + 0) (a + w + 0))) [
      | inl last ↦ (
        drop a words ∷ [],
        rw (runs, last, slice_last a w words (omega arith) (ground (arith, last))) refl,
        (append-nil (drop a words), (ground (arith, last, length-drop a words), tt), omega arith),
      )
      | inr more ↦
          let below : a + w < length words = ground (arith, more) in
          let (cs, found, cut) =
            loop_lem fuel w d o (a + suc d) words sized (omega (arith, below, sized))
              (omega (arith, enough)) in
          (
            take w (drop a words) ∷ cs,
            rw (runs, more, found, slice_within a w words (omega (arith, below))) refl,
            IsCut-more w d o a words sized below cs cut,
          )
    ]

-- With an overlap below the window size, chunk_text comes to an end after at most one turn of its
-- loop for each word, and its chunks are windows on the words: no chunk has more words than the
-- window size, and the words of the text are those of the first chunk, followed by the words of
-- each next chunk behind the overlap.
pub chunk_words-returns :
    (window_size overlap fuel : ℕ) (words : List Text)
    → overlap < window_size
    → length words < fuel
    → (chunks : List (List Text)) × (chunk_words fuel (pos window_size) (pos overlap) words
        ≡ some chunks)
      × (stitch overlap chunks ≡ words)
      × All (λ c. length c ≤ window_size) chunks
unfolding chunk_words
chunk_words-returns w o fuel [] narrow enough = ([], refl, refl, tt)
chunk_words-returns w o fuel (x ∷ words) narrow enough =
    elim (Bool-cases (leb (length (x ∷ words) + 0) (w + 0))) [
      | inl short ↦
          ((x ∷ words) ∷ [], rw short refl, append-nil (x ∷ words), (ground (arith, short), tt))
      | inr long ↦
          let (d, sized) : (d : ℕ) × (w ≡ suc d + o) = (w - suc o, omega (arith, narrow)) in
          let (cs, found, cut) =
            loop_lem fuel w d o 0 (x ∷ words) sized (omega arith) (omega (arith, enough)) in
          (cs, rw (long, step_lem w o d sized) found, cut.0, cut.1)
    ]
  where
    step_lem : (w o d : ℕ) → w ≡ suc d + o → plus (pos w) (minus (pos o)) ≡ pos (suc d)
    step_lem w zero d h = ap pos (omega (arith, h))
    step_lem w (suc o) d h = ground (arith, h)

endless :
    (fuel w : ℕ) (step start : ℤ) (words : List Text)
    → leb_ℤ step (pos 0) ≡ true
    → leb_ℤ start (pos 0) ≡ true
    → w < length words
    → chunk_loop fuel (pos w) step words start ≡ none
unfolding chunk_loop
endless zero w step start words back before more = refl
endless (suc fuel) w step start words back before more =
    let runs : ltb (pos_part start + 0) (length words + neg_part start) ≡ true =
      ground (arith, before, more) in
    let end = plus start (pos w) in
    let goes_on : leb (length words + neg_part end) (pos_part end + 0) ≡ false =
      ground (arith, plus-parts start (pos w), before, more) in
    let earlier : leb_ℤ (plus start step) (pos 0) ≡ true =
      ground (arith, plus-parts start step, before, back) in
    rw (runs, goes_on, endless fuel w step (plus start step) words back earlier more) refl

-- With an overlap of at least the window size, and more words than fit into one window, no number of
-- turns brings the loop of chunk_text to its end.
pub chunk_words-endless :
    (window_size overlap fuel : ℕ) (words : List Text)
    → window_size ≤ overlap
    → window_size < length words
    → chunk_words fuel (pos window_size) (pos overlap) words ≡ none
unfolding chunk_words
chunk_words-endless w o fuel [] wide more = absurd (omega arith)
chunk_words-endless w o fuel (x ∷ words) wide more =
    let long : leb (length (x ∷ words) + 0) (w + 0) ≡ false = ground (arith, more) in
    rw long
      (endless fuel w (plus (pos w) (minus (pos o))) (pos 0) (x ∷ words) (back w o wide) refl more)
  where
    back : (w o : ℕ) → w ≤ o → leb_ℤ (plus (pos w) (minus (pos o))) (pos 0) ≡ true
    back w zero h = ground (arith, h)
    back w (suc o) h = ground (arith, h)
