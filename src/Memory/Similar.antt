-- ===== src/Memory/Similar.antt =====
-- services/memory_mcp/jaccard.py: which decisions a new one resembles. Floating-point numbers are
-- a parameter.
pub mod Partition
use public_gbrain_agentos.Base.{
  ℕ, String, Bool, true, false, not, ◌&&◌, ◌||◌, Option, none, some, List, [], ◌∷◌, ◌++◌, map, any,
  keep, ltb, length, ◌==◌, if◌then◌else◌,
}
use public_gbrain_agentos.Base.Text.{Text, text, text_eq, is_empty, is_space}
use public_gbrain_agentos.Base.Text.Words.{split_words}
use public_gbrain_agentos.Base.Json.{Json, str, Fields}
use public_gbrain_agentos.Base.Json.Dicts.{get}
use public_gbrain_agentos.Base.Json.Repr.{py_str, or_else_json}
use public_gbrain_agentos.Base.Table.{sort_by}

-- what Python's floats are used for
pub record Floats : Type 1 where
  pub Float : Type 0
  pub divide : ℕ → ℕ → Float
  pub less : Float → Float → Bool
  pub is_finite : Float → Bool
  -- `float(s)`, `none` where it raises
  pub parse : Text → Option Float
  -- `round(x, 3)`, as it is printed
  pub show : Float → String

-- the parts of Unicode that the tokenizer asks for
pub record Alphabet : Type 0 where
  pub lower : Text → Text
  -- `\w`
  pub is_word : ℕ → Bool
  pub repr_str : Text → Text

abbrev pub stopwords : List Text
stopwords =
    text "в"
    ∷ text "и"
    ∷ text "на"
    ∷ text "для"
    ∷ text "с"
    ∷ text "по"
    ∷ text "к"
    ∷ text "у"
    ∷ text "от"
    ∷ text "до"
    ∷ text "из"
    ∷ text "же"
    ∷ text "не"
    ∷ text "что"
    ∷ text "как"
    ∷ text "или"
    ∷ text "но"
    ∷ text "а"
    ∷ text "при"
    ∷ text "об"
    ∷ text "под"
    ∷ text "над"
    ∷ text "через"
    ∷ text "без"
    ∷ text "между"
    ∷ text "после"
    ∷ text "перед"
    ∷ text "во"
    ∷ text "со"
    ∷ text "the"
    ∷ text "a"
    ∷ text "an"
    ∷ text "of"
    ∷ text "to"
    ∷ text "in"
    ∷ text "on"
    ∷ text "for"
    ∷ text "with"
    ∷ text "by"
    ∷ text "at"
    ∷ text "from"
    ∷ text "is"
    ∷ text "are"
    ∷ text "was"
    ∷ text "were"
    ∷ text "be"
    ∷ text "been"
    ∷ text "has"
    ∷ text "have"
    ∷ text "had"
    ∷ text "this"
    ∷ text "that"
    ∷ text "these"
    ∷ text "those"
    ∷ text "it"
    ∷ text "its"
    ∷ text "as"
    ∷ text "and"
    ∷ text "or"
    ∷ text "but"
    ∷ []

abbrev pub member : Text → List Text → Bool
member t ts = any (λ u. text_eq u t) ts

-- a set holds no text twice
abbrev pub add_text : Text → List Text → List Text
add_text t ts = if member t ts then ts else t ∷ ts

as_set : List Text → List Text
as_set [] = []
as_set (t ∷ ts) = add_text t (as_set ts)

is_token : Text → Bool
is_token t = not (ltb (length t) 2) && not (member t stopwords)

-- `_PUNCT_RE.sub(" ", lowered)`
without_punctuation : (ℕ → Bool) → Text → Text
without_punctuation is_word [] = []
without_punctuation is_word (c ∷ s) =
    (if is_word c || is_space c then c else b' ') ∷ without_punctuation is_word s

unfoldable pub tokenize : Alphabet → Text → List Text
unfolding as_set is_token without_punctuation
tokenize alphabet content =
    if is_empty content
    then []
    else as_set (
        keep is_token (split_words (without_punctuation alphabet.is_word (alphabet.lower content))))

unfoldable pub intersection : List Text → List Text → List Text
intersection a b = keep (λ t. member t b) a

unfoldable pub union : List Text → List Text → List Text
union a b = a ++ keep (λ t. not (member t a)) b

-- a decision in the table, as the query gives it
pub record Decision : Type 0 where
  pub path : Text
  pub frontmatter : Fields
  pub body : Text

module _ (F : Floats) where
  open F use {Float, divide, less}

  unfoldable pub jaccard : List Text → List Text → Float
  unfolding intersection union
  jaccard a b =
      if length (union a b) == 0
      then divide 0 1
      else divide (length (intersection a b)) (length (union a b))

  pub record Candidate : Type 0 where
    pub path : Text
    pub jaccard : Float
    pub frontmatter : Fields

  unfoldable pub score : Alphabet → List Text → Decision → Candidate
  unfolding tokenize
  score alphabet new_tokens row =
      let title = py_str alphabet.repr_str (or_else_json (get "title" row.frontmatter) (str "")) in
      record {
        path = row.path;
        jaccard = jaccard new_tokens (tokenize alphabet (title ++ b' ' ∷ row.body));
        frontmatter = row.frontmatter;
      }

  -- `score >= threshold`; scores and thresholds are no NaN
  abbrev pub reaches : Float → Float → Bool
  reaches threshold x = not (less x threshold)

  abbrev pub is_auto : Float → Candidate → Bool
  is_auto auto_threshold c = less (divide 0 1) auto_threshold && reaches auto_threshold c.jaccard

  abbrev pub is_hint : Float → Float → Candidate → Bool
  is_hint auto_threshold hint_threshold c =
      reaches hint_threshold c.jaccard
      && (not (less (divide 0 1) auto_threshold) || less c.jaccard auto_threshold)

  -- `sort(key=jaccard, reverse=True)`, which is stable
  abbrev pub higher_first : Candidate → Candidate → Bool
  higher_first a b = not (less a.jaccard b.jaccard)

  -- the loop over the rows: those for auto-supersession, and those for a hint
  partition : Float → Float → List Candidate → List Candidate × List Candidate
  partition auto_threshold hint_threshold [] = ([], [])
  partition auto_threshold hint_threshold (c ∷ cs) =
      let (auto, hint) = partition auto_threshold hint_threshold cs in
      if is_auto auto_threshold c
      then (c ∷ auto, hint)
      else if is_hint auto_threshold hint_threshold c
      then (auto, c ∷ hint)
      else (auto, hint)

  unfoldable pub find_supersession_candidates :
      Alphabet → List Text → List Decision → Float → Float → List Candidate × List Candidate
  unfolding partition
  find_supersession_candidates alphabet new_tokens rows auto_threshold hint_threshold =
      let (auto, hint) =
        partition auto_threshold hint_threshold (map (score alphabet new_tokens) rows) in
      (sort_by higher_first auto, sort_by higher_first hint)

  -- `_supersede_threshold_env`, with `_env_float_clamped` of services/shared/config.py
  unfoldable pub supersede_threshold_env : Option Text → Float → Float
  supersede_threshold_env none default = default
  supersede_threshold_env (some raw) default =
      if is_empty raw then default else elim (F.parse raw) [
        | none ↦ default
        | some x ↦
            if not (F.is_finite x)
            then default
            else if less x (divide 0 1)
            then divide 0 1
            else if less (divide 1 1) x
            then divide 1 1
            else x
      ]
