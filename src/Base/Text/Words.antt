-- ===== src/Base/Text/Words.antt =====
-- `str.split()`: the words between whitespace.
use mathlib.Core.Path.{◌≡◌, refl}
use mathlib.Core.List.{List, [], ◌∷◌}
use public_gbrain_agentos.Base.Tests.{if◌then◌else◌}
use public_gbrain_agentos.Base.Text.{Text, text, is_space}

push_word : Text → List Text → List Text
push_word [] words = words
push_word (c ∷ w) words = (c ∷ w) ∷ words

-- the letters up to the first space, and the words behind it
word_parts : Text → Text × List Text
unfolding push_word
word_parts [] = ([], [])
word_parts (c ∷ s) =
    let (w, words) = word_parts s in if is_space c then ([], push_word w words) else (c ∷ w, words)

unfoldable pub split_words : Text → List Text
unfolding word_parts push_word
split_words s = let (w, words) = word_parts s in push_word w words

split_test : split_words (text "  to be\n or ") ≡ text "to" ∷ text "be" ∷ text "or" ∷ []
unfolding split_words
split_test = refl
