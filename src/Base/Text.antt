-- ===== src/Base/Text.antt =====
-- Python texts that the services take apart or put together, as lists of code points, and the
-- methods of `str` that the source calls. Whole texts that are only compared stay `String`s.
pub mod Decimal
pub mod Words
pub mod Equality
use Prim.Native.Char.{code}
use Prim.Native.Nat.{ℕ, zero, suc, ◌+◌, ◌-◌, ◌*◌, ◌/◌, ◌%◌}
use Prim.Native.String.{String}
use mathlib.Core.Path.{◌≡◌, refl}
use mathlib.Core.Bool.{Bool, true, false, ◌&&◌, ◌||◌}
use mathlib.Core.Option
use mathlib.Core.Option.{Option, none, some}
use mathlib.Core.List.{List, [], ◌∷◌, ◌++◌, reverse}
use public_gbrain_agentos.Base.Tests.{ltb, leb, ◌==◌, if◌then◌else◌}
use public_gbrain_agentos.Base.Int.{ℤ, pos, negsuc}

abbrev pub Text : Type 0
Text = List ℕ

abbrev pub text : String → Text
text String.[] = []
text (String.◌∷◌ c s) = code c ∷ text s

abbrev pub text_eq : Text → Text → Bool
text_eq [] [] = true
text_eq [] (d ∷ ds) = false
text_eq (c ∷ cs) [] = false
text_eq (c ∷ cs) (d ∷ ds) = c == d && text_eq cs ds

-- s.startswith(p)
abbrev pub starts_with : Text → Text → Bool
starts_with s [] = true
starts_with [] (p ∷ ps) = false
starts_with (c ∷ s) (p ∷ ps) = c == p && starts_with s ps

-- the characters for which `str.isspace` holds
abbrev pub is_space : ℕ → Bool
is_space c =
    (leb 9 c && leb c 13)
    || (leb 28 c && leb c 32)
    || c == 0x85
    || c == 0xA0
    || c == 0x1680
    || (leb 0x2000 c && leb c 0x200A)
    || c == 0x2028
    || c == 0x2029
    || c == 0x202F
    || c == 0x205F
    || c == 0x3000

unfoldable pub strip_left : Text → Text
strip_left [] = []
strip_left (c ∷ s) = let rest = strip_left s in if is_space c then rest else c ∷ s

-- s.strip()
unfoldable pub strip : Text → Text
unfolding strip_left
strip s = reverse (strip_left (reverse (strip_left s)))

-- `bool(s)`
abbrev pub is_empty : {A : Type 0} → List A → Bool
is_empty [] = true
is_empty (c ∷ s) = false

-- `sep.join(parts)`
unfoldable pub join : Text → List Text → Text
join sep [] = []
join sep (p ∷ []) = p
join sep (p ∷ q ∷ ps) = p ++ (sep ++ join sep (q ∷ ps))

-- s.replace(a, b) for single characters
unfoldable pub replace : ℕ → ℕ → Text → Text
replace a b [] = []
replace a b (c ∷ s) = (if c == a then b else c) ∷ replace a b s

-- `s.lower()` on the letters A to Z: what a comparison with a lower-case ASCII word depends on
abbrev pub lower_code : ℕ → ℕ
lower_code c = if leb b'A' c && leb c b'Z' then c + 32 else c

unfoldable pub lower : Text → Text
lower [] = []
lower (c ∷ s) = lower_code c ∷ lower s

-- str(n) of a number at least 0; a number has no more digits than its value plus one
decimal_digits : ℕ → ℕ → Text → Text
decimal_digits zero n acc = acc
decimal_digits (suc fuel) n acc =
    let here = (b'0' + n % 10) ∷ acc in
    let more = decimal_digits fuel (n / 10) here in if ltb n 10 then here else more

unfoldable pub decimal : ℕ → Text
unfolding decimal_digits
decimal n = decimal_digits (suc n) n []

-- str(n)
unfoldable pub decimal_ℤ : ℤ → Text
unfolding decimal
decimal_ℤ (pos n) = decimal n
decimal_ℤ (negsuc n) = b'-' ∷ decimal (suc n)

decimal_test : decimal 1700 ≡ text "1700"
unfolding decimal
decimal_test = refl

strip_test : strip (text "  a b\n") ≡ text "a b"
unfolding strip
strip_test = refl

-- `"".join(parts)`, which is what an f-string does with its pieces
abbrev pub concat : List Text → Text
concat [] = []
concat (p ∷ ps) = p ++ concat ps

abbrev pub is_digit : ℕ → Bool
is_digit c = leb b'0' c && leb c b'9'

abbrev negated : ℕ → ℤ
negated zero = pos 0
negated (suc n) = negsuc n

-- the digits of `int(s)` after the first, with the underscores that Python allows between them
int_digits : ℕ → Text → Option ℕ
int_digits acc [] = some acc
int_digits acc (c ∷ []) = if is_digit c then some (acc * 10 + (c - b'0')) else none
int_digits acc (c ∷ d ∷ s) =
    let more = int_digits (acc * 10 + (c - b'0')) (d ∷ s) in
    let past = int_digits acc (d ∷ s) in
    if is_digit c then more else if c == b'_' && is_digit d then past else none

int_unsigned : Text → Option ℕ
unfolding int_digits
int_unsigned [] = none
int_unsigned (c ∷ s) = if is_digit c then int_digits 0 (c ∷ s) else none

int_signed : Text → Option ℤ
unfolding int_unsigned
int_signed [] = none
int_signed (c ∷ s) =
    if c == b'-'
    then Option.map negated (int_unsigned s)
    else if c == b'+'
    then Option.map pos (int_unsigned s)
    else Option.map pos (int_unsigned (c ∷ s))

-- `int(s)`, `none` where it raises ValueError. Only the ASCII digits are read.
unfoldable pub int_of : Text → Option ℤ
unfolding int_signed strip
int_of s = int_signed (strip s)

int_of_test :
    (int_of (text " 1_700 ") ≡ some (pos 1700))
    × (int_of (text "-3") ≡ some (negsuc 2))
    × (int_of (text "1__0") ≡ none)
    × (int_of (text "4k") ≡ none)
unfolding int_of
int_of_test = (refl, refl, refl, refl)

abbrev pub Bytes : Type 0
Bytes = List ℕ

utf8_code : ℕ → Bytes
utf8_code c =
    if ltb c 0x80
    then c ∷ []
    else if ltb c 0x800
    then (0xC0 + c / 64) ∷ (0x80 + c % 64) ∷ []
    else if ltb c 0x10000
    then (0xE0 + c / 4096) ∷ (0x80 + c / 64 % 64) ∷ (0x80 + c % 64) ∷ []
    else (0xF0 + c / 262144) ∷ (0x80 + c / 4096 % 64) ∷ (0x80 + c / 64 % 64) ∷ (0x80 + c % 64) ∷ []

-- s.encode("utf-8")
unfoldable pub utf8 : Text → Bytes
unfolding utf8_code
utf8 [] = []
utf8 (c ∷ s) = utf8_code c ++ utf8 s
