-- ===== src/Base/Json/Dumps.antt =====
-- `json.dumps(value, ensure_ascii=False, separators=(sep, colon))`.
use Prim.Native.Nat.{ℕ, ◌+◌, ◌-◌, ◌/◌, ◌%◌}
use mathlib.Core.Bool.{true, false}
use mathlib.Core.List.{[], ◌∷◌, ◌++◌}
use public_gbrain_agentos.Base.Tests.{ltb, ◌==◌, if◌then◌else◌}
use public_gbrain_agentos.Base.Text.{Text, text, decimal_ℤ}
use public_gbrain_agentos.Base.Json.{
  Json, null, bool, int, float, str, arr, obj, Items, nil, cons, Fields, end, field,
}

abbrev hex_digit : ℕ → ℕ
hex_digit n = if ltb n 10 then b'0' + n else 87 + n

-- the escapes of `json.encoder.ESCAPE_DCT`
escape_code : ℕ → Text
escape_code c =
    if c == b'"'
    then text "\\\""
    else if c == b'\\'
    then text "\\\\"
    else if c == 10
    then text "\\n"
    else if c == 13
    then text "\\r"
    else if c == 9
    then text "\\t"
    else if c == 12
    then text "\\f"
    else if c == 8
    then text "\\b"
    else if ltb c 32
    then text "\\u00" ++ hex_digit (c / 16) ∷ hex_digit (c % 16) ∷ []
    else c ∷ []

escape : Text → Text
unfolding escape_code
escape [] = []
escape (c ∷ s) = escape_code c ++ escape s

abbrev quote : Text → Text
quote s = b'"' ∷ (escape s ++ b'"' ∷ [])

unfoldable mutual
  unfolding escape decimal_ℤ

  pub dumps : Text → Text → Json → Text
  dumps sep colon null = text "null"
  dumps sep colon (bool true) = text "true"
  dumps sep colon (bool false) = text "false"
  dumps sep colon (int n) = decimal_ℤ n
  dumps sep colon (float s) = text s
  dumps sep colon (str s) = quote (text s)
  dumps sep colon (arr xs) = b'[' ∷ (dumps_items sep colon [] xs ++ b']' ∷ [])
  dumps sep colon (obj fs) = b'{' ∷ (dumps_fields sep colon [] fs ++ b'}' ∷ [])

  -- `before` is what stands in front of the next element: nothing, and then `sep`
  pub dumps_items : Text → Text → Text → Items → Text
  dumps_items sep colon before nil = []
  dumps_items sep colon before (cons x xs) =
      before ++ (dumps sep colon x ++ dumps_items sep colon sep xs)

  pub dumps_fields : Text → Text → Text → Fields → Text
  dumps_fields sep colon before end = []
  dumps_fields sep colon before (field k x fs) =
      before ++ (quote (text k) ++ (colon ++ (dumps sep colon x ++ dumps_fields sep colon sep fs)))

abbrev hex4 : ℕ → Text
hex4 n =
    text "\\u"
    ++ hex_digit (n / 4096 % 16)
      ∷ hex_digit (n / 256 % 16)
      ∷ hex_digit (n / 16 % 16)
      ∷ hex_digit (n % 16)
      ∷ []

-- an astral character is written as its two surrogates
escape_ascii_code : ℕ → Text
unfolding escape_code
escape_ascii_code c =
    if ltb c 127
    then escape_code c
    else if ltb c 65536
    then hex4 c
    else hex4 (55296 + (c - 65536) / 1024) ++ hex4 (56320 + (c - 65536) % 1024)

escape_ascii : Text → Text
unfolding escape_ascii_code
escape_ascii [] = []
escape_ascii (c ∷ s) = escape_ascii_code c ++ escape_ascii s

-- `json.dumps(s)` of a text, with the default `ensure_ascii=True`
unfoldable pub dumps_ascii : Text → Text
unfolding escape_ascii
dumps_ascii s = b'"' ∷ (escape_ascii s ++ b'"' ∷ [])

-- `json.dumps(s, ensure_ascii=False)` of a text
unfoldable pub dumps_text : Text → Text
unfolding escape
dumps_text s = quote s
