-- ===== src/Base/Json/Repr.antt =====
-- Python's `str`, `bool` and `or` on JSON values. `repr_str` is `repr` on a `str`, whose choice of
-- escapes rests on the Unicode tables.
use Prim.Native.Nat.{zero}
use mathlib.Core.Bool.{Bool, true, false, not, ◌&&◌}
use mathlib.Core.Option.{Option, none, some}
use mathlib.Core.List.{[], ◌∷◌, ◌++◌}
use public_gbrain_agentos.Base.Tests.{if◌then◌else◌}
use public_gbrain_agentos.Base.Int.{pos}
use public_gbrain_agentos.Base.Text.{Text, text, decimal_ℤ}
use public_gbrain_agentos.Base.Json.{
  Json, null, bool, int, float, str, arr, obj, Items, nil, cons, Fields, end, field,
}
use package.text.Mathlib.Text.{◌==◌ as ◌=ₛ◌}

-- bool(v)
abbrev pub truthy : Json → Bool
truthy null = false
truthy (bool b) = b
truthy (int (pos zero)) = false
truthy (float s) = not (s =ₛ "0.0") && not (s =ₛ "-0.0")
truthy (str s) = not (s =ₛ "")
truthy (arr nil) = false
truthy (obj end) = false
truthy _ = true

-- `d.get(k) or rest`
abbrev pub or_else_json : Option Json → Json → Json
or_else_json none rest = rest
or_else_json (some v) rest = if truthy v then v else rest

unfoldable mutual
  unfolding decimal_ℤ

  pub py_repr : (Text → Text) → Json → Text
  py_repr repr_str null = text "None"
  py_repr repr_str (bool true) = text "True"
  py_repr repr_str (bool false) = text "False"
  py_repr repr_str (int n) = decimal_ℤ n
  py_repr repr_str (float s) = text s
  py_repr repr_str (str s) = repr_str (text s)
  py_repr repr_str (arr xs) = b'[' ∷ (repr_items repr_str [] xs ++ b']' ∷ [])
  py_repr repr_str (obj fs) = b'{' ∷ (repr_fields repr_str [] fs ++ b'}' ∷ [])

  repr_items : (Text → Text) → Text → Items → Text
  repr_items repr_str before nil = []
  repr_items repr_str before (cons x xs) =
      before ++ (py_repr repr_str x ++ repr_items repr_str (text ", ") xs)

  repr_fields : (Text → Text) → Text → Fields → Text
  repr_fields repr_str before end = []
  repr_fields repr_str before (field k x fs) =
      before
      ++ (repr_str (text k)
          ++ (text ": " ++ (py_repr repr_str x ++ repr_fields repr_str (text ", ") fs)))

-- str(v), which is also what an f-string puts in
unfoldable pub py_str : (Text → Text) → Json → Text
unfolding py_repr
py_str repr_str (str s) = text s
py_str repr_str v = py_repr repr_str v
