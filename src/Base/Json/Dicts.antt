-- ===== src/Base/Json/Dicts.antt =====
-- Python dicts with text keys, as `json.loads` gives them.
use Prim.Native.String.{String}
use mathlib.Core.Option.{Option, none, some}
use text.Mathlib.Text.{◌==◌ as ◌=ₛ◌}
use public_gbrain_agentos.Base.Tests.{if◌then◌else◌}
use public_gbrain_agentos.Base.Json.{Json, Fields, end, field}

-- `payload.get(key)`
unfoldable pub get : String → Fields → Option Json
get key end = none
get key (field k v fs) = if k =ₛ key then some v else get key fs

-- `payload[key] = value`
unfoldable pub set_key : String → Json → Fields → Fields
set_key key value end = field key value end
set_key key value (field k v fs) =
    if k =ₛ key then field key value fs else field k v (set_key key value fs)

-- `d.setdefault(key, value)`
unfoldable pub set_default : String → Json → Fields → Fields
unfolding get set_key
set_default key value fields = elim (get key fields) [
  | some old ↦ fields
  | none ↦ set_key key value fields
]
