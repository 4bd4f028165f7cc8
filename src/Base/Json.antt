-- ===== src/Base/Json.antt =====
-- JSON values as the services hold them: what `json.loads` gives for a jsonb column.
pub mod Dicts
pub mod Dumps
pub mod Repr
use Prim.Native.String.{String}
use mathlib.Core.Bool.{Bool}
use public_gbrain_agentos.Base.Int.{ℤ}

mutual
  -- a float is held by the text that Python prints for it
  pub data Json : Type 0 where
    null : Json
    bool : Bool → Json
    int : ℤ → Json
    float : String → Json
    str : String → Json
    arr : Items → Json
    obj : Fields → Json

  pub data Items : Type 0 where
    nil : Items
    cons : Json → Items → Items

  -- the entries of a dict, in insertion order
  pub data Fields : Type 0 where
    end : Fields
    field : String → Json → Fields → Fields
