-- ===== src/Models/Values.antt =====
-- The JSON values of tool results (`dict[str, Any]`), as tools.py and decision.py read them. A
-- number is a decimal, `mantissa / 10 ^ scale` with a sign, as it is written in JSON text.
use agent_resilience_runtime.Prelude.{
  ℕ, ◌^◌, String, Bool, Option, none, some, ◌||◌, ◌==◌, string_eq, ltb, if◌then◌else◌,
}

pub record Decimal : Type 0 where
  pub negative : Bool
  pub mantissa : ℕ
  pub scale : ℕ

mutual
  pub data Json : Type 0 where
    null : Json
    bool : Bool → Json
    num : Decimal → Json
    text : String → Json
    arr : Items → Json
    obj : Fields → Json

  pub data Items : Type 0 where
    nil : Items
    cons : Json → Items → Items

  pub data Fields : Type 0 where
    end : Fields
    field : String → Json → Fields → Fields

-- `value.get(key)` of a dict
abbrev pub get : String → Fields → Option Json
get k end = none
get k (field j v fs) = if j == k then some v else get k fs

-- `float(rate) < 1.0`
abbrev pub below_one : Decimal → Bool
below_one d = d.negative || ltb d.mantissa (10 ^ d.scale)
