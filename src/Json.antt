-- ===== src/Json.antt =====
-- JSON values, which the code holds as Python objects. Floats are not modelled.
use universal_execution_syst.Prelude.{ℕ, String, Bool}

mutual
  pub data Json : Type 0 where
    null : Json
    bool : Bool → Json
    -- a number's sign (`true` for minus) and magnitude
    number : Bool → ℕ → Json
    text : String → Json
    array : Items → Json
    object : Fields → Json

  pub data Items : Type 0 where
    nil : Items
    cons : Json → Items → Items

  pub data Fields : Type 0 where
    end : Fields
    field : String → Json → Fields → Fields
