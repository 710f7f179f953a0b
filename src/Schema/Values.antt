-- ===== src/Schema/Values.antt =====
-- A value of type `any` that encoding/json has decoded.
use unify_em.Base.{String, Bool}

mutual
  -- A float64 is held by its texts under `%f` and `%v`.
  pub data Json : Type 0 where
    null : Json
    text : String → Json
    number : String → String → Json
    boolean : Bool → Json
    array : Items → Json
    object : Fields → Json

  pub data Items : Type 0 where
    nil : Items
    cons : Json → Items → Items

  pub data Fields : Type 0 where
    end : Fields
    field : String → Json → Fields → Fields
