-- ===== src/Json.antt =====
-- JSON values as the code builds and stores them. What `json.dumps` writes, `json.loads` reads
-- back, so a column of JSON text holds the value itself.
use shared_integration.Prelude.{ℕ, String, Bool}

mutual
  pub data Json : Type 0 where
    null : Json
    flag : Bool → Json
    num : ℕ → Json
    text : String → Json
    arr : Items → Json
    obj : Fields → Json

  pub data Items : Type 0 where
    nil : Items
    cons : Json → Items → Items

  pub data Fields : Type 0 where
    end : Fields
    field : String → Json → Fields → Fields
