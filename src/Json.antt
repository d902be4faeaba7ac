-- ===== src/Json.antt =====
-- The values that `json.dumps` takes: what evidence.py hashes, and what a tool's arguments are.
use toolboundary.Common.{String, Bool}

mutual
  pub data Json : Type 0 where
    null : Json
    boolean : Bool → Json
    -- a number, by the text that `json.dumps` writes for it
    number : String → Json
    string : String → Json
    array : Items → Json
    object : Fields → Json

  pub data Items : Type 0 where
    nil : Items
    cons : Json → Items → Items

  pub data Fields : Type 0 where
    end : Fields
    field : String → Json → Fields → Fields
