-- ===== src/Json.antt =====
-- JSON values (src/luthien_proxy/llm/types/anthropic.py: `JSONValue`, `JSONObject`), and the two functions
-- of Python's `json` that the gateway calls. A number is kept as its text.
use luthien_proxy.Base.{String, Bool, Option}

mutual
  pub data JsonValue : Type 0 where
    null : JsonValue
    bool : Bool → JsonValue
    number : String → JsonValue
    string : String → JsonValue
    array : JsonItems → JsonValue
    object : JsonObject → JsonValue

  pub data JsonItems : Type 0 where
    nil : JsonItems
    cons : JsonValue → JsonItems → JsonItems

  pub data JsonObject : Type 0 where
    end : JsonObject
    field : String → JsonValue → JsonObject → JsonObject

-- `json.loads` raises `JSONDecodeError` where this is `none`; `is_zero` tells the numbers that Python
-- takes for false.
pub record JsonLib : Type 0 where
  pub loads : String → Option JsonValue
  pub dumps : JsonValue → String
  pub is_zero : String → Bool
