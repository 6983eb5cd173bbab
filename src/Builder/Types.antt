-- ===== src/Builder/Types.antt =====
-- The data of anthropic_message_builder.py and block_descriptor.py.
use luthien_proxy.Base.{str_eq, ℕ, String, Bool, Option, none, some, List, if◌then◌else◌}
use luthien_proxy.Base.Dict.{Dict}
use luthien_proxy.Json.{JsonValue, JsonObject}

pub record BlockDescriptor : Type 0 where
  pub type : String
  pub content : String

-- A content block of a response. `raw` is a block of any other type, or an SDK object: its `type`,
-- where it has one, and its payload.
pub data ContentBlock : Type 0 where
  text : String → ContentBlock
  tool_use : String → String → JsonValue → ContentBlock
  raw : Option String → JsonObject → ContentBlock

-- `(block type) or "passthrough"`
abbrev pub raw_type : ContentBlock → String
raw_type (text _) = "text"
raw_type (tool_use _ _ _) = "tool_use"
raw_type (raw none _) = "passthrough"
raw_type (raw (some t) _) = if str_eq t "" then "passthrough" else t

pub record QueuedTool : Type 0 where
  pub id : String
  pub name : String
  pub input_json : String

pub record BlockedToolRecord : Type 0 where
  pub name : String
  pub judge_failed : Bool

pub record BufferedTool : Type 0 where
  pub id : String
  pub name : String
  pub input_json : String

-- `_BuilderState`. A buffered text block is its text, and an output index is never negative.
pub record Builder : Type 0 where
  pub text_buffer : Dict String
  pub tool_buffer : Dict BufferedTool
  pub committed_descriptors : List BlockDescriptor
  pub pre_tool_blocks : List ContentBlock
  pub buffered_tools : List QueuedTool
  pub blocked_tools : List BlockedToolRecord
  pub pending_warning_text : Option String
  pub pending_fallback_text : Option String
  pub next_output_index : ℕ
  pub passthrough_index_map : Dict ℕ
  pub finalized : Bool
