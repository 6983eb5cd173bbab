-- ===== src/Stream/Event.antt =====
-- The events that the Anthropic SDK hands to a policy, and that a policy hands on: the fields that
-- the gateway's code reads or writes.
use luthien_proxy.Base.{ℕ, ℤ, String, Option, none, some}

pub data StopReason : Type 0 where
  end_turn max_tokens stop_sequence tool_use pause_turn refusal : StopReason

pub data Delta : Type 0 where
  text_delta input_json_delta : String → Delta
  -- a `thinking_delta`, a `signature_delta`: its type and its payload
  other_delta : String → String → Delta

-- The `content_block` of a start event. `tool_use` holds the id and the name.
pub data BlockHead : Type 0 where
  text_block : String → BlockHead
  tool_use_block : String → String → BlockHead
  other_block : String → BlockHead

pub record MessageDelta : Type 0 where
  pub stop_reason : Option StopReason
  pub stop_sequence : Option String
  pub output_tokens : ℕ

pub data Event : Type 0 where
  message_start : String → Event
  content_block_start : ℤ → BlockHead → Event
  content_block_delta : ℤ → Delta → Event
  content_block_stop : ℤ → Event
  message_delta : MessageDelta → Event
  message_stop : Event
  -- `ping` and the like
  other_event : String → Event

-- What `getattr(event, "type", None)` and `getattr(event, "index", None)` see of an event.
pub data EventType : Type 0 where
  message_start content_block_start content_block_delta : EventType
  content_block_stop message_delta message_stop : EventType
  other : String → EventType

pub record EventView : Type 0 where
  pub type : Option EventType
  pub index : Option ℤ

abbrev pub view : Event → EventView
view (message_start _) = record { type = some EventType.message_start; index = none }
view (content_block_start i _) = record {
  type = some EventType.content_block_start;
  index = some i;
}
view (content_block_delta i _) = record {
  type = some EventType.content_block_delta;
  index = some i;
}
view (content_block_stop i) = record { type = some EventType.content_block_stop; index = some i }
view (message_delta _) = record { type = some EventType.message_delta; index = none }
view message_stop = record { type = some EventType.message_stop; index = none }
view (other_event t) = record { type = some (EventType.other t); index = none }
