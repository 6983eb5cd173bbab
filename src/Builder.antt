-- ===== src/Builder.antt =====
-- src/luthien_proxy/policy_core/anthropic_message_builder.py: the state of `AnthropicMessageBuilder` and its
-- methods. A method that mutates the builder returns the new builder beside its result; `none`
-- stands for the RuntimeError of a second finalize.
pub mod Types
pub mod Marker
pub mod Dispatch
pub mod Runs
pub mod Response
pub mod Order
pub mod Tools
pub mod Protocol
mod Tests
use luthien_proxy.Base.{
  str_eq, str_append, ℕ, suc, ℤ, pos, String, Bool, true, false, not, ◌&&◌, ◌||◌, Option, none,
  some, List, [], ◌∷◌, ◌++◌, if◌then◌else◌, is_some, is_nil,
}
use luthien_proxy.Base.Dict
use luthien_proxy.Base.Dict.{Dict}
use luthien_proxy.Stream.Event.{
  Event, content_block_start, content_block_delta, content_block_stop, BlockHead, text_block,
  tool_use_block, other_block, Delta, text_delta, input_json_delta, MessageDelta, StopReason,
}
use luthien_proxy.Builder.Types.{
  BlockDescriptor, ContentBlock, QueuedTool, BlockedToolRecord, BufferedTool, Builder, raw_type,
}
use luthien_proxy.Builder.Marker.{blocked_tools_marker}

-- AnthropicMessageBuilder()
abbrev pub fresh : Builder
fresh = record {
  text_buffer = Dict.empty;
  tool_buffer = Dict.empty;
  committed_descriptors = [];
  pre_tool_blocks = [];
  buffered_tools = [];
  blocked_tools = [];
  pending_warning_text = none;
  pending_fallback_text = none;
  next_output_index = 0;
  passthrough_index_map = Dict.empty;
  finalized = false;
}

unfoldable pub begin_text_buffer : ℤ → Builder → Builder
begin_text_buffer index b = record b { text_buffer = Dict.put b.text_buffer index "" }

unfoldable pub append_text_delta : ℤ → String → Builder → Builder × Bool
append_text_delta index text b = elim (Dict.get b.text_buffer index) [
  | none ↦ (b, false)
  | some old ↦ (record b { text_buffer = Dict.put b.text_buffer index (str_append old text) }, true)
]

unfoldable pub take_text : ℤ → Builder → Builder × Option String
take_text index b =
    (record b { text_buffer = Dict.remove b.text_buffer index }, Dict.get b.text_buffer index)

unfoldable pub begin_tool_buffer : ℤ → String → String → Builder → Builder
begin_tool_buffer index id name b = record b {
  tool_buffer = Dict.put b.tool_buffer index (record { id = id; name = name; input_json = "" });
}

unfoldable pub append_tool_delta : ℤ → String → Builder → Builder × Bool
append_tool_delta index partial_json b = elim (Dict.get b.tool_buffer index) [
  | none ↦ (b, false)
  | some tool ↦ (
    record b {
      tool_buffer =
          Dict.put b.tool_buffer index
            (record tool { input_json = str_append tool.input_json partial_json });
    },
    true,
  )
]

unfoldable pub take_tool : ℤ → Builder → Builder × Option BufferedTool
take_tool index b =
    (record b { tool_buffer = Dict.remove b.tool_buffer index }, Dict.get b.tool_buffer index)

-- `bool(text)` of an optional text
abbrev pub is_truthy : Option String → Bool
is_truthy none = false
is_truthy (some t) = not (str_eq t "")

abbrev pub has_emitted_anything : Builder → Bool
has_emitted_anything b =
    not (is_nil b.committed_descriptors)
    || not (is_nil b.buffered_tools)
    || not (is_nil b.blocked_tools)
    || is_truthy b.pending_warning_text

-- `_allocate_index`
unfoldable pub allocate_index : Builder → Builder × ℕ
allocate_index b = (record b { next_output_index = suc b.next_output_index }, b.next_output_index)

unfoldable pub events_for_text : ℕ → String → List Event
events_for_text index text =
    content_block_start (pos index) (text_block "")
    ∷ content_block_delta (pos index) (text_delta text)
    ∷ content_block_stop (pos index)
    ∷ []

-- `input_json or "{}"`
abbrev pub or_empty_object : String → String
or_empty_object input_json = if str_eq input_json "" then "{}" else input_json

unfoldable pub events_for_tool_use : ℕ → QueuedTool → List Event
events_for_tool_use index tool =
    content_block_start (pos index) (tool_use_block tool.id tool.name)
    ∷ content_block_delta (pos index) (input_json_delta (or_empty_object tool.input_json))
    ∷ content_block_stop (pos index)
    ∷ []

-- `_emit_text_now`
unfoldable pub emit_text_now : String → Builder → Builder × List Event
unfolding events_for_text
emit_text_now text b = (
  record b {
    next_output_index = suc b.next_output_index;
    committed_descriptors =
        b.committed_descriptors ++ record { type = "text"; content = text } ∷ [];
    pre_tool_blocks = b.pre_tool_blocks ++ ContentBlock.text text ∷ [];
  },
  events_for_text b.next_output_index text,
)

-- `_emit_tool_now`
unfoldable pub emit_tool_now : QueuedTool → Builder → Builder × List Event
unfolding events_for_tool_use
emit_tool_now tool b = (
  record b { next_output_index = suc b.next_output_index },
  events_for_tool_use b.next_output_index tool,
)

unfoldable pub commit_text : String → Builder → Builder × List Event
commit_text text b = if str_eq text "" then (b, []) else emit_text_now text b

unfoldable pub descriptor_from_tool : String → String → BlockDescriptor
descriptor_from_tool name input_json = record {
  type = "tool_use";
  content = str_append name (str_append "(" (str_append (or_empty_object input_json) ")"));
}

unfoldable pub buffer_tool : String → String → String → Builder → Builder
buffer_tool id name input_json b = record b {
  buffered_tools =
      b.buffered_tools ++ record { id = id; name = name; input_json = input_json } ∷ [];
  committed_descriptors = b.committed_descriptors ++ descriptor_from_tool name input_json ∷ [];
}

unfoldable pub record_blocked_tool : String → Bool → Builder → Builder
record_blocked_tool name judge_failed b = record b {
  blocked_tools = b.blocked_tools ++ record { name = name; judge_failed = judge_failed } ∷ [];
}

unfoldable pub note_judge_unavailable : String → Builder → Builder
note_judge_unavailable text b = record b { pending_warning_text = some text }

unfoldable pub set_fallback_text : String → Builder → Builder
set_fallback_text text b = record b { pending_fallback_text = some text }

unfoldable pub commit_raw_block : ContentBlock → Builder → Builder
commit_raw_block block b = record b {
  pre_tool_blocks = b.pre_tool_blocks ++ block ∷ [];
  committed_descriptors =
      b.committed_descriptors ++ record { type = raw_type block; content = "" } ∷ [];
}

-- `getattr(event.content_block, "type", "passthrough") or "passthrough"`
abbrev pub head_type : BlockHead → String
head_type (text_block _) = "text"
head_type (tool_use_block _ _) = "tool_use"
head_type (other_block t) = if str_eq t "" then "passthrough" else t

unfoldable pub passthrough_start : ℤ → BlockHead → Builder → Builder × List Event
passthrough_start index head b = (
  record b {
    next_output_index = suc b.next_output_index;
    passthrough_index_map = Dict.put b.passthrough_index_map index b.next_output_index;
    committed_descriptors =
        b.committed_descriptors ++ record { type = head_type head; content = "" } ∷ [];
  },
  content_block_start (pos b.next_output_index) head ∷ [],
)

unfoldable pub passthrough_delta : ℤ → Delta → Builder → List Event
passthrough_delta index delta b = elim (Dict.get b.passthrough_index_map index) [
  | none ↦ []
  | some idx ↦ content_block_delta (pos idx) delta ∷ []
]

unfoldable pub passthrough_stop : ℤ → Builder → List Event
passthrough_stop index b = elim (Dict.get b.passthrough_index_map index) [
  | none ↦ []
  | some idx ↦ content_block_stop (pos idx) ∷ []
]
