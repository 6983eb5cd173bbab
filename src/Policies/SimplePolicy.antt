-- ===== src/Policies/SimplePolicy.antt =====
-- src/luthien_proxy/policies/simple_policy.py: `SimplePolicy`. The three methods that a subclass overrides are
-- the fields of `Simple`, without their context; `none` is an exception.
pub mod Blocks
mod Tests
use luthien_proxy.Base.{
  ℤ, String, str_eq, str_append, Bool, true, false, Option, none, some, List, [], ◌∷◌, ◌++◌, map,
  if◌then◌else◌,
}
use luthien_proxy.Base.Dict
use luthien_proxy.Base.Dict.{Dict}
use luthien_proxy.Json.{JsonValue, JsonObject, JsonLib}
use luthien_proxy.Stream.Event.{
  Event, content_block_start, content_block_delta, content_block_stop, BlockHead, text_block,
  tool_use_block, other_block, Delta, text_delta, input_json_delta,
}
use luthien_proxy.Builder.Types.{ContentBlock}

-- `AnthropicToolUseBlock`
pub record ToolUse : Type 0 where
  pub id : String
  pub name : String
  pub input : JsonValue

pub record Simple : Type 0 where
  pub simple_on_request : String → String
  pub simple_on_response_content : String → String
  pub simple_on_anthropic_tool_call : ToolUse → ToolUse

-- `_BufferedAnthropicToolUse`
pub record BufferedToolUse : Type 0 where
  pub id : String
  pub name : String
  pub input_json : String

-- `_SimplePolicyAnthropicState`
pub record Buffers : Type 0 where
  pub text_buffer : Dict String
  pub tool_buffer : Dict BufferedToolUse

abbrev pub no_buffers : Buffers
no_buffers = record { text_buffer = Dict.empty; tool_buffer = Dict.empty }

-- The content of a message of a request
pub data Content : Type 0 where
  plain : String → Content
  blocks : List ContentBlock → Content

unfoldable pub map_text : (String → String) → List ContentBlock → List ContentBlock
map_text f [] = []
map_text f (ContentBlock.text t ∷ bs) = ContentBlock.text (f t) ∷ map_text f bs
map_text f (b ∷ bs) = b ∷ map_text f bs

abbrev transform_content : Simple → Content → Content
transform_content p (plain t) = plain (p.simple_on_request t)
transform_content p (blocks bs) = blocks (map_text p.simple_on_request bs)

-- `on_anthropic_request`: only the last message changes.
unfoldable pub simple_request : Simple → List Content → List Content
unfolding map_text
simple_request p [] = []
simple_request p (m ∷ []) = transform_content p m ∷ []
simple_request p (m ∷ n ∷ ms) = m ∷ simple_request p (n ∷ ms)

abbrev to_block : ToolUse → ContentBlock
to_block t = ContentBlock.tool_use t.id t.name t.input

-- `on_anthropic_response`
unfoldable pub simple_response : Simple → List ContentBlock → List ContentBlock
simple_response p [] = []
simple_response p (ContentBlock.text t ∷ bs) =
    ContentBlock.text (p.simple_on_response_content t) ∷ simple_response p bs
simple_response p (ContentBlock.tool_use id name input ∷ bs) =
    to_block (p.simple_on_anthropic_tool_call (record { id = id; name = name; input = input }))
    ∷ simple_response p bs
simple_response p (ContentBlock.raw t payload ∷ bs) =
    ContentBlock.raw t payload ∷ simple_response p bs

unfoldable pub simple_start : ℤ → BlockHead → Buffers → Buffers
simple_start index (text_block t) s = record s { text_buffer = Dict.put s.text_buffer index "" }
simple_start index (tool_use_block id name) s = record s {
  tool_buffer = Dict.put s.tool_buffer index (record { id = id; name = name; input_json = "" });
}
simple_start index (other_block t) s = s

unfoldable pub simple_delta : ℤ → Delta → Buffers → Option (Buffers × List Event)
simple_delta index (text_delta t) s = elim (Dict.get s.text_buffer index) [
  | none ↦ none
  | some old ↦ some (record s { text_buffer = Dict.put s.text_buffer index (str_append old t) }, [])
]
simple_delta index (input_json_delta j) s = elim (Dict.get s.tool_buffer index) [
  | none ↦ none
  | some tool ↦ some (
    record s {
      tool_buffer =
          Dict.put s.tool_buffer index (record tool { input_json = str_append tool.input_json j });
    },
    [],
  )
]
simple_delta index delta s = some (s, content_block_delta index delta ∷ [])

-- `json.loads(input_json) if input_json else {}`
abbrev pub input_data : JsonLib → String → Option JsonValue
input_data lib input_json =
    if str_eq input_json "" then some (JsonValue.object JsonObject.end) else lib.loads input_json

-- the stop of a buffered tool call
unfoldable pub simple_tool_stop : JsonLib → Simple → ℤ → BufferedToolUse → Option (List Event)
simple_tool_stop lib p index tool = elim (input_data lib tool.input_json) [
  | none ↦ none
  | some input ↦
      let transformed =
        p.simple_on_anthropic_tool_call
          (record { id = tool.id; name = tool.name; input = input }) in
      some (
        content_block_delta index (input_json_delta (lib.dumps transformed.input))
        ∷ content_block_stop index
        ∷ [])
]

unfoldable pub simple_stop : JsonLib → Simple → ℤ → Buffers → Option (Buffers × List Event)
simple_stop lib p index s = elim (Dict.get s.text_buffer index) [
  | some content ↦ some (
    record s { text_buffer = Dict.remove s.text_buffer index },
    content_block_delta index (text_delta (p.simple_on_response_content content))
        ∷ content_block_stop index
        ∷ [],
  )
  | none ↦ elim (Dict.get s.tool_buffer index) [
    | none ↦ some (s, content_block_stop index ∷ [])
    | some tool ↦ elim (simple_tool_stop lib p index tool) [
      | none ↦ none
      | some events ↦ some (record s { tool_buffer = Dict.remove s.tool_buffer index }, events)
    ]
  ]
]

-- `on_anthropic_stream_event`
unfoldable pub simple_stream_event :
    JsonLib → Simple → Event → Buffers → Option (Buffers × List Event)
simple_stream_event lib p (content_block_start index head) s =
    some (simple_start index head s, content_block_start index head ∷ [])
simple_stream_event lib p (content_block_delta index delta) s = simple_delta index delta s
simple_stream_event lib p (content_block_stop index) s = simple_stop lib p index s
simple_stream_event lib p event s = some (s, event ∷ [])

-- the rest of a stream after a step that has not raised
abbrev pub after_step :
    Option (Buffers × List Event)
    → (Buffers → Option (Buffers × List Event))
    → Option (Buffers × List Event)
after_step none rest = none
after_step (some (s, here)) rest = elim (rest s) [
  | none ↦ none
  | some (s', later) ↦ some (s', here ++ later)
]

unfoldable pub simple_stream :
    JsonLib → Simple → List Event → Buffers → Option (Buffers × List Event)
simple_stream lib p [] s = some (s, [])
simple_stream lib p (e ∷ es) s = after_step (simple_stream_event lib p e s) (simple_stream lib p es)
