-- ===== src/Builder/Response.antt =====
-- The non-streaming side of anthropic_message_builder.py: `parse_tool_input`, `to_anthropic_response` and
-- `compose_tool_only_response`.
pub mod Blocks
pub mod Order
mod Tests
use luthien_proxy.Base.{
  String, str_eq, Bool, true, false, not, ◌||◌, Option, none, some, List, [], ◌∷◌, ◌++◌, map,
  any_of, is_nil, if◌then◌else◌,
}
use luthien_proxy.Json.{JsonValue, JsonItems, JsonObject, JsonLib}
use luthien_proxy.Stream.Event.{StopReason}
use luthien_proxy.Builder
use luthien_proxy.Builder.Types.{ContentBlock, QueuedTool, BufferedTool, Builder}
use luthien_proxy.Builder.Dispatch.{correct_stop_reason, marker_text}

-- The fields of `AnthropicResponse` that the builder replaces, and all others in `shell`
pub record AnthropicResponse : Type 0 where
  pub content : List ContentBlock
  pub stop_reason : Option StopReason
  pub shell : JsonObject

-- the object that stands for malformed input
abbrev pub raw_input : String → JsonObject
raw_input input_json = JsonObject.field "_raw" (JsonValue.string input_json) JsonObject.end

abbrev pub parsed_or_raw : String → Option JsonValue → JsonObject
parsed_or_raw input_json (some (JsonValue.object o)) = o
parsed_or_raw input_json _ = raw_input input_json

unfoldable pub parse_tool_input : JsonLib → String → JsonObject
parse_tool_input lib input_json =
    if str_eq input_json "" then JsonObject.end else parsed_or_raw input_json (lib.loads input_json)

unfoldable pub tool_block : JsonLib → QueuedTool → ContentBlock
tool_block lib tool =
    ContentBlock.tool_use tool.id tool.name
      (JsonValue.object (parse_tool_input lib tool.input_json))

abbrev pub optional_text : Option String → List ContentBlock
optional_text none = []
optional_text (some text) = ContentBlock.text text ∷ []

-- `if not new_content and s.pending_fallback_text is not None`
unfoldable pub or_fallback : Option String → List ContentBlock → List ContentBlock
or_fallback fallback [] = optional_text fallback
or_fallback fallback (block ∷ blocks) = block ∷ blocks

unfoldable pub new_content : JsonLib → Builder → List ContentBlock
new_content lib b = or_fallback b.pending_fallback_text (
    b.pre_tool_blocks
    ++ (optional_text b.pending_warning_text
        ++ (optional_text (marker_text b) ++ map (tool_block lib) b.buffered_tools)))

-- `none`: "AnthropicMessageBuilder.to_anthropic_response called after finalize"
unfoldable pub to_anthropic_response :
    JsonLib → AnthropicResponse → Builder → Option (Builder × AnthropicResponse)
to_anthropic_response lib template b =
    if b.finalized
    then none
    else some (
      record b { finalized = true },
      record template {
        content = new_content lib b;
        stop_reason = correct_stop_reason (is_nil b.buffered_tools) template.stop_reason;
      },
    )

-- The hook of the non-streaming path
abbrev pub ToolBlockHandler : Type 0
ToolBlockHandler = BufferedTool → Builder → Builder

-- Python's truth of a JSON value
abbrev pub is_true : JsonLib → JsonValue → Bool
is_true lib JsonValue.null = false
is_true lib (JsonValue.bool b) = b
is_true lib (JsonValue.number n) = not (lib.is_zero n)
is_true lib (JsonValue.string s) = not (str_eq s "")
is_true lib (JsonValue.array JsonItems.nil) = false
is_true lib (JsonValue.array (JsonItems.cons v vs)) = true
is_true lib (JsonValue.object JsonObject.end) = false
is_true lib (JsonValue.object (JsonObject.field k v o)) = true

abbrev pub input_text : JsonLib → JsonValue → String
input_text lib (JsonValue.string s) = s
input_text lib v = if is_true lib v then lib.dumps v else "{}"

-- The body of the loop
unfoldable pub commit_block : JsonLib → ContentBlock → ToolBlockHandler → Builder → Builder
commit_block lib (ContentBlock.text text) on_tool b = (Builder.commit_text text b).0
commit_block lib (ContentBlock.tool_use id name input) on_tool b =
    on_tool (record { id = id; name = name; input_json = input_text lib input }) b
commit_block lib (ContentBlock.raw type payload) on_tool b =
    Builder.commit_raw_block (ContentBlock.raw type payload) b

unfoldable pub commit_blocks : JsonLib → List (ContentBlock × ToolBlockHandler) → Builder → Builder
commit_blocks lib [] b = b
commit_blocks lib ((block, on_tool) ∷ blocks) b =
    commit_blocks lib blocks (commit_block lib block on_tool b)

abbrev pub is_tool_block : ContentBlock → Bool
is_tool_block (ContentBlock.tool_use id name input) = true
is_tool_block _ = false

-- `compose_tool_only_response` of a response whose content is `blocks`, each with the hook as it acts
-- at that block
unfoldable pub compose_tool_only_response :
    JsonLib → AnthropicResponse → List (ContentBlock × ToolBlockHandler) → Option AnthropicResponse
compose_tool_only_response lib response blocks =
    let whole = record response { content = map (λ t. t.0) blocks } in
    if any_of is_tool_block whole.content
    then elim (to_anthropic_response lib whole (commit_blocks lib blocks Builder.fresh)) [
      | none ↦ none
      | some (b, composed) ↦ some composed
    ]
    else some whole
