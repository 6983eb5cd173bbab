-- ===== src/Builder/Response/Tests.antt =====
-- A response with a text, an allowed tool and a blocked one.
use luthien_proxy.Base.{◌≡◌, refl, str_eq, true, false, none, some, List, [], ◌∷◌, if◌then◌else◌}
use luthien_proxy.Json.{JsonValue, JsonObject, JsonLib}
use luthien_proxy.Stream.Event.{StopReason}
use luthien_proxy.Builder
use luthien_proxy.Builder.Types.{ContentBlock}
use luthien_proxy.Builder.Dispatch.{Decision, decide_all}
use luthien_proxy.Builder.Response.{
  AnthropicResponse, ToolBlockHandler, commit_blocks, compose_tool_only_response,
}
use luthien_proxy.Builder.Response.Blocks.{AllDecide}
use luthien_proxy.Builder.Response.Order.{
  trailing_tools, block_calls, AreCalls, IsStop, compose-trailing_tools,
}

-- only the empty object is read and written
abbrev empty_json : JsonLib
empty_json = record {
  loads = λ s. if str_eq s "{}" then some (JsonValue.object JsonObject.end) else none;
  dumps = λ v. "{}";
  is_zero = λ n. str_eq n "0";
}

abbrev allow : ToolBlockHandler
allow tool b = (decide_all (Decision.buffer_tool tool.id tool.name tool.input_json ∷ []) b).0

abbrev block : ToolBlockHandler
block tool b = (decide_all (Decision.record_blocked_tool tool.name false ∷ []) b).0

abbrev blocks : List (ContentBlock × ToolBlockHandler)
blocks =
    (ContentBlock.text "hi", allow)
    ∷ (ContentBlock.tool_use "t1" "ls" JsonValue.null, allow)
    ∷ (ContentBlock.tool_use "t2" "rm" JsonValue.null, block)
    ∷ []

abbrev upstream : AnthropicResponse
upstream = record { content = []; stop_reason = some StopReason.tool_use; shell = JsonObject.end }

blocks_decide : AllDecide blocks
blocks_decide = (
  λ tool b. (Decision.buffer_tool tool.id tool.name tool.input_json ∷ [], refl),
  (
    λ tool b. (Decision.buffer_tool tool.id tool.name tool.input_json ∷ [], refl),
    (λ tool b. (Decision.record_blocked_tool tool.name false ∷ [], refl), tt),
  ),
)

compose-trailing_tools_example :
    (composed : AnthropicResponse) × (compose_tool_only_response empty_json upstream blocks
      ≡ some composed)
    × (trailing_tools composed.content ≡ true)
    × AreCalls empty_json
        (commit_blocks empty_json blocks Builder.fresh).buffered_tools
        (block_calls composed.content)
    × IsStop
        (commit_blocks empty_json blocks Builder.fresh).buffered_tools
        upstream.stop_reason
        composed.stop_reason
compose-trailing_tools_example =
    compose-trailing_tools empty_json upstream blocks blocks_decide refl
