-- ===== src/Builder/Dispatch.antt =====
-- `finalize` and `dispatch_tool_only` of anthropic_message_builder.py, and a whole stream driven
-- through the latter.
use luthien_proxy.Base.{
  ℤ, String, Bool, true, false, ◌&&◌, Option, none, some, List, [], ◌∷◌, ◌++◌, is_nil,
  if◌then◌else◌,
}
use luthien_proxy.Stream.Event.{
  Event, content_block_start, content_block_delta, content_block_stop, message_delta, BlockHead,
  tool_use_block, Delta, input_json_delta, MessageDelta, StopReason, tool_use, end_turn,
}
use luthien_proxy.Builder.Types.{QueuedTool, BufferedTool, Builder}
use luthien_proxy.Builder.Marker.{blocked_tools_marker}
use luthien_proxy.Builder

-- `for tool in s.buffered_tools: events.extend(self._emit_tool_now(tool))`
unfoldable pub emit_tools : List QueuedTool → Builder → Builder × List Event
emit_tools [] b = (b, [])
emit_tools (tool ∷ tools) b =
    let (b1, here) = Builder.emit_tool_now tool b in
    let (b2, rest) = emit_tools tools b1 in (b2, here ++ rest)

-- `if text is not None: events.extend(self._emit_text_now(text))`
unfoldable pub emit_optional : Option String → Builder → Builder × List Event
emit_optional none b = (b, [])
emit_optional (some text) b = Builder.emit_text_now text b

-- The fallback text, if nothing else has been or will be emitted
abbrev pub fallback_text : Builder → Option String
fallback_text b = if Builder.has_emitted_anything b then none else b.pending_fallback_text

abbrev pub marker_text : Builder → Option String
marker_text b = if is_nil b.blocked_tools then none else some (blocked_tools_marker b.blocked_tools)

abbrev pub is_tool_use : Option StopReason → Bool
is_tool_use (some tool_use) = true
is_tool_use _ = false

-- The conservative correction of the stop reason
unfoldable pub correct_stop_reason : Bool → Option StopReason → Option StopReason
correct_stop_reason no_tools upstream =
    if is_tool_use upstream && no_tools then some end_turn else upstream

-- The body of `finalize` behind its guard
unfoldable pub flush : MessageDelta → Builder → Builder × List Event
flush delta b =
    let (b1, fallback) = emit_optional (fallback_text b) b in
    let (b2, warning) = emit_optional b1.pending_warning_text b1 in
    let (b3, marker) = emit_optional (marker_text b2) b2 in
    let (b4, tools) = emit_tools b3.buffered_tools b3 in
    let corrected = record delta {
      stop_reason = correct_stop_reason (is_nil b4.buffered_tools) delta.stop_reason;
    } in
    (b4, fallback ++ (warning ++ (marker ++ (tools ++ message_delta corrected ∷ []))))

-- `none`: "AnthropicMessageBuilder.finalize called twice"
unfoldable pub finalize : MessageDelta → Builder → Option (Builder × List Event)
finalize delta b = if b.finalized then none else some (flush delta (record b { finalized = true }))

-- The hook that a policy supplies
abbrev pub ToolStopHandler : Type 0
ToolStopHandler = BufferedTool → Builder → Builder × List Event

unfoldable pub dispatch_start : ℤ → BlockHead → Builder → Builder × List Event
dispatch_start index (tool_use_block id name) b = (Builder.begin_tool_buffer index id name b, [])
dispatch_start index head b = Builder.passthrough_start index head b

unfoldable pub dispatch_delta : ℤ → Delta → Builder → Builder × List Event
dispatch_delta index (input_json_delta partial_json) b =
    let (b1, buffered) = Builder.append_tool_delta index partial_json b in
    if buffered
    then (b1, [])
    else (b1, Builder.passthrough_delta index (input_json_delta partial_json) b1)
dispatch_delta index delta b = (b, Builder.passthrough_delta index delta b)

unfoldable pub stopped : Option BufferedTool → ℤ → ToolStopHandler → Builder → Builder × List Event
stopped (some tool) index on_tool_stop b = on_tool_stop tool b
stopped none index on_tool_stop b = (b, Builder.passthrough_stop index b)

unfoldable pub dispatch_stop : ℤ → ToolStopHandler → Builder → Builder × List Event
dispatch_stop index on_tool_stop b =
    let (b1, tool) = Builder.take_tool index b in stopped tool index on_tool_stop b1

unfoldable pub dispatch_tool_only :
    Event → ToolStopHandler → Builder → Option (Builder × List Event)
dispatch_tool_only (content_block_start index head) on_tool_stop b =
    some (dispatch_start index head b)
dispatch_tool_only (content_block_delta index delta) on_tool_stop b =
    some (dispatch_delta index delta b)
dispatch_tool_only (content_block_stop index) on_tool_stop b =
    some (dispatch_stop index on_tool_stop b)
dispatch_tool_only (message_delta delta) on_tool_stop b = finalize delta b
dispatch_tool_only event on_tool_stop b = some (b, event ∷ [])

abbrev pub prepend : List Event → Option (Builder × List Event) → Option (Builder × List Event)
prepend here none = none
prepend here (some (b, later)) = some (b, here ++ later)

-- Goes on from a step that has not raised.
abbrev pub continue :
    Option (Builder × List Event)
    → (Builder → Option (Builder × List Event))
    → Option (Builder × List Event)
continue none rest = none
continue (some (b, here)) rest = prepend here (rest b)

-- A stream of events, each with the hook that the policy hands over with it, and all that comes
-- out; `none` if a call raises.
unfoldable pub run : List (Event × ToolStopHandler) → Builder → Option (Builder × List Event)
run [] b = some (b, [])
run ((event, on_tool_stop) ∷ rest) b = continue (dispatch_tool_only event on_tool_stop b) (run rest)

-- What a hook may do: the three primitives that its documentation names, in any number and order.
pub data Decision : Type 0 where
  commit_text : String → Decision
  buffer_tool : String → String → String → Decision
  record_blocked_tool : String → Bool → Decision

unfoldable pub decide : Decision → Builder → Builder × List Event
decide (commit_text text) b = Builder.commit_text text b
decide (buffer_tool id name input_json) b = (Builder.buffer_tool id name input_json b, [])
decide (record_blocked_tool name judge_failed) b =
    (Builder.record_blocked_tool name judge_failed b, [])

unfoldable pub decide_all : List Decision → Builder → Builder × List Event
decide_all [] b = (b, [])
decide_all (d ∷ ds) b =
    let (b1, here) = decide d b in let (b2, rest) = decide_all ds b1 in (b2, here ++ rest)
