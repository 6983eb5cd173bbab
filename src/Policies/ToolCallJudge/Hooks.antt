-- ===== src/Policies/ToolCallJudge/Hooks.antt =====
-- The stream under the tool call judge, the upstream's account of its tool calls, and what a hook adds
-- to the builder's queue.
use mathlib.Core.Path.{fun_ext}
use mathlib.Core.List.{map-append, append-nil}
use luthien_proxy.Base.{
  ℤ, ◌≡◌, refl, ap, sym, String, Bool, true, false, not, is_some, Option, none, some, List, [], ◌∷◌,
  ◌++◌, map, if◌then◌else◌, arith, str_append, Bool-cases, inl, inr,
}
use luthien_proxy.Base.Dict
use luthien_proxy.Base.Dict.{Dict, get-put, get-remove, get-empty}
use luthien_proxy.Stream.Event.{
  Event, content_block_start, content_block_delta, content_block_stop, tool_use_block,
  input_json_delta,
}
use luthien_proxy.Builder
use luthien_proxy.Builder.Types.{Builder, BufferedTool}
use luthien_proxy.Builder.Dispatch.{
  ToolStopHandler, Decision, commit_text, buffer_tool, decide, decide_all, dispatch_tool_only, run,
  continue,
}
use luthien_proxy.Builder.Runs.{ByDecisions, HooksDecide, events_of}
use luthien_proxy.Builder.Tools.{Call, wire_call, queued_calls}
use luthien_proxy.Policies.ToolCallJudge.{
  JudgeEnv, JudgeReply, JudgeResult, failed, judged, format_blocked_message, commit_message, act_on,
  on_tool_stop, returned_or, returning_hook, ending_tool, hook_raises, on_anthropic_stream_event,
}

-- The upstream's own account of its tools: the call of each open tool_use block, its input as far as it
-- has come
abbrev pub Calls : Type 0
Calls = Dict Call

abbrev pub add_piece : ℤ → String → Option Call → Calls → Calls
add_piece i piece none calls = calls
add_piece i piece (some (id, name, input)) calls =
    Dict.put calls i (id, name, str_append input piece)

abbrev pub open_after : Event → Calls → Calls
open_after (content_block_start i (tool_use_block id name)) calls = Dict.put calls i (id, name, "")
open_after (content_block_delta i (input_json_delta piece)) calls =
    add_piece i piece (Dict.get calls i) calls
open_after (content_block_stop i) calls = Dict.remove calls i
open_after e calls = calls

abbrev pub call : BufferedTool → Call
call t = (t.id, t.name, t.input_json)

abbrev pub call_of : Option BufferedTool → Option Call
call_of none = none
call_of (some t) = some (call t)

-- The builder's tool buffer holds the open calls.
abbrev pub Same : Calls → Dict BufferedTool → Type 0
Same calls tb = (i : ℤ) → Dict.get calls i ≡ call_of (Dict.get tb i)

pub Same-put :
    (calls : Calls) (tb : Dict BufferedTool) (i : ℤ) (t : BufferedTool)
    → Same calls tb
    → Same (Dict.put calls i (call t)) (Dict.put tb i t)
Same-put calls tb i t s = λ j. ground (arith, get-put calls i j (call t), get-put tb i j t, s j)

pub Same-remove :
    (calls : Calls) (tb : Dict BufferedTool) (i : ℤ)
    → Same calls tb
    → Same (Dict.remove calls i) (Dict.remove tb i)
Same-remove calls tb i s = λ j. ground (arith, get-remove calls i j, get-remove tb i j, s j)

pub commit_text-buffered :
    (text : String) (b : Builder) → (Builder.commit_text text b).0.buffered_tools ≡ b.buffered_tools
unfolding Builder.commit_text Builder.emit_text_now
commit_text-buffered text b = ground arith

-- `str.format` fills the template, whatever the values are.
abbrev pub Fills : JudgeEnv → Type 0
Fills env =
    (name arguments : String) (p : env.Probability) (explanation : String)
    → (text : String) × (env.format_blocked name arguments p explanation ≡ some text)

module _ (env : JudgeEnv) where
  commit_message-buffered :
      (o : Option String) (b : Builder)
      → (returned_or env b (commit_message env o b)).0.buffered_tools ≡ b.buffered_tools
  commit_message-buffered none b = refl
  commit_message-buffered (some text) b = commit_text-buffered text b

  commit_message-some :
      (o : Option String) (b : Builder)
      → (text : String) × (o ≡ some text)
      → is_some (commit_message env o b) ≡ true
  commit_message-some none b (text, e) = absurd (ground (arith, e))
  commit_message-some (some t) b (text, e) = refl

  commit_message-tool_buffer :
      (o : Option String) (b : Builder)
      → (returned_or env b (commit_message env o b)).0.tool_buffer ≡ b.tool_buffer
  unfolding Builder.commit_text Builder.emit_text_now
  commit_message-tool_buffer none b = refl
  commit_message-tool_buffer (some text) b = ground arith

module _ (env : JudgeEnv) (threshold : env.Probability) where
  -- A tool call may pass: the judge has answered, and below the threshold.
  abbrev pub allows : JudgeReply env → Bool
  allows (failed error) = false
  allows (judged result) = not (env.at_least result.probability threshold)

  abbrev pub approve : Option Call → JudgeReply env → List Call
  approve none reply = []
  approve (some c) reply = if allows reply then wire_call c ∷ [] else []

  abbrev pub approved_here : Event → JudgeReply env → Calls → List Call
  approved_here (content_block_stop i) reply calls = approve (Dict.get calls i) reply
  approved_here e reply calls = []

  -- The calls of the upstream's tool_use blocks for which the judge's reply at the block's stop
  -- allows them, in the order of the stops
  unfoldable pub approved : List (Event × JudgeReply env) → Calls → List Call
  approved [] calls = []
  approved ((e, reply) ∷ turns) calls =
      approved_here e reply calls ++ approved turns (open_after e calls)

  -- The stream that the client gets, an event at a time, each with the reply that the judge gives
  -- if a tool ends there
  unfoldable pub judge_stream :
      List (Event × JudgeReply env) → Builder → Option (Builder × List Event)
  judge_stream [] b = some (b, [])
  judge_stream ((e, reply) ∷ turns) b =
      continue (on_anthropic_stream_event env threshold e reply b) (judge_stream turns)

  abbrev pub hooks : List (Event × JudgeReply env) → List (Event × ToolStopHandler)
  hooks = map (λ t. (t.0, returning_hook env threshold t.1))

  -- Where the template can be filled, no hook raises.
  act_on-some :
      (tool : BufferedTool) (o : Option (JudgeResult env)) (b : Builder)
      → Fills env
      → is_some (act_on env tool o b) ≡ true
  unfolding act_on format_blocked_message
  act_on-some tool none b fills = refl
  act_on-some tool (some blocked) b fills = commit_message-some env _ b (fills tool.name _ _ _)

  hook_raises-false :
      (reply : JudgeReply env) (o : Option BufferedTool) (b : Builder)
      → Fills env
      → hook_raises env threshold reply o b ≡ false
  unfolding on_tool_stop
  hook_raises-false reply none b fills = refl
  hook_raises-false reply (some tool) b fills = rw (act_on-some tool _ b fills) refl

  stream_event-dispatch :
      (e : Event) (reply : JudgeReply env) (b : Builder)
      → Fills env
      → on_anthropic_stream_event env threshold e reply b
        ≡ dispatch_tool_only e (returning_hook env threshold reply) b
  unfolding on_anthropic_stream_event
  stream_event-dispatch e reply b fills =
      rw (hook_raises-false reply (ending_tool env e b) b fills) refl

  pub judge_stream-run :
      (turns : List (Event × JudgeReply env)) (b : Builder)
      → Fills env
      → judge_stream turns b ≡ run (hooks turns) b
  unfolding judge_stream run
  judge_stream-run [] b fills = refl
  judge_stream-run ((e, reply) ∷ turns) b fills = rw (stream_event-dispatch e reply b fills) (
      ap (continue (dispatch_tool_only e (returning_hook env threshold reply) b))
        (fun_ext (λ b1. judge_stream-run turns b1 fills)))

  -- The hook keeps to the builder's primitives.
  commit_message-decides :
      (o : Option String) (b : Builder)
      → (ds : List Decision) × (returned_or env b (commit_message env o b) ≡ decide_all ds b)
  unfolding decide_all decide
  commit_message-decides none b = ([], refl)
  commit_message-decides (some text) b = (
    commit_text text ∷ [],
    λ i. ((Builder.commit_text text b).0, sym (append-nil (Builder.commit_text text b).1) i),
  )

  pub act_on-decides :
      (tool : BufferedTool) (o : Option (JudgeResult env)) (b : Builder)
      → (ds : List Decision) × (returned_or env b (act_on env tool o b) ≡ decide_all ds b)
  unfolding act_on decide_all decide
  act_on-decides tool none b = (buffer_tool tool.id tool.name tool.input_json ∷ [], refl)
  act_on-decides tool (some blocked) b =
      commit_message-decides
        (format_blocked_message env tool.name (Builder.or_empty_object tool.input_json) blocked) b

  pub on_tool_stop-ByDecisions :
      (reply : JudgeReply env) → ByDecisions (returning_hook env threshold reply)
  unfolding returning_hook on_tool_stop
  on_tool_stop-ByDecisions reply tool b = act_on-decides tool _ b

  pub hooks-HooksDecide : (turns : List (Event × JudgeReply env)) → HooksDecide (hooks turns)
  hooks-HooksDecide [] = tt
  hooks-HooksDecide ((e, reply) ∷ turns) = (on_tool_stop-ByDecisions reply, hooks-HooksDecide turns)

  abbrev pub upstream : List (Event × JudgeReply env) → List Event
  upstream = map (λ t. t.0)

  pub events_of-hooks :
      (turns : List (Event × JudgeReply env)) → events_of (hooks turns) ≡ upstream turns
  events_of-hooks [] = refl
  events_of-hooks ((e, reply) ∷ turns) = ap (◌∷◌ e) (events_of-hooks turns)

  -- What a hook adds to the queue
  pub queued-on_tool_stop :
      (reply : JudgeReply env) (tool : BufferedTool) (b : Builder)
      → queued_calls (returning_hook env threshold reply tool b).0.buffered_tools
        ≡ queued_calls b.buffered_tools ++ approve (some (call tool)) reply
  unfolding returning_hook on_tool_stop Builder.buffer_tool
  queued-on_tool_stop (failed error) tool b = rw commit_message-buffered (sym (append-nil _))
  queued-on_tool_stop (judged result) tool b =
      elim (Bool-cases (env.at_least result.probability threshold)) [
        | inl high ↦ rw high (rw commit_message-buffered (sym (append-nil _)))
        | inr low ↦ rw low (map-append _ _ _)
      ]

  pub tool_buffer-on_tool_stop :
      (reply : JudgeReply env) (tool : BufferedTool) (b : Builder)
      → (returning_hook env threshold reply tool b).0.tool_buffer ≡ b.tool_buffer
  unfolding returning_hook on_tool_stop Builder.buffer_tool
  tool_buffer-on_tool_stop (failed error) tool b = commit_message-tool_buffer env _ b
  tool_buffer-on_tool_stop (judged result) tool b =
      elim (Bool-cases (env.at_least result.probability threshold)) [
        | inl high ↦ rw high (commit_message-tool_buffer env _ b)
        | inr low ↦ rw low refl
      ]
