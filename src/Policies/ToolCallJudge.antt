-- ===== src/Policies/ToolCallJudge.antt =====
-- src/luthien_proxy/policies/tool_call_judge_policy.py: the streaming path. What
-- the judge replies at a tool is an input of the model; an exception of the call is the reply
-- `failed`.
pub mod Hooks
pub mod Queue
pub mod Stream
use Prim.Native.String.{[] as empty_text, ◌∷◌ as cons_text}
use luthien_proxy.Base.{
  ℕ, zero, suc, String, str_eq, str_append, Bool, true, false, Option, none, some, List, [], ◌∷◌,
  ◌++◌, if◌then◌else◌, not, is_some,
}
use luthien_proxy.Stream.Event.{Event, content_block_stop}
use luthien_proxy.Base.Dict
use luthien_proxy.Builder
use luthien_proxy.Builder.Types.{Builder, BufferedTool}
use luthien_proxy.Builder.Dispatch.{ToolStopHandler, dispatch_tool_only}

-- Python's floats between 0 and 1 and its `str.format`, which the policy only calls: `format_blocked
-- name arguments probability explanation` fills the policy's own template, and is `none` if `format`
-- raises, as it does for a template with an unknown field.
pub record JudgeEnv : Type 1 where
  pub Probability : Type 0
  pub at_least : Probability → Probability → Bool
  pub one : Probability
  pub format_blocked : String → String → Probability → String → Option String

-- TOOL_ARGS_TRUNCATION_LENGTH
abbrev pub tool_args_truncation_length : ℕ
tool_args_truncation_length = 200

-- `text[:n]`
unfoldable pub take_text : ℕ → String → String
take_text zero s = ""
take_text (suc n) String.[] = ""
take_text (suc n) (String.◌∷◌ c s) = String.◌∷◌ c (take_text n s)

module _ (env : JudgeEnv) where
  open env use {Probability, at_least, one, format_blocked}

  pub record JudgeResult : Type 0 where
    pub probability : Probability
    pub explanation : String

  pub data JudgeReply : Type 0 where
    -- `_call_judge` raised an exception with this text
    failed : String → JudgeReply
    judged : JudgeResult → JudgeReply

  -- The events that `_emit_*` records on the request's context
  pub data AuditEvent : Type 0 where
    evaluation_started : String → String → AuditEvent
    evaluation_failed : String → String → String → AuditEvent
    evaluation_complete tool_call_blocked : String → JudgeResult → AuditEvent
    tool_call_allowed : String → Probability → AuditEvent

  -- `_evaluate_and_maybe_block`: the judge's result if the call is blocked
  unfoldable pub evaluate_and_maybe_block :
      Probability → String → String → JudgeReply → Option JudgeResult × List AuditEvent
  evaluate_and_maybe_block threshold name arguments (failed error) = (
    some (record { probability = one; explanation = str_append "Judge evaluation failed: " error }),
    evaluation_started name arguments ∷ evaluation_failed name arguments error ∷ [],
  )
  evaluate_and_maybe_block threshold name arguments (judged result) =
      let log = evaluation_started name arguments ∷ evaluation_complete name result ∷ [] in
      if at_least result.probability threshold
      then (some result, log ++ tool_call_blocked name result ∷ [])
      else (none, log ++ tool_call_allowed name result.probability ∷ [])

  -- `_format_blocked_message`; `none` is an exception of `format`
  unfoldable pub format_blocked_message : String → String → JudgeResult → Option String
  unfolding take_text
  format_blocked_message name arguments result =
      format_blocked name (take_text tool_args_truncation_length arguments) result.probability
        (if str_eq result.explanation "" then "No explanation provided" else result.explanation)

  abbrev pub commit_message : Option String → Builder → Option (Builder × List Event)
  commit_message none b = none
  commit_message (some text) b = some (Builder.commit_text text b)

  -- the two branches of the hooks on the outcome; `none` if the hook raises
  unfoldable pub act_on :
      BufferedTool → Option JudgeResult → Builder → Option (Builder × List Event)
  unfolding format_blocked_message
  act_on tool none b = some (Builder.buffer_tool tool.id tool.name tool.input_json b, [])
  act_on tool (some blocked) b =
      commit_message
        (format_blocked_message tool.name (Builder.or_empty_object tool.input_json) blocked) b

  -- `on_tool_stop`, where the judge replies `reply`
  unfoldable pub on_tool_stop :
      Probability → JudgeReply → BufferedTool → Builder → Option (Builder × List Event)
  unfolding act_on evaluate_and_maybe_block
  on_tool_stop threshold reply tool b =
      act_on tool
        (evaluate_and_maybe_block threshold tool.name (Builder.or_empty_object tool.input_json)
          reply).0
        b

  abbrev pub returned_or : Builder → Option (Builder × List Event) → Builder × List Event
  returned_or b none = (b, [])
  returned_or b (some p) = p

  -- The hook as the builder calls it, where it returns
  unfoldable pub returning_hook : Probability → JudgeReply → ToolStopHandler
  unfolding on_tool_stop
  returning_hook threshold reply tool b = returned_or b (on_tool_stop threshold reply tool b)

  -- The tool for which the builder calls the hook at an event
  abbrev pub ending_tool : Event → Builder → Option BufferedTool
  ending_tool (content_block_stop index) b = Dict.get b.tool_buffer index
  ending_tool event b = none

  abbrev pub hook_raises : Probability → JudgeReply → Option BufferedTool → Builder → Bool
  hook_raises threshold reply none b = false
  hook_raises threshold reply (some tool) b = not (is_some (on_tool_stop threshold reply tool b))

  -- `on_anthropic_stream_event`; an exception of the hook leaves the call
  unfoldable pub on_anthropic_stream_event :
      Probability → Event → JudgeReply → Builder → Option (Builder × List Event)
  on_anthropic_stream_event threshold event reply b =
      if hook_raises threshold reply (ending_tool event b) b
      then none
      else dispatch_tool_only event (returning_hook threshold reply) b
