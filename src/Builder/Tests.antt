-- ===== src/Builder/Tests.antt =====
-- A stream of a text and two tools, of which a hook lets one through.
use luthien_proxy.Base.{
  pos, ◌≡◌, refl, true, false, none, some, List, [], ◌∷◌, map, if◌then◌else◌, contains, add,
  difference,
}
use luthien_proxy.Base.Dict
use luthien_proxy.Stream.Event.{
  Event, message_start, content_block_start, content_block_delta, content_block_stop, message_delta,
  message_stop, text_block, tool_use_block, text_delta, input_json_delta, view, StopReason,
}
use luthien_proxy.Stream.Validator
use luthien_proxy.Stream.Validator.{validate}
use luthien_proxy.Stream.Validator.Accept.{content_first}
use luthien_proxy.Builder
use luthien_proxy.Builder.Types.{Builder}
use luthien_proxy.Builder.Dispatch.{
  ToolStopHandler, Decision, decide, decide_all, run, dispatch_start, dispatch_delta, dispatch_stop,
  stopped, dispatch_tool_only, finalize, flush, emit_tools, emit_optional, correct_stop_reason,
}
use luthien_proxy.Builder.Runs.{ByDecisions, HooksDecide, events_of}
use luthien_proxy.Builder.Order.{tools_last, tools_last-run}
use luthien_proxy.Builder.Tools.{tool_calls, queued_calls, tool_calls-run}
use luthien_proxy.Builder.Protocol.Total.{single_delta}
use luthien_proxy.Builder.Protocol.Valid.{run-preserves_validity}

abbrev allow : ToolStopHandler
allow tool b = decide_all (Decision.buffer_tool tool.id tool.name tool.input_json ∷ []) b

abbrev block : ToolStopHandler
block tool b =
    decide_all (Decision.commit_text "no" ∷ Decision.record_blocked_tool tool.name false ∷ []) b

abbrev turns : List (Event × ToolStopHandler)
turns =
    (message_start "m", allow)
    ∷ (content_block_start (pos 0) (text_block ""), allow)
    ∷ (content_block_delta (pos 0) (text_delta "hi"), allow)
    ∷ (content_block_stop (pos 0), allow)
    ∷ (content_block_start (pos 1) (tool_use_block "t1" "ls"), allow)
    ∷ (content_block_delta (pos 1) (input_json_delta "{}"), allow)
    ∷ (content_block_stop (pos 1), allow)
    ∷ (content_block_start (pos 2) (tool_use_block "t2" "rm"), allow)
    ∷ (content_block_stop (pos 2), block)
    ∷ (
      message_delta (record {
        stop_reason = some StopReason.tool_use;
        stop_sequence = none;
        output_tokens = 7;
      }),
      allow,
    )
    ∷ (message_stop, allow)
    ∷ []

allow_decides : ByDecisions allow
allow_decides = λ tool b. (Decision.buffer_tool tool.id tool.name tool.input_json ∷ [], refl)

block_decides : ByDecisions block
block_decides =
    λ tool b. (Decision.commit_text "no" ∷ Decision.record_blocked_tool tool.name false ∷ [], refl)

turns_decide : HooksDecide turns
turns_decide = (
  allow_decides,
  (
    allow_decides,
    (
      allow_decides,
      (
        allow_decides,
        (
          allow_decides,
          (
            allow_decides,
            (allow_decides, (allow_decides, (block_decides, (allow_decides, (allow_decides, tt))))),
          ),
        ),
      ),
    ),
  ),
)

turns_valid : validate (map view (events_of turns)) ≡ []
unfolding validate Validator.check_first Validator.check_last Validator.check_content_before_delta
    Validator.find_message_delta Validator.check_late Validator.check_lifecycle
    Validator.check_closed contains add difference
turns_valid = refl

turns_one_delta : single_delta (events_of turns) ≡ true
unfolding single_delta
turns_one_delta = refl

turns-content_first : content_first (map view (events_of turns)) ≡ true
unfolding content_first
turns-content_first = refl

-- what the run sends, and the builder behind it
abbrev sent : Builder × List Event
sent = elim (run turns Builder.fresh) [ none ↦ (Builder.fresh, []) | some p ↦ p ]

turns-run : run turns Builder.fresh ≡ some sent
unfolding run dispatch_start dispatch_delta dispatch_stop stopped dispatch_tool_only finalize flush
    emit_tools emit_optional correct_stop_reason decide decide_all Builder.emit_text_now
    Builder.emit_tool_now Builder.commit_text Builder.begin_tool_buffer Builder.append_tool_delta
    Builder.take_tool Builder.buffer_tool Builder.record_blocked_tool Builder.passthrough_start
    Builder.passthrough_delta Builder.passthrough_stop Dict.get Dict.put Dict.remove Dict.empty
turns-run = refl

run-preserves_validity_example :
    (b' : Builder) × (out : List Event) × (run turns Builder.fresh ≡ some (b', out))
    × (validate (map view out) ≡ [])
run-preserves_validity_example =
    run-preserves_validity turns turns_decide turns_valid turns_one_delta

tools_last-run_example : tools_last sent.1 ≡ true
tools_last-run_example =
    tools_last-run turns Builder.fresh sent.0 sent.1 turns_decide turns-content_first turns-run

tool_calls-run_example :
    tool_calls sent.1 ≡ (if sent.0.finalized then queued_calls sent.0.buffered_tools else [])
tool_calls-run_example =
    tool_calls-run turns Builder.fresh sent.0 sent.1 refl turns_decide turns-content_first turns-run
